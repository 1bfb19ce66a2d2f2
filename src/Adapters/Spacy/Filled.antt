-- ===== src/Adapters/Spacy/Filled.antt =====
-- The results that the groups fill in (adapters/spacy_ner.py, `extract_many`).
use mas_research.Text.{Text}
use mas_research.Base.{
  String, ℕ, zero, suc, ◌<◌, ◌≡◌, ◌==◌, refl, ap, ◌∙◌, Bool, true, ◌||◌, Option, none, some, List,
  [], ◌∷◌, ◌++◌, string_key, nat_key, same, arith, if◌then◌else◌, length, get_elem?, map,
  ℕ_discrete,
}
use mas_research.Base.Dict.{contains}
use mas_research.Terms.{Candidate}
use mas_research.Adapters.Spacy.{
  Spacy, SpacyNerAdapter, select_language, texts_at, set_at, put_docs, candidates_of, blanks,
}
use mas_research.Adapters.Spacy.Loading.{known}
use mas_research.Adapters.Spacy.Grouped.{text_at, AllIn}

abbrev overwrite : Bool → List Candidate → Option (List Candidate) → Option (List Candidate)
overwrite b candidates none = none
overwrite b candidates (some old) = some (if b then candidates else old)

get_elem?-set_at :
    (i j : ℕ) (candidates : List Candidate) (results : List (List Candidate))
    → get_elem? (set_at i candidates results) j
      ≡ overwrite (j == i) candidates (get_elem? results j)
unfolding set_at
get_elem?-set_at i j candidates [] = refl
get_elem?-set_at zero zero candidates (r ∷ results) = refl
get_elem?-set_at zero (suc j) candidates (r ∷ results) = ground arith
get_elem?-set_at (suc i) zero candidates (r ∷ results) = ground arith
get_elem?-set_at (suc i) (suc j) candidates (r ∷ results) =
    ground (arith, get_elem?-set_at i j candidates results)

get_elem?-blanks :
    (f : Text → List Candidate) (b : Bool) (texts : List Text) (j : ℕ)
    → (j < length texts → b ≡ true)
    → overwrite b (f (text_at texts j)) (get_elem? (blanks texts) j) ≡ get_elem? (map f texts) j
get_elem?-blanks f b [] j h = refl
get_elem?-blanks f b (t ∷ texts) zero h = rw (h (omega arith)) refl
get_elem?-blanks f b (t ∷ texts) (suc j) h =
    get_elem?-blanks f b texts j (λ k. h (omega (arith, k)))

get_elem?_ext :
    {A : Type 0} (xs ys : List A) → ((j : ℕ) → get_elem? xs j ≡ get_elem? ys j) → xs ≡ ys
get_elem?_ext [] [] h = refl
get_elem?_ext [] (y ∷ ys) h = absurd (cc (h 0))
get_elem?_ext (x ∷ xs) [] h = absurd (cc (h 0))
get_elem?_ext (x ∷ xs) (y ∷ ys) h = cc (h 0, get_elem?_ext xs ys (λ j. h (suc j)))

module _ {Nlp : Type 0} (spacy : Spacy Nlp) where
  abbrev pub of_nlp : Option Nlp → Text → List Candidate
  of_nlp none text = []
  of_nlp (some nlp) text = candidates_of spacy (spacy.run nlp text)

  -- What the pipeline of a text's language makes of the text.
  abbrev pub candidates_in : SpacyNerAdapter Nlp → Text → List Candidate
  candidates_in s text = of_nlp (known s (select_language text)) text

  module _ (texts : List Text) where
    unfoldable pub put_all :
        SpacyNerAdapter Nlp → List ℕ → List (List Candidate) → List (List Candidate)
    put_all s [] results = results
    put_all s (i ∷ indices) results =
        put_all s indices (set_at i (candidates_in s (text_at texts i)) results)

    pub put_docs-put_all :
        (s : SpacyNerAdapter Nlp) (language : String) (nlp : Nlp) (indices : List ℕ)
        (results : List (List Candidate))
        → known s language ≡ some nlp
        → AllIn texts language indices
        → put_docs spacy indices (map (spacy.run nlp) (texts_at texts indices)) results
          ≡ some (put_all s indices results)
    unfolding put_docs texts_at put_all
    put_docs-put_all s language nlp [] results e h = refl
    put_docs-put_all s language nlp (i ∷ indices) results e h =
        rw (h.0, e)
          (put_docs-put_all s language nlp indices
            (set_at i (candidates_of spacy (spacy.run nlp (text_at texts i))) results) e h.1)

    pub put_all_same :
        (s t : SpacyNerAdapter Nlp) (language : String) (indices : List ℕ)
        (results : List (List Candidate))
        → known s language ≡ known t language
        → AllIn texts language indices
        → put_all s indices results ≡ put_all t indices results
    unfolding put_all
    put_all_same s t language [] results e h = refl
    put_all_same s t language (i ∷ indices) results e h =
        rw (h.0, e)
          (put_all_same s t language indices
            (set_at i (of_nlp (known t language) (text_at texts i)) results) e h.1)

    pub put_all-append :
        (s : SpacyNerAdapter Nlp) (xs ys : List ℕ) (results : List (List Candidate))
        → put_all s (xs ++ ys) results ≡ put_all s ys (put_all s xs results)
    unfolding put_all
    put_all-append s [] ys results = refl
    put_all-append s (x ∷ xs) ys results =
        put_all-append s xs ys (set_at x (candidates_in s (text_at texts x)) results)

    get_elem?-put_all :
        (s : SpacyNerAdapter Nlp) (indices : List ℕ) (results : List (List Candidate)) (j : ℕ)
        → get_elem? (put_all s indices results) j
          ≡ overwrite (contains j indices) (candidates_in s (text_at texts j)) (get_elem? results j)
    unfolding put_all contains
    get_elem?-put_all s [] results j = ground arith
    get_elem?-put_all s (i ∷ indices) results j =
        let new = candidates_in s (text_at texts i) in
        get_elem?-put_all s indices (set_at i new results) j
        ∙ ap (overwrite (contains j indices) (candidates_in s (text_at texts j)))
            (get_elem?-set_at i j new results)
        ∙ twice i j (contains j indices) (get_elem? results j)
      where
        twice :
            (i j : ℕ) (b : Bool) (old : Option (List Candidate))
            → overwrite b
                (candidates_in s (text_at texts j))
                (overwrite (j == i) (candidates_in s (text_at texts i)) old)
              ≡ overwrite (same j i || b) (candidates_in s (text_at texts j)) old
        twice i j b none = refl
        twice i j b (some old) = elim (ℕ_discrete j i) [
          | yes p ↦ ground (arith, ap (λ k. candidates_in s (text_at texts k)) p)
          | no n ↦ ground arith
        ]

    -- Where each index is in a group, each text has its result.
    pub put_all-map :
        (s : SpacyNerAdapter Nlp) (indices : List ℕ)
        → ((j : ℕ) → j < length texts → contains j indices ≡ true)
        → put_all s indices (blanks texts) ≡ map (candidates_in s) texts
    put_all-map s indices h =
        get_elem?_ext (put_all s indices (blanks texts)) (map (candidates_in s) texts) (λ j.
          get_elem?-put_all s indices (blanks texts) j
          ∙ get_elem?-blanks (candidates_in s) (contains j indices) texts j (h j))
