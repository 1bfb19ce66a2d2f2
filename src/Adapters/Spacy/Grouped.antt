-- ===== src/Adapters/Spacy/Grouped.antt =====
-- The groups of texts by language (adapters/spacy_ner.py, `extract_many`).
use mas_research.Text.{Text}
use mas_research.Base.{
  String, ℕ, suc, ◌+◌, ◌≡◌, refl, ap, ◌∙◌, ◌&&◌, ◌||◌, some, or_else, List, [], ◌∷◌, ◌++◌,
  string_key, nat_key, arith, string_dec, length, ite, leb, ltb, get_elem?,
}
use mas_research.Base.Dict.{Dict, lookup, insert, contains}
use mas_research.Adapters.Spacy.{select_language, lang_groups}

abbrev pub text_at : List Text → ℕ → Text
text_at texts i = or_else (get_elem? texts i) []

-- The texts at the indices have the language.
abbrev pub AllIn : List Text → String → List ℕ → Type 0
AllIn texts language [] = Unit {0}
AllIn texts language (i ∷ indices) =
    (select_language (text_at texts i) ≡ language) × AllIn texts language indices

abbrev pub AreSorted : List Text → Dict String (List ℕ) → Type 0
AreSorted texts [] = Unit {0}
AreSorted texts ((language, indices) ∷ groups) =
    AllIn texts language indices × AreSorted texts groups

-- All indices, group by group.
abbrev pub indices_of : Dict String (List ℕ) → List ℕ
indices_of [] = []
indices_of ((language, indices) ∷ groups) = indices ++ indices_of groups

AllIn-append :
    (texts : List Text) (language : String) (xs : List ℕ) (i : ℕ)
    → AllIn texts language xs
    → select_language (text_at texts i) ≡ language
    → AllIn texts language (xs ++ i ∷ [])
AllIn-append texts language [] i h e = (e, tt)
AllIn-append texts language (x ∷ xs) i h e = (h.0, AllIn-append texts language xs i h.1 e)

insert-AreSorted :
    (texts : List Text) (language : String) (i : ℕ) (groups : Dict String (List ℕ))
    → AreSorted texts groups
    → select_language (text_at texts i) ≡ language
    → AreSorted texts (insert language (or_else (lookup language groups) [] ++ i ∷ []) groups)
unfolding insert lookup
insert-AreSorted texts language i [] h e = ((e, tt), tt)
insert-AreSorted texts language i ((k, indices) ∷ groups) h e =
    elim (string_dec language k)
      as (λ d. AreSorted texts (
        ite d ((k, or_else (ite d (some indices) (lookup language groups)) [] ++ i ∷ []) ∷ groups) (
          (k, indices)
          ∷ insert language (or_else (ite d (some indices) (lookup language groups)) [] ++ i ∷ [])
              groups))) [
                | yes p ↦ (AllIn-append texts k indices i h.0 (e ∙ p), h.1)
                | no n ↦ (h.0, insert-AreSorted texts language i groups h.1 e)
              ]

pub lang_groups-AreSorted :
    (texts : List Text) (idx : ℕ) (rest : List Text) (groups : Dict String (List ℕ))
    → ((k : ℕ) → get_elem? texts (idx + k) ≡ get_elem? rest k)
    → AreSorted texts groups
    → AreSorted texts (lang_groups idx rest groups)
unfolding lang_groups
lang_groups-AreSorted texts idx [] groups same_texts h = h
lang_groups-AreSorted texts idx (text ∷ rest) groups same_texts h =
    let here : text_at texts idx ≡ text = ground (arith, same_texts 0) in
    let language = select_language text in
    lang_groups-AreSorted texts (idx + 1) rest
      (insert language (or_else (lookup language groups) [] ++ idx ∷ []) groups)
      (λ k. ap (get_elem? texts) (omega arith) ∙ same_texts (suc k))
      (insert-AreSorted texts language idx groups h (ap select_language here))

contains-append :
    (j : ℕ) (xs ys : List ℕ) → contains j (xs ++ ys) ≡ (contains j xs || contains j ys)
unfolding contains
contains-append j [] ys = refl
contains-append j (x ∷ xs) ys = ground (arith, contains-append j xs ys)

contains-insert :
    (j : ℕ) (language : String) (i : ℕ) (groups : Dict String (List ℕ))
    → contains j
        (indices_of (insert language (or_else (lookup language groups) [] ++ i ∷ []) groups))
      ≡ (contains j (i ∷ []) || contains j (indices_of groups))
unfolding insert lookup contains
contains-insert j language i [] = ground arith
contains-insert j language i ((k, indices) ∷ groups) = elim (string_dec language k) [
  | yes p ↦ ground (
    arith,
    contains-append j (indices ++ i ∷ []) (indices_of groups),
    contains-append j indices (i ∷ []),
    contains-append j indices (indices_of groups),
  )
  | no n ↦ ground (
    arith,
    contains-insert j language i groups,
    contains-append j indices (indices_of groups),
    contains-append j indices
        (indices_of (insert language (or_else (lookup language groups) [] ++ i ∷ []) groups)),
  )
]

pub lang_groups-contains :
    (j idx : ℕ) (rest : List Text) (groups : Dict String (List ℕ))
    → contains j (indices_of (lang_groups idx rest groups))
      ≡ (contains j (indices_of groups) || (leb idx j && ltb j (idx + length rest)))
unfolding lang_groups contains
lang_groups-contains j idx [] groups = ground arith
lang_groups-contains j idx (text ∷ rest) groups =
    let language = select_language text in
    ground (
      arith,
      contains-insert j language idx groups,
      lang_groups-contains j (idx + 1) rest
          (insert language (or_else (lookup language groups) [] ++ idx ∷ []) groups),
    )
