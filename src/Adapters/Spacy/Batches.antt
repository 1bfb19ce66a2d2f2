-- ===== src/Adapters/Spacy/Batches.antt =====
-- A batch has the results of the texts one by one (adapters/spacy_ner.py, `extract_many`).
use mas_research.Text.{Text}
use mas_research.Base.{
  String, ℕ, ◌+◌, ◌<◌, ◌≡◌, refl, sym, ap, ◌∙◌, Bool, true, false, Option, none, some, or_else,
  List, [], ◌∷◌, ◌++◌, string_key, nat_key, Option-cases, inl, inr, arith, length, map, get_elem?,
}
use mas_research.Base.Dict.{Dict, lookup, insert, contains, keys}
use mas_research.Terms.{Candidate}
use mathlib.Core.List.{append-nil}
use mas_research.Adapters.Spacy.{
  Spacy, SpacyNerAdapter, select_language, texts_at, put_docs, candidates_of, run_groups, blanks,
  ensure_nlp, run_loaded, extract, extract_many, lang_groups,
}
use mas_research.Adapters.Spacy.Loading.{known, known-ensure}
use mas_research.Adapters.Spacy.Ensured.{ensure_all, known-ensure_all, ensure_all-insert}
use mas_research.Adapters.Spacy.Grouped.{
  AllIn, AreSorted, indices_of, lang_groups-AreSorted, lang_groups-contains,
}
use mas_research.Adapters.Spacy.Filled.{
  candidates_in, put_all, put_docs-put_all, put_all_same, put_all-append, put_all-map,
}

module _ {Nlp : Type 0} (spacy : Spacy Nlp) where
  abbrev Answer : Type 0
  Answer = Option (List (List Candidate)) × SpacyNerAdapter Nlp

  abbrev onto : List Candidate → Answer → Answer
  onto candidates (none, s) = (none, s)
  onto candidates (some results, s) = (some (candidates ∷ results), s)

  -- Extracting from each text, in order, up to the first raise.
  unfoldable pub extract_each : List Text → SpacyNerAdapter Nlp → Answer
  extract_each [] s = (some [], s)
  extract_each (text ∷ texts) s =
      let (candidates, after) = extract spacy text s in
      elim candidates [ none ↦ (none, after) | some cs ↦ onto cs (extract_each texts after) ]

  -- The results where the languages of all texts have a pipeline.
  abbrev answer : List Text → Bool × SpacyNerAdapter Nlp → Answer
  answer texts (false, s) = (none, s)
  answer texts (true, s) = (some (map (candidates_in spacy s) texts), s)

  abbrev filled : List Text → List ℕ → List (List Candidate) → Bool × SpacyNerAdapter Nlp → Answer
  filled texts indices results (false, s) = (none, s)
  filled texts indices results (true, s) = (some (put_all spacy texts s indices results), s)

  extract-none :
      (text : Text) (s : SpacyNerAdapter Nlp)
      → (ensure_nlp spacy (select_language text) s).0 ≡ none
      → extract spacy text s ≡ (none, (ensure_nlp spacy (select_language text) s).1)
  unfolding extract
  extract-none text s e =
      let after = (ensure_nlp spacy (select_language text) s).1 in
      ap (λ nlp. run_loaded spacy text (nlp, after)) e

  extract-some :
      (text : Text) (s : SpacyNerAdapter Nlp) (nlp : Nlp)
      → (ensure_nlp spacy (select_language text) s).0 ≡ some nlp
      → extract spacy text s ≡ (
        some (candidates_of spacy (spacy.run nlp text)),
        (ensure_nlp spacy (select_language text) s).1,
      )
  unfolding extract
  extract-some text s nlp e =
      let after = (ensure_nlp spacy (select_language text) s).1 in
      ap (λ loaded. run_loaded spacy text (loaded, after)) e

  extract_each-answer :
      (texts : List Text) (s : SpacyNerAdapter Nlp)
      → extract_each texts s ≡ answer texts (ensure_all spacy (map select_language texts) s)
  unfolding extract_each ensure_all
  extract_each-answer [] s = refl
  extract_each-answer (text ∷ texts) s =
      let language = select_language text in
      let after = (ensure_nlp spacy language s).1 in
      let step : Option (List Candidate) × SpacyNerAdapter Nlp → Answer =
        λ r. elim r.0 [ none ↦ (none, r.1) | some cs ↦ onto cs (extract_each texts r.1) ] in
      elim (Option-cases (ensure_nlp spacy language s).0) [
        | inl e ↦ ap step (extract-none text s e) ∙ rw (ensure_all, e) refl
        | inr (nlp, e) ↦
            let later = map select_language texts in
            let kept =
              known-ensure_all spacy later language after nlp
                (known-ensure spacy language s nlp e) in
            ap step (extract-some text s nlp e)
            ∙ rw (ensure_all, e)
                (ap (onto (candidates_of spacy (spacy.run nlp text)))
                    (extract_each-answer texts after)
                  ∙ first text texts nlp (ensure_all spacy later after) kept)
      ]
    where
      first :
          (text : Text) (texts : List Text) (nlp : Nlp) (r : Bool × SpacyNerAdapter Nlp)
          → known r.1 (select_language text) ≡ some nlp
          → onto (candidates_of spacy (spacy.run nlp text)) (answer texts r)
            ≡ answer (text ∷ texts) r
      first text texts nlp (false, s) e = refl
      first text texts nlp (true, s) e = rw e refl

  lang_groups-ensure_all :
      (idx : ℕ) (texts : List Text) (groups : Dict String (List ℕ)) (s : SpacyNerAdapter Nlp)
      → ensure_all spacy (keys (lang_groups idx texts groups)) s
        ≡ ensure_all spacy (keys groups ++ map select_language texts) s
  unfolding lang_groups
  lang_groups-ensure_all idx [] groups s =
      ap (λ xs. ensure_all spacy xs s) (sym (append-nil (keys groups)))
  lang_groups-ensure_all idx (text ∷ texts) groups s =
      let language = select_language text in
      let indices = or_else (lookup language groups) [] ++ idx ∷ [] in
      lang_groups-ensure_all (idx + 1) texts (insert language indices groups) s
      ∙ ensure_all-insert spacy language indices groups (map select_language texts) s

  module _
      (batched : (nlp : Nlp) (texts : List Text) → spacy.pipe nlp texts ≡ map (spacy.run nlp) texts)
      (texts : List Text) where
    run_groups-filled :
        (groups : Dict String (List ℕ)) (results : List (List Candidate)) (s : SpacyNerAdapter Nlp)
        → AreSorted texts groups
        → run_groups spacy texts groups results s
          ≡ filled texts (indices_of groups) results (ensure_all spacy (keys groups) s)
    unfolding run_groups ensure_all put_all
    run_groups-filled [] results s h = refl
    run_groups-filled ((language, indices) ∷ groups) results s h =
        let after = (ensure_nlp spacy language s).1 in
        elim (Option-cases (ensure_nlp spacy language s).0) [
          | inl e ↦ rw (e, run_groups, ensure_all) refl
          | inr (nlp, e) ↦
              let there = known-ensure spacy language s nlp e in
              let put =
                ap (λ docs. put_docs spacy indices docs results)
                  (batched nlp (texts_at texts indices))
                ∙ put_docs-put_all spacy texts after language nlp indices results there h.0 in
              let kept = known-ensure_all spacy (keys groups) language after nlp there in
              rw (e, run_groups, ensure_all, put)
                (run_groups-filled groups (put_all spacy texts after indices results) after h.1
                  ∙ joined (ensure_all spacy (keys groups) after) after language indices groups
                      results (there ∙ sym kept) h.0)
        ]
      where
        joined :
            (r : Bool × SpacyNerAdapter Nlp) (after : SpacyNerAdapter Nlp) (language : String)
            (indices : List ℕ) (groups : Dict String (List ℕ)) (results : List (List Candidate))
            → known after language ≡ known r.1 language
            → AllIn texts language indices
            → filled texts (indices_of groups) (put_all spacy texts after indices results) r
              ≡ filled texts (indices ++ indices_of groups) results r
        joined (false, s) after language indices groups results e h = refl
        joined (true, s) after language indices groups results e h =
            rw
              (
                put_all_same spacy texts after s language indices results e h,
                put_all-append spacy texts s indices (indices_of groups) results,
              )
              refl

    -- Where a pipeline makes of a batch what it makes of each of its texts: the results of
    -- `extract_many`, their order, its raise and the pipelines that are loaded then are those of
    -- extracting from each text, in order, up to the first raise.
    pub extract_many-each :
        (s : SpacyNerAdapter Nlp) → extract_many spacy texts s ≡ extract_each texts s
    unfolding extract_many contains
    extract_many-each s =
        let groups = lang_groups 0 texts [] in
        let covered : (j : ℕ) → j < length texts → contains j (indices_of groups) ≡ true =
          λ j h. ground (arith, lang_groups-contains j 0 texts []) in
        run_groups-filled groups (blanks texts) s
          (lang_groups-AreSorted texts 0 texts [] (λ k. ap (get_elem? texts) (omega arith)) tt)
        ∙ whole (ensure_all spacy (keys groups) s) (indices_of groups) covered
        ∙ ap (answer texts) (lang_groups-ensure_all 0 texts [] s)
        ∙ sym (extract_each-answer texts s)
      where
        whole :
            (r : Bool × SpacyNerAdapter Nlp) (indices : List ℕ)
            → ((j : ℕ) → j < length texts → contains j indices ≡ true)
            → filled texts indices (blanks texts) r ≡ answer texts r
        whole (false, s) indices h = refl
        whole (true, s) indices h = ap (λ x. (some x, s)) (put_all-map spacy texts s indices h)
