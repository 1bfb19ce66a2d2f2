-- ===== src/Adapters/Spacy/Ensured.antt =====
-- Loading the pipelines of several languages, one after the other (adapters/spacy_ner.py).
use mas_research.Base.{
  String, ◌≡◌, refl, sym, ap, ◌∙◌, Bool, true, false, none, some, List, [], ◌∷◌, ◌++◌, string_key,
  Option-cases, Bool-cases, inl, inr, arith, if◌then◌else◌, string_dec,
}
use mas_research.Base.Dict.{Dict, lookup, insert, has, keys}
use mathlib.Core.List.{append_assoc}
use mas_research.Adapters.Spacy.{Spacy, SpacyNerAdapter, ensure_nlp}
use mas_research.Adapters.Spacy.Loading.{known, ensure_known, known-ensure, known-kept}

module _ {Nlp : Type 0} (spacy : Spacy Nlp) where
  -- Whether all languages have a pipeline, up to the first one that has none.
  unfoldable pub ensure_all : List String → SpacyNerAdapter Nlp → Bool × SpacyNerAdapter Nlp
  ensure_all [] s = (true, s)
  ensure_all (language ∷ languages) s =
      let (nlp, after) = ensure_nlp spacy language s in
      elim nlp [ none ↦ (false, after) | some nlp ↦ ensure_all languages after ]

  abbrev continue : List String → Bool × SpacyNerAdapter Nlp → Bool × SpacyNerAdapter Nlp
  continue languages (false, s) = (false, s)
  continue languages (true, s) = ensure_all languages s

  ensure_all-append :
      (xs ys : List String) (s : SpacyNerAdapter Nlp)
      → ensure_all (xs ++ ys) s ≡ continue ys (ensure_all xs s)
  unfolding ensure_all
  ensure_all-append [] ys s = refl
  ensure_all-append (x ∷ xs) ys s = elim (Option-cases (ensure_nlp spacy x s).0) [
    | inl e ↦ rw (e, ensure_all) refl
    | inr (nlp, e) ↦ rw (e, ensure_all) (ensure_all-append xs ys (ensure_nlp spacy x s).1)
  ]

  pub known-ensure_all :
      (languages : List String) (other : String) (s : SpacyNerAdapter Nlp) (nlp : Nlp)
      → known s other ≡ some nlp
      → known (ensure_all languages s).1 other ≡ some nlp
  unfolding ensure_all
  known-ensure_all [] other s nlp e = e
  known-ensure_all (x ∷ xs) other s nlp e =
      let kept = known-kept spacy x other s nlp e in
      elim (Option-cases (ensure_nlp spacy x s).0) [
        | inl k ↦ rw (k, ensure_all) kept
        | inr (p, k) ↦
            rw (k, ensure_all) (known-ensure_all xs other (ensure_nlp spacy x s).1 nlp kept)
      ]

  -- A language that was ensured already is ensured again with no effect.
  ensure_all-again :
      {V : Type 0} (language : String) (d : Dict String V) (s : SpacyNerAdapter Nlp)
      → has language d ≡ true
      → continue (language ∷ []) (ensure_all (keys d) s) ≡ ensure_all (keys d) s
  unfolding ensure_all lookup
  ensure_all-again language [] s h = absurd (cc h)
  ensure_all-again language ((k, v) ∷ d) s h = elim (Option-cases (ensure_nlp spacy k s).0) [
    | inl e ↦ rw (e, ensure_all) refl
    | inr (nlp, e) ↦
        let after = (ensure_nlp spacy k s).1 in
        rw (e, ensure_all)
          (elim (string_dec language k) [
            | yes p ↦
                let there = known-ensure_all (keys d) k after nlp (known-ensure spacy k s nlp e) in
                here nlp p (ensure_all (keys d) after) there
            | no n ↦ ensure_all-again language d after (rest n h)
          ])
  ]
    where
      here :
          (nlp : Nlp)
          → language ≡ k
          → (r : Bool × SpacyNerAdapter Nlp) → known r.1 k ≡ some nlp
          → continue (language ∷ []) r ≡ r
      here nlp p (false, s) e = refl
      here nlp p (true, s) e =
          ap (λ r. elim r.0 [ none ↦ (false, r.1) | some q ↦ (true, r.1) ])
            (ensure_known spacy language s nlp (ap (known s) p ∙ e))

      rest : (language ≡ k → ⊥) → has language ((k, v) ∷ d) ≡ true → has language d ≡ true
      rest n h = ground arith

  keys-insert :
      {V : Type 0} (language : String) (v : V) (d : Dict String V)
      → keys (insert language v d) ≡ (if has language d then keys d else keys d ++ language ∷ [])
  unfolding insert lookup
  keys-insert language v [] = refl
  keys-insert language v ((k, w) ∷ d) = ground (arith, keys-insert language v d)

  pub ensure_all-insert :
      {V : Type 0} (language : String) (v : V) (d : Dict String V) (rest : List String)
      (s : SpacyNerAdapter Nlp)
      → ensure_all (keys (insert language v d) ++ rest) s ≡ ensure_all (keys d ++ language ∷ rest) s
  ensure_all-insert language v d rest s = elim (Bool-cases (has language d)) [
    | inl e ↦
        rw (keys-insert language v d, e)
          (ensure_all-append (keys d) rest s
            ∙ ap (continue rest) (sym (ensure_all-again language d s e))
            ∙ joined (ensure_all (keys d) s)
            ∙ sym (ensure_all-append (keys d) (language ∷ rest) s))
    | inr e ↦
        rw (keys-insert language v d, e)
          (ap (λ xs. ensure_all xs s) (append_assoc (keys d) (language ∷ []) rest))
  ]
    where
      joined :
          (r : Bool × SpacyNerAdapter Nlp)
          → continue rest (continue (language ∷ []) r) ≡ continue (language ∷ rest) r
      joined (false, s) = refl
      joined (true, s) = sym (ensure_all-append (language ∷ []) rest s)
