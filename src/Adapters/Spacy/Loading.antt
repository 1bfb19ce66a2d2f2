-- ===== src/Adapters/Spacy/Loading.antt =====
-- A pipeline that is loaded stays (adapters/spacy_ner.py, `_ensure_nlp`).
use mas_research.Base.{
  String, ◌≡◌, refl, ap, ◌∙◌, Option, none, some, string_key, same, Option-cases, Bool-cases, inl,
  inr, arith, string_dec,
}
use mas_research.Base.Dict.{lookup, lookup-insert}
use mas_research.Adapters.Spacy.{
  Spacy, SpacyNerAdapter, Loading, load_model, ensure_nlp, model_of, remember,
}

abbrev pub known : {Nlp : Type 0} → SpacyNerAdapter Nlp → String → Option Nlp
known s language = lookup language s.pipelines

module _ {Nlp : Type 0} (spacy : Spacy Nlp) where
  load_model-pipelines :
      (preferred fallback : String) (s : SpacyNerAdapter Nlp)
      → (load_model spacy preferred fallback s).1.pipelines ≡ s.pipelines
  unfolding load_model
  load_model-pipelines preferred fallback s = ground arith

  model_of-pipelines :
      (language : String) (s : SpacyNerAdapter Nlp)
      → (model_of spacy language s).1.pipelines ≡ s.pipelines
  model_of-pipelines language s = elim (Bool-cases (same language "en")) [
    | inl e ↦ rw e (load_model-pipelines s.en_model_name s.model_name s)
    | inr e ↦ rw e (load_model-pipelines s.model_name s.en_model_name s)
  ]

  remember-known :
      (language : String) (r : Loading spacy) (nlp : Nlp)
      → (remember spacy language r).0 ≡ some nlp
      → known (remember spacy language r).1 language ≡ some nlp
  remember-known language (none, s) nlp e = absurd (cc e)
  remember-known language (some loaded, s) nlp e =
      ground (arith, lookup-insert language language loaded s.pipelines)

  remember-kept :
      (language other : String) (r : Loading spacy) (nlp : Nlp)
      → known r.1 language ≡ none
      → known r.1 other ≡ some nlp
      → known (remember spacy language r).1 other ≡ some nlp
  remember-kept language other (none, s) nlp fresh e = e
  remember-kept language other (some loaded, s) nlp fresh e = elim (string_dec other language) [
    | yes p ↦ absurd (cc (p, fresh, e))
    | no n ↦ ground (arith, lookup-insert other language loaded s.pipelines)
  ]

  pub ensure_known :
      (language : String) (s : SpacyNerAdapter Nlp) (nlp : Nlp)
      → known s language ≡ some nlp
      → ensure_nlp spacy language s ≡ (some nlp, s)
  unfolding ensure_nlp
  ensure_known language s nlp e = rw e refl

  pub known-ensure :
      (language : String) (s : SpacyNerAdapter Nlp) (nlp : Nlp)
      → (ensure_nlp spacy language s).0 ≡ some nlp
      → known (ensure_nlp spacy language s).1 language ≡ some nlp
  unfolding ensure_nlp
  known-ensure language s nlp e = elim (Option-cases (known s language)) [
    | inl k ↦ rw k (remember-known language (model_of spacy language s) nlp (rw k at e))
    | inr (old, k) ↦ rw k (k ∙ rw k at e)
  ]

  pub known-kept :
      (language other : String) (s : SpacyNerAdapter Nlp) (nlp : Nlp)
      → known s other ≡ some nlp
      → known (ensure_nlp spacy language s).1 other ≡ some nlp
  unfolding ensure_nlp
  known-kept language other s nlp e = elim (Option-cases (known s language)) [
    | inl k ↦
        let same_pipelines = model_of-pipelines language s in
        rw k (
          remember-kept language other (model_of spacy language s) nlp
            (ap (lookup language) same_pipelines ∙ k) (ap (lookup other) same_pipelines ∙ e))
    | inr (old, k) ↦ rw k e
  ]
