-- ===== src/Adapters/Spacy.antt =====
-- Choosing, loading and running the pipelines of spaCy (adapters/spacy_ner.py). spaCy is a parameter:
-- its n-th `load` of a model, a pipeline on one text and on a batch. Texts are lists of code points.
-- The times that are observed are left out.
pub mod Loading
pub mod Ensured
pub mod Grouped
pub mod Filled
pub mod Batches
use mas_research.Text.{Text}
use mas_research.Base.{
  String, ℕ, zero, suc, ◌+◌, Bool, true, false, not, ◌&&◌, ◌||◌, Option, none, some, or_else, List,
  [], ◌∷◌, ◌++◌, map, leb, ltb, if◌then◌else◌, string_key, same, text_key, get_elem?,
}
use mas_research.Base.Dict.{Dict, lookup, insert}
use mas_research.Terms.{Candidate}

pub record Entity : Type 0 where
  pub text : Text
  pub lemma : Text
  pub label : Text

pub record Token : Type 0 where
  pub text : Text
  pub lemma : Text
  pub pos : Text

pub record Doc : Type 0 where
  pub ents : List Entity
  pub tokens : List Token

pub record Spacy (Nlp : Type 0) : Type 0 where
  pub load : ℕ → String → Option Nlp
  pub run : Nlp → Text → Doc
  pub pipe : Nlp → List Text → List Doc
  pub lower : Text → Text

-- The adapter, with the number of loads so far.
pub record SpacyNerAdapter (Nlp : Type 0) : Type 0 where
  pub model_name : String
  pub en_model_name : String
  pub pipelines : Dict String Nlp
  pub by_model : Dict String Nlp
  pub loads : ℕ

abbrev pub is_cyrillic : ℕ → Bool
is_cyrillic c = leb 1024 c && leb c 1279

abbrev pub is_latin : ℕ → Bool
is_latin c = (leb 65 c && leb c 90) || (leb 97 c && leb c 122)

-- The loop of `_select_language` with its two counts.
unfoldable pub language_from : ℕ → ℕ → Text → String
language_from latin_count cyrillic_count [] = if ltb cyrillic_count latin_count then "en" else "ru"
language_from latin_count cyrillic_count (c ∷ cs) =
    language_from (if is_latin c then latin_count + 1 else latin_count)
      (if not (is_latin c) && is_cyrillic c then cyrillic_count + 1 else cyrillic_count) cs

unfoldable pub select_language : Text → String
unfolding language_from
select_language text = language_from 0 0 text

-- "ADJ" and "NOUN"
abbrev adj : Text
adj = 65 ∷ 68 ∷ 74 ∷ []

abbrev noun : Text
noun = 78 ∷ 79 ∷ 85 ∷ 78 ∷ []

-- `lang_groups`, from the `idx`-th text on.
unfoldable pub lang_groups : ℕ → List Text → Dict String (List ℕ) → Dict String (List ℕ)
unfolding select_language lookup insert
lang_groups idx [] groups = groups
lang_groups idx (text ∷ texts) groups =
    let language = select_language text in
    lang_groups (idx + 1) texts
      (insert language (or_else (lookup language groups) [] ++ idx ∷ []) groups)

-- `[texts[i] for i in indices]`; the indices are those of texts.
unfoldable pub texts_at : List Text → List ℕ → List Text
texts_at texts [] = []
texts_at texts (i ∷ indices) = or_else (get_elem? texts i) [] ∷ texts_at texts indices

-- `results[idx] = candidates`
unfoldable pub set_at : ℕ → List Candidate → List (List Candidate) → List (List Candidate)
set_at idx candidates [] = []
set_at zero candidates (r ∷ results) = candidates ∷ results
set_at (suc idx) candidates (r ∷ results) = r ∷ set_at idx candidates results

-- `[[] for _ in texts]`
abbrev pub blanks : List Text → List (List Candidate)
blanks [] = []
blanks (text ∷ texts) = [] ∷ blanks texts

module _ {Nlp : Type 0} (spacy : Spacy Nlp) where
  abbrev pub Loading : Type 0
  Loading = Option Nlp × SpacyNerAdapter Nlp

  -- `spacy.load(name)` with what it raises; a pipeline is kept by the name of its model.
  abbrev load_named : String → SpacyNerAdapter Nlp → Loading
  load_named name s = kept (spacy.load s.loads name)
    where
      kept : Option Nlp → Loading
      kept none = (none, record s { loads = s.loads + 1 })
      kept (some nlp) =
          (some nlp, record s { by_model = insert name nlp s.by_model; loads = s.loads + 1 })

  abbrev load_fallback : String → String → SpacyNerAdapter Nlp → Loading
  load_fallback preferred fallback s =
      if same fallback preferred then (none, s) else cached (lookup fallback s.by_model)
    where
      cached : Option Nlp → Loading
      cached (some nlp) = (some nlp, s)
      cached none = load_named fallback s

  abbrev or_fallback : String → String → Loading → Loading
  or_fallback preferred fallback (some nlp, s) = (some nlp, s)
  or_fallback preferred fallback (none, s) = load_fallback preferred fallback s

  -- `_load_model`; `none` is the OSError.
  unfoldable pub load_model : String → String → SpacyNerAdapter Nlp → Loading
  unfolding lookup insert
  load_model preferred fallback s = cached (lookup preferred s.by_model)
    where
      cached : Option Nlp → Loading
      cached (some nlp) = (some nlp, s)
      cached none = or_fallback preferred fallback (load_named preferred s)

  abbrev pub model_of : String → SpacyNerAdapter Nlp → Loading
  model_of language s =
      if same language "en"
      then load_model s.en_model_name s.model_name s
      else load_model s.model_name s.en_model_name s

  abbrev pub remember : String → Loading → Loading
  remember language (none, s) = (none, s)
  remember language (some nlp, s) =
      (some nlp, record s { pipelines = insert language nlp s.pipelines })

  -- `_ensure_nlp`
  unfoldable pub ensure_nlp : String → SpacyNerAdapter Nlp → Loading
  unfolding load_model lookup insert
  ensure_nlp language s = cached (lookup language s.pipelines)
    where
      cached : Option Nlp → Loading
      cached (some nlp) = (some nlp, s)
      cached none = remember language (model_of language s)

  -- `_adj_noun_bigrams`
  unfoldable pub adj_noun_bigrams : List Token → List Candidate
  adj_noun_bigrams [] = []
  adj_noun_bigrams (left ∷ []) = []
  adj_noun_bigrams (left ∷ right ∷ tokens) =
      let rest = adj_noun_bigrams (right ∷ tokens) in
      let bigram : Candidate = record {
        text = left.text ++ 32 ∷ right.text;
        lemma = spacy.lower left.lemma ++ 32 ∷ spacy.lower right.lemma;
        label = [];
      } in
      if same left.pos adj && same right.pos noun then bigram ∷ rest else rest

  abbrev of_entity : Entity → Candidate
  of_entity ent = record { text = ent.text; lemma = spacy.lower ent.lemma; label = ent.label }

  unfoldable pub candidates_of : Doc → List Candidate
  unfolding adj_noun_bigrams
  candidates_of doc = map of_entity doc.ents ++ adj_noun_bigrams doc.tokens

  abbrev pub run_loaded : Text → Loading → Option (List Candidate) × SpacyNerAdapter Nlp
  run_loaded text (none, after) = (none, after)
  run_loaded text (some nlp, after) = (some (candidates_of (spacy.run nlp text)), after)

  -- `extract`
  unfoldable pub extract :
      Text → SpacyNerAdapter Nlp → Option (List Candidate) × SpacyNerAdapter Nlp
  unfolding ensure_nlp select_language candidates_of
  extract text s = run_loaded text (ensure_nlp (select_language text) s)

  -- The loop over a group and its documents; `none` is the ValueError of two lengths.
  unfoldable pub put_docs :
      List ℕ → List Doc → List (List Candidate) → Option (List (List Candidate))
  unfolding set_at candidates_of
  put_docs (idx ∷ indices) (doc ∷ docs) results =
      put_docs indices docs (set_at idx (candidates_of doc) results)
  put_docs [] [] results = some results
  put_docs _ _ results = none

  -- The loop over the groups.
  unfoldable pub run_groups :
      List Text
      → Dict String (List ℕ)
      → List (List Candidate)
      → SpacyNerAdapter Nlp
      → Option (List (List Candidate)) × SpacyNerAdapter Nlp
  unfolding ensure_nlp texts_at put_docs
  run_groups texts [] results s = (some results, s)
  run_groups texts ((language, indices) ∷ groups) results s =
      let (nlp, after) = ensure_nlp language s in
      elim nlp [
        | none ↦ (none, after)
        | some nlp ↦ elim (put_docs indices (spacy.pipe nlp (texts_at texts indices)) results) [
          | none ↦ (none, after)
          | some filled ↦ run_groups texts groups filled after
        ]
      ]

  -- `extract_many`
  unfoldable pub extract_many :
      List Text → SpacyNerAdapter Nlp → Option (List (List Candidate)) × SpacyNerAdapter Nlp
  unfolding run_groups lang_groups
  extract_many texts s = run_groups texts (lang_groups 0 texts []) (blanks texts) s
