-- ===== src/Summary/Handling.antt =====
-- The handler of the summarizer (agents/summarizer.py, `handle`).
use Prim.Native.String.{◌++◌ as concat}
use mas_research.Text.{Text}
use mas_research.Text.Contents.{field_texts, joined_lines, joined_lines-is_empty}
use mas_research.Text.Joined.{is_blank}
use mas_research.Values.{Value, Fields, Conversions, text_of, get, dicts_in}
use mas_research.Schemas.{SectionType, introduction, thesis, conclusion}
use mas_research.Summary.{
  RawSummary, Model, parse_with_retry, collect_one, call_model, partials_of, split_blocks,
  summarize,
}
use mas_research.Summary.Reduce.{reduce-is_some}
use mas_research.Base.{
  arith, ◌+◌, ◌++◌, sym, String, ℕ, ◌≡◌, refl, ◌∙◌, Bool, true, false, not, ◌&&◌, Option, none,
  some, is_some, List, [], ◌∷◌, all, is_empty, length, leb, if◌then◌else◌, Bool-cases, Option-cases,
  ◌||◌, inl, inr, string_key,
}

-- `Summary`, with its texts as code points.
pub record SummaryContent : Type 0 where
  pub summary_id : String
  pub sections : List (SectionType × Text)
  pub source_chunk_ids : List String

pub data SummaryAnswer : Type 0 where
  refuses : String → SummaryAnswer
  informs : SummaryContent → SummaryAnswer

abbrev summary_of : String → List String → RawSummary → SummaryContent
summary_of task_id chunk_ids raw = record {
  summary_id = concat "sum-" task_id;
  sections =
      (introduction, raw.introduction)
      ∷ (thesis, raw.key_points)
      ∷ (conclusion, raw.conclusions)
      ∷ [];
  source_chunk_ids = chunk_ids;
}

abbrev answer_of : String → List String → Option RawSummary → SummaryAnswer
answer_of task_id chunk_ids none = refuses "llm returned invalid summary json"
answer_of task_id chunk_ids (some raw) = informs (summary_of task_id chunk_ids raw)

abbrev pub is_informs : SummaryAnswer → Bool
is_informs (refuses reason) = false
is_informs (informs content) = true

is_informs-answer :
    (task_id : String) (chunk_ids : List String) (raw : Option RawSummary)
    → is_informs (answer_of task_id chunk_ids raw) ≡ is_some raw
is_informs-answer task_id chunk_ids none = refl
is_informs-answer task_id chunk_ids (some raw) = refl

module _ (model : Model) (block_chars overlap : ℕ) where
  -- The model's answer to the text is a summary, in its `n`-th call or in one of the two calls behind
  -- it, which have the hint too.
  abbrev pub tried : Text → ℕ → Bool
  tried text n =
      is_some (model.answer n text)
      || (is_some (model.answer (n + 1) (text ++ model.retry_hint))
          || is_some (model.answer (n + 1 + 1) (text ++ model.retry_hint)))

  -- The model gives a summary of one of the blocks at least, when it is asked for one after the other.
  unfoldable pub some_answered : List Text → ℕ → Bool
  some_answered [] n = false
  some_answered (block ∷ blocks) n =
      let rest = some_answered blocks (n + 1 + 1 + 1) in tried block n || rest

  -- A text is asked for three times where no call has a summary of it.
  Tried : Text → ℕ → Option RawSummary × ℕ → Type 0
  Tried text n (none, m) = (tried text n ≡ false) × (m ≡ n + 1 + 1 + 1)
  Tried text n (some raw, m) = tried text n ≡ true

  call_model-Tried : (text : Text) (n : ℕ) → Tried text n (call_model model text n)
  unfolding call_model parse_with_retry Tried
  call_model-Tried text n = elim (Option-cases (model.answer n text)) [
    | inr (raw, e) ↦ rw (e, Tried, parse_with_retry) (ground arith)
    | inl e ↦ elim (Option-cases (model.answer (n + 1) (text ++ model.retry_hint))) [
      | inr (raw, f) ↦ rw (e, f, Tried, parse_with_retry) (ground arith)
      | inl f ↦ elim (Option-cases (model.answer (n + 1 + 1) (text ++ model.retry_hint))) [
        | inr (raw, g) ↦ rw (e, f, g, Tried, parse_with_retry) (ground arith)
        | inl g ↦ rw (e, f, g, Tried, parse_with_retry) (ground arith, refl)
      ]
    ]
  ]

  is_some-tried :
      (text : Text) (n : ℕ) (x : Option RawSummary × ℕ)
      → Tried text n x
      → is_some x.0 ≡ tried text n
  unfolding Tried
  is_some-tried text n (none, m) (e, _) = sym e
  is_some-tried text n (some raw, m) e = sym e

  partials_of-some_answered :
      (blocks : List Text) (n : ℕ)
      → not (is_empty (partials_of model blocks n).0) ≡ some_answered blocks n
  unfolding partials_of some_answered Tried
  partials_of-some_answered [] n = refl
  partials_of-some_answered (block ∷ blocks) n =
      by_answer (call_model model block n) (call_model-Tried block n)
        (partials_of-some_answered blocks (n + 1 + 1 + 1))
    where
      by_answer :
          (x : Option RawSummary × ℕ)
          → Tried block n x
          → not (is_empty (partials_of model blocks (n + 1 + 1 + 1)).0)
            ≡ some_answered blocks (n + 1 + 1 + 1)
          → not (is_empty (collect_one x.0 (partials_of model blocks x.1).0))
            ≡ (tried block n || some_answered blocks (n + 1 + 1 + 1))
      by_answer (none, m) (e, q) ih = rw (e, q) ih
      by_answer (some raw, m) e ih = rw e refl

  -- The model gives a summary of the text, or of one of its blocks where it is longer than a block.
  unfoldable pub is_answered : Text → ℕ → Bool
  unfolding some_answered split_blocks
  is_answered text n =
      if leb (length text) block_chars
      then tried text n
      else some_answered (split_blocks block_chars overlap text) n

  summarize-is_answered :
      (text : Text) (n : ℕ)
      → is_some (summarize model block_chars overlap text n).0 ≡ is_answered text n
  unfolding summarize is_answered
  summarize-is_answered text n = elim (Bool-cases (leb (length text) block_chars)) [
    | inl short ↦
        rw short (is_some-tried text n (call_model model text n) (call_model-Tried text n))
    | inr long ↦ rw long (
        reduce-is_some model (partials_of model (split_blocks block_chars overlap text) n).0
          (partials_of model (split_blocks block_chars overlap text) n).1
        ∙ partials_of-some_answered (split_blocks block_chars overlap text) n)
  ]

module _ (conv : Conversions) (to_text : String → Text) where
  abbrev cons_id : Option Value → List String → List String
  cons_id none ids = ids
  cons_id (some id) ids = text_of conv id ∷ ids

  -- `[str(chunk["id"]) for chunk in chunks if "id" in chunk]`
  unfoldable pub chunk_ids_of : List Fields → List String
  unfolding text_of get
  chunk_ids_of [] = []
  chunk_ids_of (chunk ∷ chunks) = cons_id (get chunk "id") (chunk_ids_of chunks)

  -- `combined`
  abbrev pub combined : List Fields → Text
  combined chunks = joined_lines conv to_text "content" chunks

  module _ (model : Model) (block_chars overlap : ℕ) where
    -- `handle`, where `n` calls of the model were made before.
    unfoldable pub summarizer_handle : String → Fields → ℕ → SummaryAnswer
    unfolding joined_lines chunk_ids_of summarize
    summarizer_handle task_id content n =
        let chunks = dicts_in content "chunks" in
        if is_empty (combined chunks)
        then refuses "no chunk content to summarize"
        else answer_of task_id (chunk_ids_of chunks)
            (summarize model block_chars overlap (combined chunks) n).0

    -- The summarizer informs of a summary exactly if some chunk of the request has a text that is not
    -- blank and the model gives a summary of the joined texts, or of one of their blocks where they
    -- are longer than a block, in one of three calls for each text, the later two with the hint. It
    -- refuses otherwise.
    pub summarizer_handle-is_informs :
        (task_id : String) (content : Fields) (n : ℕ)
        → let chunks = dicts_in content "chunks" in
          is_informs (summarizer_handle task_id content n) ≡ (
            not (all is_blank (field_texts conv to_text "content" chunks))
            && is_answered model block_chars overlap (combined chunks) n)
    unfolding summarizer_handle
    summarizer_handle-is_informs task_id content n =
        let chunks = dicts_in content "chunks" in
        let blank = joined_lines-is_empty conv to_text "content" chunks in
        rw (← blank) (elim (Bool-cases (is_empty (combined chunks))) [
          | inl e ↦ rw e refl
          | inr e ↦ rw e (
              is_informs-answer task_id (chunk_ids_of chunks) _
              ∙ summarize-is_answered model block_chars overlap (combined chunks) n)
        ])
