-- ===== src/Summary.antt =====
-- Splitting a text into blocks and reducing their summaries (agents/summarizer.py), and asking the
-- model again where its answer does not parse (agents/_llm_json.py). The model with the parser behind
-- it is a parameter: what the n-th call makes of a prompt. Texts are lists of code points.
pub mod Blocks
pub mod Reduce
pub mod Json
pub mod Wrapped
pub mod Flatten
pub mod Handling
use mas_research.Text.{Text}
use mas_research.Base.{
  ℕ, zero, suc, ◌+◌, ◌-◌, Bool, true, false, Option, none, some, List, [], ◌∷◌, ◌++◌, length, take,
  drop, is_empty, leb, ltb, if◌then◌else◌,
}

-- `_RawSummary`
pub record RawSummary : Type 0 where
  pub introduction : Text
  pub key_points : Text
  pub conclusions : Text

-- The parsed answer of a call, by the number of calls before it, and the texts of the prompts.
pub record Model : Type 0 where
  pub answer : ℕ → Text → Option RawSummary
  pub retry_hint : Text
  pub reduce_prompt : List RawSummary → Text

-- `_split`, over what is left of the text; each step takes away one character at least.
abbrev pub step_size : ℕ → ℕ → ℕ
step_size block_chars overlap = if leb 1 (block_chars - overlap) then block_chars - overlap else 1

unfoldable pub split_from : ℕ → ℕ → ℕ → Text → List Text
split_from zero block step text = []
split_from (suc fuel) block step [] = []
split_from (suc fuel) block step (c ∷ cs) =
    take block (c ∷ cs) ∷ split_from fuel block step (drop step (c ∷ cs))

unfoldable pub split_blocks : ℕ → ℕ → Text → List Text
unfolding split_from
split_blocks block_chars overlap text =
    split_from (length text) block_chars (step_size block_chars overlap) text

-- An action of the agent: the number of calls before it gives a result and the number after it.
abbrev pub Calls : Type 0 → Type 0
Calls A = ℕ → A × ℕ

-- The loop of `parse_with_retry`: `tries` calls at most, the later ones with the hint.
unfoldable pub parse_with_retry : Model → ℕ → Text → Text → Calls (Option RawSummary)
parse_with_retry model zero prompt user n = (none, n)
parse_with_retry model (suc tries) prompt user n =
    let again = parse_with_retry model tries (user ++ model.retry_hint) user (n + 1) in
    elim (model.answer n prompt) [ some raw ↦ (some raw, n + 1) | none ↦ again ]

-- `_call`: one try and `_MAX_PARSE_RETRIES`, 2, more.
unfoldable pub call_model : Model → Text → Calls (Option RawSummary)
unfolding parse_with_retry
call_model model user n = parse_with_retry model 3 user user n

abbrev pub collect_one : Option RawSummary → List RawSummary → List RawSummary
collect_one none partials = partials
collect_one (some raw) partials = raw ∷ partials

-- The summaries of the blocks that have one.
unfoldable pub partials_of : Model → List Text → Calls (List RawSummary)
unfolding call_model
partials_of model [] n = ([], n)
partials_of model (block ∷ blocks) n =
    let (partial, m) = call_model model block n in
    let (rest, k) = partials_of model blocks m in (collect_one partial rest, k)

abbrev or_first : Option RawSummary → RawSummary → Option RawSummary
or_first none first = some first
or_first (some raw) first = some raw

-- One summary of the partial ones; the first of them if the reduction fails.
unfoldable pub reduce : Model → List RawSummary → Calls (Option RawSummary)
unfolding call_model
reduce model [] n = (none, n)
reduce model (raw ∷ []) n = (some raw, n)
reduce model (raw ∷ next ∷ rest) n =
    let (reduced, m) = call_model model (model.reduce_prompt (raw ∷ next ∷ rest)) n in
    (or_first reduced raw, m)

-- `_summarize`
unfoldable pub summarize : Model → ℕ → ℕ → Text → Calls (Option RawSummary)
unfolding call_model split_blocks partials_of reduce
summarize model block_chars overlap text n =
    if leb (length text) block_chars
    then call_model model text n
    else let (partials, m) = partials_of model (split_blocks block_chars overlap text) n in
      reduce model partials m
