-- ===== src/Summary/Reduce.antt =====
-- A summary is refused only if no block has one (agents/summarizer.py, `_summarize`).
use mas_research.Text.{Text}
use mas_research.Base.{
  not, ℕ, ◌≡◌, refl, is_some, List, [], ◌∷◌, length, leb, false, is_empty, Option-cases, inl, inr,
}
use mas_research.Summary.{
  RawSummary, Model, call_model, partials_of, reduce, split_blocks, summarize,
}

pub reduce-is_some :
    (model : Model) (partials : List RawSummary) (n : ℕ)
    → is_some (reduce model partials n).0 ≡ not (is_empty partials)
unfolding reduce
reduce-is_some model [] n = refl
reduce-is_some model (raw ∷ []) n = refl
reduce-is_some model (raw ∷ next ∷ rest) n =
    elim (Option-cases (call_model model (model.reduce_prompt (raw ∷ next ∷ rest)) n).0) [
      | inl e ↦ rw e refl
      | inr (r, e) ↦ rw e refl
    ]

-- A text of more than one block has a summary exactly if one of its blocks has one: a block that the
-- model declines is passed over, and a failed reduction falls back on the first partial summary.
pub summarize-is_some :
    (model : Model) (block_chars overlap n : ℕ) (text : Text)
    → leb (length text) block_chars ≡ false
    → is_some (summarize model block_chars overlap text n).0
      ≡ not (is_empty (partials_of model (split_blocks block_chars overlap text) n).0)
unfolding summarize
summarize-is_some model block_chars overlap n text long = rw long (
    reduce-is_some model (partials_of model (split_blocks block_chars overlap text) n).0
      (partials_of model (split_blocks block_chars overlap text) n).1)
