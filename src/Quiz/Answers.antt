-- ===== src/Quiz/Answers.antt =====
-- The answer of a question from which repeated choices are taken out (agents/test_generator.py).
use mas_research.Base.{refl, ap, ◌∙◌, ℕ, false, ◌≡◌, some, is_empty, nat_key}
use mas_research.Base.Int.{pos}
use mas_research.Schemas.{QuizQuestion}
use mas_research.Text.{Text}
use mas_research.Quiz.{is_open, dedup_choices}
use mas_research.Quiz.Dedup.{normal_at, all-Linked}

module _ (lower : Text → Text) (q : QuizQuestion) (closed : is_open q.type ≡ false)
    (some_choices : is_empty q.choices ≡ false) where
  -- No two choices of the result compare the same, where the question has choices.
  pub dedup_choices_unique :
      (i j : ℕ) (k : Text)
      → normal_at lower (dedup_choices lower q).choices i ≡ some k
      → normal_at lower (dedup_choices lower q).choices j ≡ some k
      → i ≡ j
  unfolding dedup_choices
  dedup_choices_unique i j k e f =
      let w = all-Linked lower q.choices in
      let a = w.unique k i (rw (closed, some_choices, dedup_choices) at e) in
      let b = w.unique k j (rw (closed, some_choices, dedup_choices) at f) in cc (a, b)

  -- Where the answer of a question with choices is the place of a choice, the question still has an
  -- answer afterwards, and the choice at its place compares the same.
  pub dedup_choices-answer :
      (i : ℕ) (k : Text)
      → q.answer_idx ≡ some (pos i)
      → normal_at lower q.choices i ≡ some k
      → (j : ℕ) × ((dedup_choices lower q).answer_idx ≡ some (pos j))
        × (normal_at lower (dedup_choices lower q).choices j ≡ some k)
  unfolding dedup_choices
  dedup_choices-answer i k e f =
      let w = all-Linked lower q.choices in
      let (j, place) = w.total i k f in
      let (k', before, after) = w.moved i j place in
      let same_choice : k' ≡ k = cc (before, f) in
      rw (closed, some_choices, dedup_choices, e) (j, rw place refl, after ∙ ap some same_choice)
