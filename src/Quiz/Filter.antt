-- ===== src/Quiz/Filter.antt =====
-- Which questions the test generator lets through (agents/test_generator.py).
use mas_research.Base.{false, ◌≡◌, some, List, map, select, is_empty, Bool-cases, inl, inr}
use mathlib.Core.List.{Memᴰ}
use mas_research.Base.Members.{select-mem, mem-map}
use mas_research.Schemas.{QuizQuestion}
use mas_research.Text.{Text}
use mas_research.Text.Joined.{is_blank}
use mas_research.Quiz.Accepted.{
  Answerable, Grounded, is_well_formed-Answerable, references_summary-Grounded,
}
use mas_research.Quiz.{
  dedup_choices, is_well_formed, references_summary, Verdict, refused, informed, judge_quiz, judge,
}

-- A question that goes out: its stem is not blank, its answer is among its choices where it has any, it
-- shares a content word with the summary where it is open, and it is made from a question of the
-- model's by taking out repeated choices.
pub record IsAccepted (lower : Text → Text) (summary : Text) (raw : List QuizQuestion)
    (q : QuizQuestion) : Type 0 where
  pub stem : is_blank q.question ≡ false
  pub answerable : Answerable q q.type
  pub grounded : Grounded lower summary q q.type
  pub source : QuizQuestion
  pub given : Memᴰ source raw
  pub made : q ≡ dedup_choices lower source

module _ (lower : Text → Text) (summary : Text) (raw : List QuizQuestion) where
  abbrev well_formed_of : List QuizQuestion
  well_formed_of = select is_well_formed (map (dedup_choices lower) raw)

  grounded-IsAccepted :
      (q : QuizQuestion)
      → Memᴰ q (select (λ p. references_summary lower p summary) well_formed_of)
      → IsAccepted lower summary raw q
  grounded-IsAccepted q m =
      let (n, grounded) = select-mem (λ p. references_summary lower p summary) q well_formed_of m in
      let (k, formed) = select-mem is_well_formed q (map (dedup_choices lower) raw) n in
      let (source, given, made) = mem-map (dedup_choices lower) q raw k in
      let (stem, answerable) = is_well_formed-Answerable q formed in
      record {
        stem = stem;
        answerable = answerable;
        grounded = references_summary-Grounded lower summary q grounded;
        source = source;
        given = given;
        made = made;
      }

  -- What a verdict may be: a refuse, or some questions, at least one, that are all accepted.
  unfoldable pub Fair : Verdict → Type 0
  Fair (refused reason) = Unit
  Fair (informed questions) =
      (is_empty questions ≡ false)
      × ((q : QuizQuestion) → Memᴰ q questions → IsAccepted lower summary raw q)

  judge_quiz-Fair : Fair (judge_quiz lower summary raw)
  unfolding judge_quiz Fair
  judge_quiz-Fair = elim (Bool-cases (is_empty raw)) [
    | inl e ↦ rw e tt
    | inr e ↦ elim (Bool-cases (is_empty well_formed_of)) [
      | inl f ↦ rw (e, f) tt
      | inr f ↦
          elim (Bool-cases
            (is_empty (select (λ p. references_summary lower p summary) well_formed_of))) [
              | inl g ↦ rw (e, f, g) tt
              | inr g ↦ rw (e, f, g) (g, grounded-IsAccepted)
            ]
    ]
  ]

  -- The test generator informs only of questions that are well-formed and bound to the summary, each
  -- made from one of the model's, and of at least one.
  pub judge-Fair : Fair (judge lower summary (some raw))
  unfolding judge Fair
  judge-Fair = elim (Bool-cases (is_empty summary)) [
    | inl e ↦ rw e tt
    | inr e ↦ rw e judge_quiz-Fair
  ]
