-- ===== src/Quiz/Handling.antt =====
-- The handler of the test generator (agents/test_generator.py, `handle` and `_summary_to_text`). The
-- model with the parser behind it is a parameter: the quiz that it gives for a prompt's summary.
use mas_research.Text.{Text}
use mas_research.Text.Joined.{is_blank}
use mas_research.Text.Contents.{field_texts, joined_lines, joined_lines-is_empty}
use mas_research.Values.{sections_in, Fields, Conversions, get, as_dict}
use mas_research.Schemas.{QuizQuestion}
use mas_research.Quiz.{
  Verdict, judge, refused, informed, judge_quiz, is_well_formed, dedup_choices, references_summary,
}
use mas_research.Quiz.Filter.{Fair, judge-Fair}
use mas_research.Base.{
  refl, Bool, same, map, select, string_dec, ◌∙◌, false, String, ◌≡◌, Option, none, some, List, [],
  all, is_empty, string_key, Bool-cases, inl, inr,
}

-- The sections of the request's summary, and none where it has no summary.
abbrev pub sections_asked : Fields → List Fields
sections_asked content = sections_in (as_dict (get content "summary"))

-- The refuse for want of a summary.
abbrev pub lacks_summary : Verdict → Bool
lacks_summary (refused reason) = same reason "no summary content for test generation"
lacks_summary (informed questions) = false

module _ (conv : Conversions) (to_text : String → Text) where
  -- `_summary_to_text`
  abbrev pub summary_to_text : Fields → Text
  summary_to_text content = joined_lines conv to_text "text" (sections_asked content)

  module _ (lower : Text → Text) (quiz : Text → Option (List QuizQuestion)) where
    -- `handle`
    unfoldable pub test_generator_handle : Fields → Verdict
    unfolding joined_lines judge get
    test_generator_handle content =
        judge lower (summary_to_text content) (quiz (summary_to_text content))

    abbrev raw_questions : Option (List QuizQuestion) → List QuizQuestion
    raw_questions none = []
    raw_questions (some questions) = questions

    judge_quiz-lacks_summary :
        (summary : Text) (questions : List QuizQuestion)
        → lacks_summary (judge_quiz lower summary questions) ≡ false
    unfolding judge_quiz string_dec
    judge_quiz-lacks_summary summary questions =
        let well_formed = select is_well_formed (map (dedup_choices lower) questions) in
        elim (Bool-cases (is_empty questions)) [
          | inl e ↦ rw e refl
          | inr e ↦ elim (Bool-cases (is_empty well_formed)) [
            | inl f ↦ rw (e, f) refl
            | inr f ↦
                elim (Bool-cases
                  (is_empty (select (λ q. references_summary lower q summary) well_formed))) [
                    | inl g ↦ rw (e, f, g) refl
                    | inr g ↦ rw (e, f, g) refl
                  ]
          ]
        ]

    judge-lacks_summary :
        (summary : Text) (answer : Option (List QuizQuestion))
        → lacks_summary (judge lower summary answer) ≡ is_empty summary
    unfolding judge string_dec
    judge-lacks_summary summary none = elim (Bool-cases (is_empty summary)) [
      | inl e ↦ rw e refl
      | inr e ↦ rw e refl
    ]
    judge-lacks_summary summary (some questions) = elim (Bool-cases (is_empty summary)) [
      | inl e ↦ rw e refl
      | inr e ↦ rw e (judge_quiz-lacks_summary summary questions)
    ]

    judged :
        (summary : Text) (answer : Option (List QuizQuestion))
        → Fair lower summary (raw_questions answer) (judge lower summary answer)
    unfolding judge Fair
    judged summary none = elim (Bool-cases (is_empty summary)) [ inl e ↦ rw e tt | inr e ↦ rw e tt ]
    judged summary (some questions) = judge-Fair lower summary questions

    -- The test generator refuses with "no summary content for test generation" exactly if each
    -- section's text is blank, and it informs only of questions, at least one, each made from one of the
    -- model's by taking out repeated choices. Their stems are not blank; one with choices has two at
    -- least, and its answer, or its answers, one at least, are places of choices; an open one shares a
    -- content word with the summary.
    pub test_generator_handle-Fair :
        (content : Fields)
        → let summary = summary_to_text content in
          (lacks_summary (test_generator_handle content)
            ≡ all is_blank (field_texts conv to_text "text" (sections_asked content)))
          × Fair lower summary (raw_questions (quiz summary)) (test_generator_handle content)
    unfolding test_generator_handle
    test_generator_handle-Fair content = (
      judge-lacks_summary (summary_to_text content) (quiz (summary_to_text content))
          ∙ joined_lines-is_empty conv to_text "text" (sections_asked content),
      judged (summary_to_text content) (quiz (summary_to_text content)),
    )
