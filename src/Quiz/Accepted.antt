-- ===== src/Quiz/Accepted.antt =====
-- What it takes for a question to go out (core/schemas.py, `is_well_formed`; agents/test_generator.py,
-- `_references_summary`).
use mas_research.Base.{
  ℕ, ◌≤◌, ◌<◌, Bool, true, false, ◌≡◌, refl, some, List, [], ◌∷◌, any, all, is_empty, length, arith,
  Bool-cases, Option-cases, inl, inr, text_key,
}
use mas_research.Base.Int.{ℤ, pos, negsuc}
use mas_research.Base.Dict.{contains}
use mas_research.Base.Members.{contains-mem}
use mathlib.Core.List.{Memᴰ}
use mas_research.Schemas.{QuizQuestion, QuestionType, single_choice, multi_choice, open_answer}
use mas_research.Text.{Text, strip}
use mas_research.Text.Joined.{is_blank, strip-is_empty}
use mas_research.Quiz.{
  in_range, answers_in_range, content_words, is_well_formed, references_summary,
}

-- The index is the place of a choice.
abbrev pub InRange : List Text → ℤ → Type 0
InRange choices j = (i : ℕ) × (j ≡ pos i) × (i < length choices)

-- A question with choices has two at least, and its answer, or its answers, one at least, are places of
-- choices.
abbrev pub Answerable : QuizQuestion → QuestionType → Type 0
Answerable q open_answer = Unit {0}
Answerable q single_choice =
    (2 ≤ length q.choices) × (j : ℤ) × (q.answer_idx ≡ some j) × InRange q.choices j
Answerable q multi_choice =
    (2 ≤ length q.choices)
    × (js : List ℤ) × (q.answer_indices ≡ some js)
    × (is_empty js ≡ false)
    × ((j : ℤ) → Memᴰ j js → InRange q.choices j)

-- An open question has a content word that the summary has too.
abbrev pub Grounded : (Text → Text) → Text → QuizQuestion → QuestionType → Type 0
Grounded lower summary q open_answer =
    (w : Text) × Memᴰ w (content_words lower q.question) × Memᴰ w (content_words lower summary)
Grounded lower summary q _ = Unit {0}

module _ {A : Type 0} (p : A → Bool) where
  any-mem : (xs : List A) → any p xs ≡ true → (x : A) × Memᴰ x xs × (p x ≡ true)
  any-mem [] e = absurd (cc e)
  any-mem (x ∷ xs) e = elim (Bool-cases (p x)) [
    | inl h ↦ (x, Memᴰ.head refl, h)
    | inr h ↦ let (y, m, k) = any-mem xs (ground arith) in (y, Memᴰ.tail m, k)
  ]

  all-mem : (xs : List A) → all p xs ≡ true → (x : A) → Memᴰ x xs → p x ≡ true
  all-mem [] e x m = elim m [ ]
  all-mem (y ∷ ys) e x (Memᴰ.head q) = rw q (ground arith)
  all-mem (y ∷ ys) e x (Memᴰ.tail m) = all-mem ys (ground arith) x m

in_range-InRange : (choices : List Text) (j : ℤ) → in_range choices j ≡ true → InRange choices j
in_range-InRange choices (pos n) e = (n, refl, ground arith)
in_range-InRange choices (negsuc n) e = absurd (cc e)

answers_in_range-Answerable :
    (q : QuizQuestion) (type : QuestionType) → answers_in_range q type ≡ true → Answerable q type
answers_in_range-Answerable q open_answer e = tt
answers_in_range-Answerable q single_choice e = elim (Option-cases q.answer_idx) [
  | inl f ↦ absurd (ground (arith, rw f at e))
  | inr (j, f) ↦
      let h = rw f at e in
      (ground (arith, h), j, f, in_range-InRange q.choices j (ground (arith, h)))
]
answers_in_range-Answerable q multi_choice e = elim (Option-cases q.answer_indices) [
  | inl f ↦ absurd (ground (arith, rw f at e))
  | inr (js, f) ↦
      let h = rw f at e in
      (
        ground (arith, h),
        js,
        f,
        ground (arith, h),
        λ j m.
            in_range-InRange q.choices j (all-mem (in_range q.choices) js (ground (arith, h)) j m),
      )
]

pub is_well_formed-Answerable :
    (q : QuizQuestion)
    → is_well_formed q ≡ true
    → (is_blank q.question ≡ false) × Answerable q q.type
unfolding is_well_formed
is_well_formed-Answerable q e = elim (Bool-cases (is_empty (strip q.question))) [
  | inl empty ↦ absurd (cc (rw empty at e))
  | inr full ↦ (
    ground (arith, full, strip-is_empty q.question),
    answers_in_range-Answerable q q.type (rw full at e),
  )
]

pub references_summary-Grounded :
    (lower : Text → Text) (summary : Text) (q : QuizQuestion)
    → references_summary lower q summary ≡ true
    → Grounded lower summary q q.type
unfolding references_summary
references_summary-Grounded lower summary q e = by_type q.type e
  where
    by_type :
        (type : QuestionType)
        → references_summary lower (record q { type = type }) summary ≡ true
        → Grounded lower summary q type
    by_type single_choice h = tt
    by_type multi_choice h = tt
    by_type open_answer h =
        let words = content_words lower summary in
        let (w, m, k) = any-mem (λ v. contains v words) (content_words lower q.question) h in
        (w, m, contains-mem w words k)
