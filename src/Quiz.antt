-- ===== src/Quiz.antt =====
-- The checks that the test generator makes of the questions it gets (agents/test_generator.py,
-- core/schemas.py). Texts are lists of code points. Python's `lower` is a parameter, as its table of
-- letters is not part of the code.
pub mod Dedup
pub mod Answers
pub mod Accepted
pub mod Filter
pub mod Handling
use mas_research.Text.{Text, strip}
use mas_research.Base.{
  String, ◌==◌, ℕ, zero, suc, ◌+◌, Bool, true, false, not, ◌&&◌, ◌||◌, Option, none, some, List, [],
  ◌∷◌, ◌++◌, map, all, any, select, length, is_empty, ltb, leb, if◌then◌else◌, text_key, nat_key,
}
use mas_research.Base.Int.{ℤ, pos, negsuc}
use mas_research.Base.Dict.{Dict, lookup, insert, contains}
use mas_research.Schemas.{QuizQuestion, QuestionType, single_choice, multi_choice, open_answer}

-- 0 <= index < len(choices)
abbrev pub in_range : List Text → ℤ → Bool
in_range choices (pos n) = ltb n (length choices)
in_range choices (negsuc n) = false

abbrev single_in_range : List Text → Option ℤ → Bool
single_in_range choices none = false
single_in_range choices (some i) = in_range choices i

abbrev some_in_range : List Text → Option (List ℤ) → Bool
some_in_range choices none = false
some_in_range choices (some indices) = not (is_empty indices) && all (in_range choices) indices

abbrev answers_in_range : QuizQuestion → QuestionType → Bool
answers_in_range q open_answer = true
answers_in_range q single_choice =
    leb 2 (length q.choices) && single_in_range q.choices q.answer_idx
answers_in_range q multi_choice =
    leb 2 (length q.choices) && some_in_range q.choices q.answer_indices

-- `QuizQuestion.is_well_formed`
unfoldable pub is_well_formed : QuizQuestion → Bool
unfolding strip
is_well_formed q = if is_empty (strip q.question) then false else answers_in_range q q.type

-- What the loop of `_dedup_choices` has made of the choices up to `old_index`.
pub record Deduped : Type 0 where
  pub choices : List Text
  pub remap : Dict ℕ ℕ
  pub seen : Dict Text ℕ

module _ (lower : Text → Text) where
  -- `choice.strip().lower()`
  abbrev pub normal : Text → Text
  normal choice = lower (strip choice)

  unfoldable pub dedup_step : ℕ → Text → Deduped → Deduped
  dedup_step old_index choice d = elim (lookup (normal choice) d.seen) [
    | some j ↦ record d { remap = insert old_index j d.remap }
    | none ↦ record {
      choices = d.choices ++ choice ∷ [];
      remap = insert old_index (length d.choices) d.remap;
      seen = insert (normal choice) (length d.choices) d.seen;
    }
  ]

  unfoldable pub dedup_from : ℕ → List Text → Deduped → Deduped
  unfolding dedup_step
  dedup_from old_index [] d = d
  dedup_from old_index (c ∷ cs) d = dedup_from (old_index + 1) cs (dedup_step old_index c d)

-- `sorted({...})`, one element at a time.
unfoldable pub insert_sorted : ℕ → List ℕ → List ℕ
insert_sorted n [] = n ∷ []
insert_sorted n (m ∷ ms) =
    let rest = insert_sorted n ms in
    if ltb n m then n ∷ m ∷ ms else if n == m then m ∷ ms else m ∷ rest

abbrev pub remapped : Dict ℕ ℕ → ℤ → Option ℕ
remapped remap (pos i) = lookup i remap
remapped remap (negsuc i) = none

unfoldable pub remap_indices : Dict ℕ ℕ → List ℤ → List ℕ
unfolding insert_sorted
remap_indices remap [] = []
remap_indices remap (i ∷ is) =
    let rest = remap_indices remap is in
    elim (remapped remap i) [ none ↦ rest | some j ↦ insert_sorted j rest ]

abbrev pub as_index : Option ℕ → Option ℤ
as_index none = none
as_index (some j) = some (pos j)

abbrev remap_answer : Dict ℕ ℕ → Option ℤ → Option ℤ
remap_answer remap none = none
remap_answer remap (some i) = as_index (remapped remap i)

abbrev remap_answers : Dict ℕ ℕ → Option (List ℤ) → Option (List ℤ)
remap_answers remap none = none
remap_answers remap (some is) = some (map pos (remap_indices remap is))

abbrev pub is_open : QuestionType → Bool
is_open open_answer = true
is_open _ = false

abbrev pub no_choices : Deduped
no_choices = record { choices = []; remap = []; seen = [] }

unfoldable pub dedup_choices : (Text → Text) → QuizQuestion → QuizQuestion
unfolding dedup_from remap_indices
dedup_choices lower q =
    if is_open q.type || is_empty q.choices
    then q
    else let d = dedup_from lower 0 q.choices no_choices in
      record q {
        choices = d.choices;
        answer_idx = remap_answer d.remap q.answer_idx;
        answer_indices = remap_answers d.remap q.answer_indices;
      }

-- `[a-zа-яё0-9]`
abbrev pub is_word : ℕ → Bool
is_word c =
    (leb 97 c && leb c 122) || (leb 1072 c && leb c 1103) || c == 1105 || (leb 48 c && leb c 57)

-- `re.findall` of runs of these, where `run` is the run that is open.
unfoldable pub words_from : Text → Text → List Text
words_from run [] = if is_empty run then [] else run ∷ []
words_from run (c ∷ cs) =
    let inside = words_from (run ++ c ∷ []) cs in
    let outside = words_from [] cs in
    if is_word c then inside else if is_empty run then outside else run ∷ outside

-- The words of at least `_MIN_CONTENT_LEN` letters.
unfoldable pub content_words : (Text → Text) → Text → List Text
unfolding words_from
content_words lower text = select (λ w. leb 4 (length w)) (words_from [] (lower text))

unfoldable pub references_summary : (Text → Text) → QuizQuestion → Text → Bool
unfolding content_words
references_summary lower q summary =
    if is_open q.type
    then any (λ w. contains w (content_words lower summary)) (content_words lower q.question)
    else true

-- What `handle` makes of the questions that the model has returned: the reason of a refuse, or the
-- questions that go out.
pub data Verdict : Type 0 where
  refused : String → Verdict
  informed : List QuizQuestion → Verdict

unfoldable pub judge_quiz : (Text → Text) → Text → List QuizQuestion → Verdict
unfolding dedup_choices is_well_formed references_summary
judge_quiz lower summary questions =
    let well_formed = select is_well_formed (map (dedup_choices lower) questions) in
    let grounded = select (λ q. references_summary lower q summary) well_formed in
    if is_empty questions
    then refused "llm returned invalid quiz json"
    else if is_empty well_formed
    then refused "llm returned no well-formed quiz questions"
    else if is_empty grounded
    then refused "llm returned no grounded quiz questions"
    else informed grounded

-- The model is asked only where there is a summary; `none` is its reply that is no quiz.
unfoldable pub judge : (Text → Text) → Text → Option (List QuizQuestion) → Verdict
unfolding judge_quiz
judge lower summary quiz =
    if is_empty summary then refused "no summary content for test generation" else elim quiz [
      | none ↦ refused "llm returned invalid quiz json"
      | some questions ↦ judge_quiz lower summary questions
    ]
