-- ===== src/Db/Found.antt =====
-- What the queries of recovery find for a task (agents/recovery.py, db/repos.py).
use Prim.Native.String.{◌++◌ as concat}
use text.Mathlib.TextLemmas.{append_cancel_left}
use mas_research.Base.{Bool, ◌≡◌, refl, Option, none, some, String, string_key}
use mas_research.Db.Rows.{SummaryRow, QuizRow}
use mas_research.Db.Tables.{Database}
use mas_research.Db.Repos.{
  get_summary_row, get_quiz_row, list_chunk_rows, list_term_rows, list_citation_rows,
}
use mas_research.Db.Recovery.{ResultRows}
use mas_research.Db.Store.{result_rows, both_rows}
use mas_research.Db.Merged.{IsKeyed}

abbrev pub summary_key : String → String
summary_key task_id = concat "sum-" task_id

abbrev pub quiz_key : String → String
quiz_key task_id = concat "quiz-" task_id

pub summary_key_injective : (s t : String) → summary_key s ≡ summary_key t → s ≡ t
summary_key_injective s t e = append_cancel_left "sum-" s t e

pub quiz_key_injective : (s t : String) → quiz_key s ≡ quiz_key t → s ≡ t
quiz_key_injective s t e = append_cancel_left "quiz-" s t e

-- The ids of summaries and quizzes are made of their tasks.
pub record IsNamed (db : Database) : Type 0 where
  pub summaries : IsKeyed (λ r. r.id) (λ r. r.task_id) summary_key db.summaries
  pub quizzes : IsKeyed (λ r. r.id) (λ r. r.task_id) quiz_key db.quizzes

module _ (before : String → String → Bool) where
  -- What the five queries find for a task.
  pub record Found (task_id : String) (db : Database) (r : ResultRows) : Type 0 where
    pub summary : get_summary_row task_id db ≡ some r.summary
    pub quiz : get_quiz_row task_id db ≡ some r.quiz
    pub chunks : list_chunk_rows before task_id db ≡ r.chunks
    pub terms : list_term_rows before task_id db ≡ r.terms
    pub citations : list_citation_rows before task_id db ≡ r.citations

  found :
      (task_id : String) (db : Database) (s : Option (Option SummaryRow))
      (q : Option (Option QuizRow)) (r : ResultRows)
      → get_summary_row task_id db ≡ s
      → get_quiz_row task_id db ≡ q
      → both_rows
          (list_chunk_rows before task_id db)
          (list_term_rows before task_id db)
          (list_citation_rows before task_id db)
          s
          q
        ≡ some r
      → Found task_id db r
  found task_id db none q r es eq e = absurd (cc e)
  found task_id db (some s) none r es eq e = absurd (cc e)
  found task_id db (some s) (some q) r es eq e =
      let rows : ResultRows = record {
        chunks = list_chunk_rows before task_id db;
        summary = s;
        terms = list_term_rows before task_id db;
        quiz = q;
        citations = list_citation_rows before task_id db;
      } in
      let p : rows ≡ r = cc e in
      rw (← p) (record { summary = es; quiz = eq; chunks = refl; terms = refl; citations = refl })

  pub result_rows-Found :
      (task_id : String) (db : Database) (r : ResultRows)
      → result_rows before task_id db ≡ some r
      → Found task_id db r
  unfolding result_rows
  result_rows-Found task_id db r e =
      found task_id db (get_summary_row task_id db) (get_quiz_row task_id db) r refl refl e

  pub Found-result_rows :
      (task_id : String) (db : Database) (r : ResultRows)
      → Found task_id db r
      → result_rows before task_id db ≡ some r
  unfolding result_rows
  Found-result_rows task_id db r f = rw (f.summary, f.quiz, f.chunks, f.terms, f.citations) refl

  -- Two databases in which the queries for a task find the same.
  pub record SameRows (task_id : String) (out db : Database) : Type 0 where
    pub summary : get_summary_row task_id out ≡ get_summary_row task_id db
    pub quiz : get_quiz_row task_id out ≡ get_quiz_row task_id db
    pub chunks : list_chunk_rows before task_id out ≡ list_chunk_rows before task_id db
    pub terms : list_term_rows before task_id out ≡ list_term_rows before task_id db
    pub citations : list_citation_rows before task_id out ≡ list_citation_rows before task_id db

  pub SameRows-result_rows :
      (task_id : String) (out db : Database)
      → SameRows task_id out db
      → result_rows before task_id out ≡ result_rows before task_id db
  unfolding result_rows
  SameRows-result_rows task_id out db s =
      rw (s.summary, s.quiz, s.chunks, s.terms, s.citations) refl
