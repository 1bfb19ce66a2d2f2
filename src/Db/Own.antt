-- ===== src/Db/Own.antt =====
-- The rows of a task after its result is saved (agents/store.py, db/repos.py).
use mas_research.Base.{Bool, ◌≡◌, ap, some, String, string_key, same}
use mas_research.Base.Sorting.{sort_by}
use mas_research.Values.{Fields, Conversions}
use mas_research.Schemas.{
  Operation, f1_transcribe, f2_ocr, f3_summarize, f4_test, f5_terms, f6_recommend,
}
use mas_research.Db.Rows.{summary_row, quiz_row, term_rows, citation_rows}
use mas_research.Db.Tables.{Database, Driver, merge_row, accepts_summary, accepts_quiz}
use mas_research.Db.Repos.{
  one_or_none, get_summary_row, get_quiz_row, list_chunk_rows, list_term_rows, list_citation_rows,
  save_summary, save_quiz, save_terms, save_citations, delete_terms, delete_citations,
}
use mas_research.Db.Recovery.{ResultRows}
use mas_research.Db.Store.{save_result}
use mas_research.Db.Inserted.{select_new}
use mas_research.Db.Again.{
  then_with-some, add_terms-appended, add_citations-appended, term_rows-own, citation_rows-own,
}
use mas_research.Db.Sound.{IsSound}
use mas_research.Db.Merged.{merge_row-own}
use mas_research.Db.Found.{
  summary_key, quiz_key, summary_key_injective, quiz_key_injective, IsNamed, Found,
}
use mas_research.Db.Spec.{with_content, HasOwnId}

module _ (before : String → String → Bool) (conv : Conversions) (driver : Driver) (task_id : String)
    (content : Fields) where
  terms-saved :
      (db out : Database) (r : ResultRows)
      → Found before task_id db r
      → save_terms conv driver task_id content db ≡ some out
      → Found before task_id out (with_content before conv driver task_id content f5_terms r)
  unfolding with_content save_terms delete_terms list_term_rows get_summary_row get_quiz_row
      list_chunk_rows list_citation_rows
  terms-saved db out r f e =
      rw
        (add_terms-appended driver (term_rows conv task_id content) (delete_terms task_id db) out e)
        (record {
          summary = f.summary;
          quiz = f.quiz;
          chunks = f.chunks;
          terms = ap (sort_by (λ a b. before a.id b.id)) (
              select_new (λ r. same r.task_id task_id) db.terms (term_rows conv task_id content)
                (term_rows-own conv driver task_id content));
          citations = f.citations;
        })

  citations-saved :
      (db out : Database) (r : ResultRows)
      → Found before task_id db r
      → save_citations conv driver task_id content db ≡ some out
      → Found before task_id out (with_content before conv driver task_id content f6_recommend r)
  unfolding with_content save_citations delete_citations list_term_rows get_summary_row get_quiz_row
      list_chunk_rows list_citation_rows
  citations-saved db out r f e =
      rw
        (add_citations-appended driver (citation_rows conv task_id content)
          (delete_citations task_id db) out e)
        (record {
          summary = f.summary;
          quiz = f.quiz;
          chunks = f.chunks;
          terms = f.terms;
          citations = ap (sort_by (λ a b. before a.id b.id)) (
              select_new (λ r. same r.task_id task_id) db.citations
                (citation_rows conv task_id content)
                (citation_rows-own conv driver task_id content));
        })

  summary-saved :
      (db out : Database) (r : ResultRows)
      → IsSound db
      → IsNamed db
      → (summary_row conv task_id content).id ≡ summary_key task_id
      → Found before task_id db r
      → save_summary conv driver task_id content db ≡ some out
      → Found before task_id out (with_content before conv driver task_id content f3_summarize r)
  unfolding with_content save_summary list_term_rows get_summary_row get_quiz_row list_chunk_rows
      list_citation_rows summary_row one_or_none
  summary-saved db out r h n k f e =
      let row = summary_row conv task_id content in
      let (rows, merged, s) =
        then_with-some (merge_row (λ r. r.id) (accepts_summary driver db) row db.summaries)
          (λ rows. record db { summaries = rows }) out e in
      rw (← s) (record {
        summary = ap one_or_none (
            merge_row-own (λ r. r.id) (λ r. r.task_id) summary_key summary_key_injective row k
              (accepts_summary driver db) db.summaries rows n.summaries h.summaries.keys merged);
        quiz = f.quiz;
        chunks = f.chunks;
        terms = f.terms;
        citations = f.citations;
      })

  quiz-saved :
      (db out : Database) (r : ResultRows)
      → IsSound db
      → IsNamed db
      → (quiz_row conv task_id content).id ≡ quiz_key task_id
      → Found before task_id db r
      → save_quiz conv driver task_id content db ≡ some out
      → Found before task_id out (with_content before conv driver task_id content f4_test r)
  unfolding with_content save_quiz list_term_rows get_summary_row get_quiz_row list_chunk_rows
      list_citation_rows quiz_row one_or_none
  quiz-saved db out r h n k f e =
      let row = quiz_row conv task_id content in
      let (rows, merged, s) =
        then_with-some (merge_row (λ r. r.id) (accepts_quiz driver db) row db.quizzes)
          (λ rows. record db { quizzes = rows }) out e in
      rw (← s) (record {
        summary = f.summary;
        quiz = ap one_or_none (
            merge_row-own (λ r. r.id) (λ r. r.task_id) quiz_key quiz_key_injective row k
              (accepts_quiz driver db) db.quizzes rows n.quizzes h.quizzes.keys merged);
        chunks = f.chunks;
        terms = f.terms;
        citations = f.citations;
      })

  pub saved-Found :
      (operation : Operation) (db out : Database) (r : ResultRows)
      → IsSound db
      → IsNamed db
      → HasOwnId before conv driver task_id content operation
      → Found before task_id db r
      → save_result conv driver task_id operation content db ≡ some out
      → Found before task_id out (with_content before conv driver task_id content operation r)
  unfolding save_result
  saved-Found f1_transcribe db out r h n k f e = absurd k
  saved-Found f2_ocr db out r h n k f e = absurd k
  saved-Found f3_summarize db out r h n k f e = summary-saved db out r h n k f e
  saved-Found f4_test db out r h n k f e = quiz-saved db out r h n k f e
  saved-Found f5_terms db out r h n k f e = terms-saved db out r f e
  saved-Found f6_recommend db out r h n k f e = citations-saved db out r f e
