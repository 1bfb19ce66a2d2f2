-- ===== src/Db/Others.antt =====
-- The rows of other tasks after a result is saved (agents/store.py, db/repos.py).
use mas_research.Base.{
  Bool, true, not, ◌≡◌, ◌≢◌, refl, sym, ap, ◌∙◌, some, String, arith, string_key, same,
}
use mas_research.Base.Sorting.{sort_by}
use mas_research.Values.{Fields, Conversions}
use mas_research.Schemas.{
  Operation, f1_transcribe, f2_ocr, f3_summarize, f4_test, f5_terms, f6_recommend,
}
use mas_research.Db.Rows.{summary_row, quiz_row, term_rows, citation_rows}
use mas_research.Db.Tables.{Database, Driver, merge_row, accepts_summary, accepts_quiz}
use mas_research.Db.Repos.{
  one_or_none, get_summary_row, get_quiz_row, list_chunk_rows, list_term_rows, list_citation_rows,
  save_summary, save_quiz, save_terms, save_citations, delete_terms, delete_citations,
}
use mas_research.Db.Store.{save_result}
use mas_research.Db.Inserted.{select_apart}
use mas_research.Db.Again.{
  then_with-some, add_terms-appended, add_citations-appended, term_rows-own, citation_rows-own,
}
use mas_research.Db.Merged.{merge_row-IsKeyed, merge_row-others}
use mas_research.Db.Found.{
  summary_key, quiz_key, summary_key_injective, quiz_key_injective, IsNamed, SameRows,
}
use mas_research.Db.Spec.{HasOwnId}

module _ (before : String → String → Bool) (conv : Conversions) (driver : Driver) (task_id : String)
    (content : Fields) where
  module _ (u : String) (other : u ≢ task_id) where
    stranger : (t : String) → same t u ≡ true → not (same t task_id) ≡ true
    stranger t e = ground (arith, λ (p : t ≡ task_id) (q : t ≡ u). other (sym q ∙ p))

    terms-SameRows :
        (db out : Database)
        → save_terms conv driver task_id content db ≡ some out
        → SameRows before u out db
    unfolding save_terms delete_terms list_term_rows get_summary_row get_quiz_row list_chunk_rows
        list_citation_rows
    terms-SameRows db out e =
        rw
          (add_terms-appended driver (term_rows conv task_id content) (delete_terms task_id db) out
            e)
          (record {
            summary = refl;
            quiz = refl;
            chunks = refl;
            terms = ap (sort_by (λ a b. before a.id b.id)) (
                select_apart (λ r. same r.task_id u) (λ r. same r.task_id task_id) db.terms
                  (term_rows conv task_id content) (λ r. stranger r.task_id)
                  (term_rows-own conv driver task_id content));
            citations = refl;
          })

    citations-SameRows :
        (db out : Database)
        → save_citations conv driver task_id content db ≡ some out
        → SameRows before u out db
    unfolding save_citations delete_citations list_term_rows get_summary_row get_quiz_row
        list_chunk_rows list_citation_rows
    citations-SameRows db out e =
        rw
          (add_citations-appended driver (citation_rows conv task_id content)
            (delete_citations task_id db) out e)
          (record {
            summary = refl;
            quiz = refl;
            chunks = refl;
            terms = refl;
            citations = ap (sort_by (λ a b. before a.id b.id)) (
                select_apart (λ r. same r.task_id u) (λ r. same r.task_id task_id) db.citations
                  (citation_rows conv task_id content) (λ r. stranger r.task_id)
                  (citation_rows-own conv driver task_id content));
          })

    summary-SameRows :
        (db out : Database)
        → IsNamed db
        → (summary_row conv task_id content).id ≡ summary_key task_id
        → save_summary conv driver task_id content db ≡ some out
        → SameRows before u out db
    unfolding save_summary list_term_rows get_summary_row get_quiz_row list_chunk_rows
        list_citation_rows summary_row
    summary-SameRows db out n k e =
        let row = summary_row conv task_id content in
        let (rows, merged, s) =
          then_with-some (merge_row (λ r. r.id) (accepts_summary driver db) row db.summaries)
            (λ rows. record db { summaries = rows }) out e in
        rw (← s) (record {
          summary = ap one_or_none (
              merge_row-others (λ r. r.id) (λ r. r.task_id) summary_key summary_key_injective row k
                (accepts_summary driver db) u db.summaries rows other n.summaries merged);
          quiz = refl;
          chunks = refl;
          terms = refl;
          citations = refl;
        })

    quiz-SameRows :
        (db out : Database)
        → IsNamed db
        → (quiz_row conv task_id content).id ≡ quiz_key task_id
        → save_quiz conv driver task_id content db ≡ some out
        → SameRows before u out db
    unfolding save_quiz list_term_rows get_summary_row get_quiz_row list_chunk_rows
        list_citation_rows quiz_row
    quiz-SameRows db out n k e =
        let row = quiz_row conv task_id content in
        let (rows, merged, s) =
          then_with-some (merge_row (λ r. r.id) (accepts_quiz driver db) row db.quizzes)
            (λ rows. record db { quizzes = rows }) out e in
        rw (← s) (record {
          summary = refl;
          quiz = ap one_or_none (
              merge_row-others (λ r. r.id) (λ r. r.task_id) quiz_key quiz_key_injective row k
                (accepts_quiz driver db) u db.quizzes rows other n.quizzes merged);
          chunks = refl;
          terms = refl;
          citations = refl;
        })

  pub saved-SameRows :
      (operation : Operation) (u : String) (db out : Database)
      → u ≢ task_id
      → IsNamed db
      → HasOwnId before conv driver task_id content operation
      → save_result conv driver task_id operation content db ≡ some out
      → SameRows before u out db
  unfolding save_result
  saved-SameRows f1_transcribe u db out o n k e = absurd k
  saved-SameRows f2_ocr u db out o n k e = absurd k
  saved-SameRows f3_summarize u db out o n k e = summary-SameRows u o db out n k e
  saved-SameRows f4_test u db out o n k e = quiz-SameRows u o db out n k e
  saved-SameRows f5_terms u db out o n k e = terms-SameRows u o db out e
  saved-SameRows f6_recommend u db out o n k e = citations-SameRows u o db out e

  pub saved-IsNamed :
      (operation : Operation) (db out : Database)
      → IsNamed db
      → HasOwnId before conv driver task_id content operation
      → save_result conv driver task_id operation content db ≡ some out
      → IsNamed out
  unfolding save_result save_terms delete_terms save_citations delete_citations save_summary
      save_quiz summary_row quiz_row
  saved-IsNamed f1_transcribe db out n k e = absurd k
  saved-IsNamed f2_ocr db out n k e = absurd k
  saved-IsNamed f3_summarize db out n k e =
      let row = summary_row conv task_id content in
      let (rows, merged, s) =
        then_with-some (merge_row (λ r. r.id) (accepts_summary driver db) row db.summaries)
          (λ rows. record db { summaries = rows }) out e in
      rw (← s) (record {
        summaries =
            merge_row-IsKeyed (λ r. r.id) (λ r. r.task_id) summary_key summary_key_injective row k
              (accepts_summary driver db) db.summaries rows n.summaries merged;
        quizzes = n.quizzes;
      })
  saved-IsNamed f4_test db out n k e =
      let row = quiz_row conv task_id content in
      let (rows, merged, s) =
        then_with-some (merge_row (λ r. r.id) (accepts_quiz driver db) row db.quizzes)
          (λ rows. record db { quizzes = rows }) out e in
      rw (← s) (record {
        summaries = n.summaries;
        quizzes =
            merge_row-IsKeyed (λ r. r.id) (λ r. r.task_id) quiz_key quiz_key_injective row k
              (accepts_quiz driver db) db.quizzes rows n.quizzes merged;
      })
  saved-IsNamed f5_terms db out n k e =
      rw
        (add_terms-appended driver (term_rows conv task_id content) (delete_terms task_id db) out e)
        (record { summaries = n.summaries; quizzes = n.quizzes })
  saved-IsNamed f6_recommend db out n k e =
      rw
        (add_citations-appended driver (citation_rows conv task_id content)
          (delete_citations task_id db) out e)
        (record { summaries = n.summaries; quizzes = n.quizzes })
