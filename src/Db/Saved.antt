-- ===== src/Db/Saved.antt =====
-- Saving a result keeps a database sound (agents/store.py, db/repos.py).
use mas_research.Base.{string_key, ◌≡◌, Option, none, some, List, String}
use mas_research.Values.{Fields, Conversions}
use mas_research.Schemas.{
  Operation, f1_transcribe, f2_ocr, f3_summarize, f4_test, f5_terms, f6_recommend,
}
use mas_research.Db.Rows.{TextChunkRow, summary_row, quiz_row, term_rows, citation_rows, chunk_rows}
use mas_research.Db.Tables.{Database, Driver, task_ids, merge_row, accepts_summary, accepts_quiz}
use mas_research.Base.Dict.{contains}
use mas_research.Db.Repos.{
  save_summary, save_quiz, delete_terms, save_terms, delete_citations, save_citations,
  clear_documents, save_chunk_rows, save_chunks, documents_of, if_rows,
}
use mas_research.Db.Store.{save_result}
use mas_research.Db.Again.{then_with-some}
use mas_research.Db.Sound.{SoundTable-merge, IsSound}
use mas_research.Db.Steps.{delete_terms-IsSound, delete_citations-IsSound, clear_documents-IsSound}
use mas_research.Db.Additions.{
  accepted_summary, accepted_quiz, add_terms-IsSound, add_citations-IsSound, add_chunks-IsSound,
}

module _ (conv : Conversions) (driver : Driver) (task_id : String) (content : Fields) where
  save_summary-IsSound :
      (db out : Database)
      → IsSound db
      → save_summary conv driver task_id content db ≡ some out
      → IsSound out
  unfolding save_summary
  save_summary-IsSound db out h e =
      let row = summary_row conv task_id content in
      let (rows, merged, s) =
        then_with-some (merge_row (λ r. r.id) (accepts_summary driver db) row db.summaries)
          (λ rows. record db { summaries = rows }) out e in
      rw (← s) (record {
        tasks = h.tasks;
        documents = h.documents;
        text_chunks = h.text_chunks;
        summaries =
            SoundTable-merge (λ r. r.id) (λ r. contains r.task_id (task_ids db))
              (accepts_summary driver db) row db.summaries rows (accepted_summary driver db)
              h.summaries merged;
        terms = h.terms;
        quizzes = h.quizzes;
        citations = h.citations;
      })

  save_quiz-IsSound :
      (db out : Database)
      → IsSound db
      → save_quiz conv driver task_id content db ≡ some out
      → IsSound out
  unfolding save_quiz
  save_quiz-IsSound db out h e =
      let row = quiz_row conv task_id content in
      let (rows, merged, s) =
        then_with-some (merge_row (λ r. r.id) (accepts_quiz driver db) row db.quizzes)
          (λ rows. record db { quizzes = rows }) out e in
      rw (← s) (record {
        tasks = h.tasks;
        documents = h.documents;
        text_chunks = h.text_chunks;
        summaries = h.summaries;
        terms = h.terms;
        quizzes =
            SoundTable-merge (λ r. r.id) (λ r. contains r.task_id (task_ids db))
              (accepts_quiz driver db) row db.quizzes rows (accepted_quiz driver db) h.quizzes
              merged;
        citations = h.citations;
      })

  save_chunks-IsSound :
      (rows : Option (List TextChunkRow)) (db out : Database)
      → IsSound db
      → if_rows driver rows db ≡ some out
      → IsSound out
  unfolding save_chunk_rows
  save_chunks-IsSound none db out h e = absurd (cc e)
  save_chunks-IsSound (some rows) db out h e =
      add_chunks-IsSound driver rows (clear_documents (documents_of rows) db) out
        (clear_documents-IsSound (documents_of rows) db h) e

  -- Saving the content of an operation, where it does not raise, leaves the keys of a sound database
  -- unique and its foreign keys good, those of the terms too whose chunk is deleted.
  pub save_result-IsSound :
      (operation : Operation) (db out : Database)
      → IsSound db
      → save_result conv driver task_id operation content db ≡ some out
      → IsSound out
  unfolding save_result save_chunks save_terms save_citations
  save_result-IsSound f1_transcribe db out h e =
      save_chunks-IsSound (chunk_rows conv task_id content) db out h e
  save_result-IsSound f2_ocr db out h e =
      save_chunks-IsSound (chunk_rows conv task_id content) db out h e
  save_result-IsSound f3_summarize db out h e = save_summary-IsSound db out h e
  save_result-IsSound f4_test db out h e = save_quiz-IsSound db out h e
  save_result-IsSound f5_terms db out h e =
      add_terms-IsSound driver (term_rows conv task_id content) (delete_terms task_id db) out
        (delete_terms-IsSound task_id db h) e
  save_result-IsSound f6_recommend db out h e =
      add_citations-IsSound driver (citation_rows conv task_id content)
        (delete_citations task_id db) out (delete_citations-IsSound task_id db h) e
