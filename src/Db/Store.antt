-- ===== src/Db/Store.antt =====
-- The store and the recovery on top of the repositories (agents/store.py, agents/recovery.py). A call that
-- raises does not commit.
use mas_research.Base.{Bool, String, Option, none, some, List, [], ◌∷◌}
use mas_research.Values.{Fields, Conversions}
use mas_research.Schemas.{
  Operation, f1_transcribe, f2_ocr, f3_summarize, f4_test, f5_terms, f6_recommend, TaskStatus,
  planning, running,
}
use mas_research.Coordinator.Loop.{RecoveredTask}
use mas_research.Db.Rows.{TaskRow, SummaryRow, QuizRow, TermRow, CitationRow, TextChunkRow}
use mas_research.Db.Tables.{Database, Driver}
use mas_research.Db.Repos.{
  save_chunks, save_summary, save_terms, save_quiz, save_citations, find_by_status, list_for_task,
  get_summary_row, get_quiz_row, list_chunk_rows, list_term_rows, list_citation_rows,
}
use mas_research.Db.Recovery.{ResultRows, all_of_them, recovered_task}

-- `DbTaskStore.save_result`
unfoldable pub save_result :
    Conversions → Driver → String → Operation → Fields → Database → Option Database
unfolding save_chunks save_summary save_terms save_quiz save_citations
save_result conv driver task_id f1_transcribe content db =
    save_chunks conv driver task_id content db
save_result conv driver task_id f2_ocr content db = save_chunks conv driver task_id content db
save_result conv driver task_id f3_summarize content db =
    save_summary conv driver task_id content db
save_result conv driver task_id f4_test content db = save_quiz conv driver task_id content db
save_result conv driver task_id f5_terms content db = save_terms conv driver task_id content db
save_result conv driver task_id f6_recommend content db =
    save_citations conv driver task_id content db

-- `RECOVERABLE_STATUSES`
abbrev pub recoverable_statuses : List TaskStatus
recoverable_statuses = planning ∷ running ∷ []

abbrev pub both_rows :
    List TextChunkRow
    → List TermRow
    → List CitationRow
    → Option (Option SummaryRow)
    → Option (Option QuizRow)
    → Option ResultRows
both_rows chunks terms citations (some summary) (some quiz) = some (record {
  chunks = chunks;
  summary = summary;
  terms = terms;
  quiz = quiz;
  citations = citations;
})
both_rows chunks terms citations _ _ = none

module _ (before : String → String → Bool) where
  -- The five queries of `_load_results`.
  unfoldable pub result_rows : String → Database → Option ResultRows
  result_rows task_id db =
      both_rows (list_chunk_rows before task_id db) (list_term_rows before task_id db)
        (list_citation_rows before task_id db) (get_summary_row task_id db)
        (get_quiz_row task_id db)

  unfoldable pub load_task : Database → TaskRow → Option RecoveredTask
  unfolding result_rows list_chunk_rows list_term_rows list_citation_rows get_summary_row
      get_quiz_row recovered_task list_for_task
  load_task db row = elim (result_rows row.id db) [
    | none ↦ none
    | some rows ↦ recovered_task row (list_for_task row.id db) rows
  ]

  -- `DbTaskRecovery.load_in_flight`
  unfoldable pub load_in_flight : Database → Option (List RecoveredTask)
  unfolding load_task find_by_status all_of_them
  load_in_flight db = all_of_them (load_task db) (find_by_status recoverable_statuses db)
