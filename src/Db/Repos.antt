-- ===== src/Db/Repos.antt =====
-- The repositories (db/repos.py) as functions on the tables. `none` is a raise, after which the session
-- is not committed and the tables are as before. The order of text keys is the database's collation.
use mas_research.Base.{
  not, String, Bool, Option, none, some, List, [], ◌∷◌, map, select, is_empty, string_key, same,
  if◌then◌else◌,
}
use mas_research.Base.Dict.{contains, add}
use mas_research.Base.Sorting.{sort_by}
use mas_research.Values.{Value, null, str, Fields, Conversions}
use mas_research.Schemas.{
  Operation, operation_value, DocumentType, document_type_value, TaskStatus, planning,
  task_status_value,
}
use mas_research.Db.Rows.{
  TaskRow, DocumentRow, TextChunkRow, SummaryRow, TermRow, QuizRow, CitationRow, summary_row,
  term_rows, quiz_row, citation_rows, chunk_rows,
}
use mas_research.Db.Tables.{
  Database, Driver, ids, insert_rows, merge_row, accepts_document, accepts_chunk, accepts_summary,
  accepts_term, accepts_quiz, accepts_citation,
}

abbrev pub then_with : {A B : Type 0} → Option A → (A → B) → Option B
then_with none f = none
then_with (some a) f = some (f a)

-- `TaskRepo.create`
unfoldable pub create_task_row : Driver → String → List Operation → Database → Option Database
unfolding insert_rows operation_value task_status_value
create_task_row driver task_id requested_outputs db =
    let row : TaskRow = record {
      id = task_id;
      user_id = "demo-user";
      status = task_status_value planning;
      requested_outputs = map operation_value requested_outputs;
      final_artifact = none;
      stats = none;
    } in
    then_with (insert_rows (λ t. t.id) driver.takes_task (row ∷ []) db.tasks)
      (λ rows. record db { tasks = rows })

-- `TaskRepo.get`, by the primary key
unfoldable pub get_task : String → List TaskRow → Option TaskRow
get_task task_id [] = none
get_task task_id (t ∷ rows) = if same t.id task_id then some t else get_task task_id rows

-- An attribute of a loaded row is set and flushed; a missing row is a KeyError.
unfoldable pub update_task : Driver → String → (TaskRow → TaskRow) → Database → Option Database
unfolding get_task
update_task driver task_id change db = elim (get_task task_id db.tasks) [
  | none ↦ none
  | some row ↦
      if driver.takes_task (change row)
      then some
          (record db { tasks = map (λ t. if same t.id task_id then change t else t) db.tasks })
      else none
]

-- `TaskRepo.update_status` and `TaskRepo.save_artifact`
unfoldable pub update_status : Driver → String → TaskStatus → Database → Option Database
unfolding update_task task_status_value
update_status driver task_id status =
    update_task driver task_id (λ row. record row { status = task_status_value status })

unfoldable pub save_artifact : Driver → String → Fields → Fields → Database → Option Database
unfolding update_task
save_artifact driver task_id final_artifact stats =
    update_task driver task_id
      (λ row. record row { final_artifact = some final_artifact; stats = some stats })

-- `TaskRepo.find_by_status`, in the order of the table
unfoldable pub find_by_status : List TaskStatus → Database → List TaskRow
unfolding task_status_value
find_by_status statuses db =
    select (λ t. contains t.status (map task_status_value statuses)) db.tasks

-- `DocumentRepo.create`
unfoldable pub create_document_row :
    Driver → String → String → DocumentType → String → Option String → Database → Option Database
unfolding insert_rows accepts_document document_type_value
create_document_row driver document_id task_id document_type file_path original_name db =
    let row : DocumentRow = record {
      id = document_id;
      task_id = task_id;
      document_type = document_type_value document_type;
      file_path = file_path;
      original_name = original_name;
    } in
    then_with (insert_rows (λ d. d.id) (accepts_document driver db) (row ∷ []) db.documents)
      (λ rows. record db { documents = rows })

unfoldable pub list_for_task : String → Database → List DocumentRow
list_for_task task_id db = select (λ d. same d.task_id task_id) db.documents

-- `ResultRepo.save_summary`, `save_quiz`
unfoldable pub save_summary : Conversions → Driver → String → Fields → Database → Option Database
unfolding merge_row accepts_summary summary_row
save_summary conv driver task_id content db =
    then_with
      (merge_row (λ r. r.id) (accepts_summary driver db) (summary_row conv task_id content)
        db.summaries)
      (λ rows. record db { summaries = rows })

unfoldable pub save_quiz : Conversions → Driver → String → Fields → Database → Option Database
unfolding merge_row accepts_quiz quiz_row
save_quiz conv driver task_id content db =
    then_with
      (merge_row (λ r. r.id) (accepts_quiz driver db) (quiz_row conv task_id content) db.quizzes)
      (λ rows. record db { quizzes = rows })

-- ON DELETE SET NULL of the column `text_chunk_id`.
unfoldable pub nulled : List String → Value → Value
nulled gone (str s) = if contains s gone then null else str s
nulled gone v = v

unfoldable pub set_null : List String → TermRow → TermRow
unfolding nulled
set_null gone r = record r { text_chunk_id = nulled gone r.text_chunk_id }

-- `delete(TextChunkRow).where(TextChunkRow.document_id.in_(document_ids))`
unfoldable pub delete_chunks : List String → Database → Database
unfolding set_null
delete_chunks document_ids db =
    let gone = ids (λ c. c.id) (select (λ c. contains c.document_id document_ids) db.text_chunks) in
    record db {
      text_chunks = select (λ c. not (contains c.document_id document_ids)) db.text_chunks;
      terms = map (set_null gone) db.terms;
    }

-- `{row.document_id for row in rows}`
unfoldable pub documents_of : List TextChunkRow → List String
documents_of [] = []
documents_of (row ∷ rows) = add row.document_id (documents_of rows)

-- `session.add` of each row, and the flush.
unfoldable pub add_chunks : Driver → List TextChunkRow → Database → Option Database
unfolding insert_rows accepts_chunk
add_chunks driver rows db =
    then_with (insert_rows (λ c. c.id) (accepts_chunk driver db) rows db.text_chunks)
      (λ chunks. record db { text_chunks = chunks })

-- `if document_ids: ...delete...`
unfoldable pub clear_documents : List String → Database → Database
unfolding delete_chunks
clear_documents document_ids db =
    if is_empty document_ids then db else delete_chunks document_ids db

unfoldable pub save_chunk_rows : Driver → List TextChunkRow → Database → Option Database
unfolding clear_documents documents_of add_chunks
save_chunk_rows driver rows db = add_chunks driver rows (clear_documents (documents_of rows) db)

abbrev pub if_rows : Driver → Option (List TextChunkRow) → Database → Option Database
unfolding save_chunk_rows
if_rows driver none db = none
if_rows driver (some rows) db = save_chunk_rows driver rows db

-- `ResultRepo.save_chunks`, with the raise of `chunk_rows`
unfoldable pub save_chunks : Conversions → Driver → String → Fields → Database → Option Database
unfolding chunk_rows
save_chunks conv driver task_id content db = if_rows driver (chunk_rows conv task_id content) db

-- `ResultRepo.save_terms`, `save_citations`
unfoldable pub delete_terms : String → Database → Database
delete_terms task_id db = record db { terms = select (λ r. not (same r.task_id task_id)) db.terms }

unfoldable pub add_terms : Driver → List TermRow → Database → Option Database
unfolding insert_rows accepts_term
add_terms driver rows db =
    then_with (insert_rows (λ r. r.id) (accepts_term driver db) rows db.terms)
      (λ terms. record db { terms = terms })

unfoldable pub save_terms : Conversions → Driver → String → Fields → Database → Option Database
unfolding add_terms delete_terms term_rows
save_terms conv driver task_id content db =
    add_terms driver (term_rows conv task_id content) (delete_terms task_id db)

unfoldable pub delete_citations : String → Database → Database
delete_citations task_id db = record db {
  citations = select (λ r. not (same r.task_id task_id)) db.citations;
}

unfoldable pub add_citations : Driver → List CitationRow → Database → Option Database
unfolding insert_rows accepts_citation
add_citations driver rows db =
    then_with (insert_rows (λ r. r.id) (accepts_citation driver db) rows db.citations)
      (λ citations. record db { citations = citations })

unfoldable pub save_citations : Conversions → Driver → String → Fields → Database → Option Database
unfolding add_citations delete_citations citation_rows
save_citations conv driver task_id content db =
    add_citations driver (citation_rows conv task_id content) (delete_citations task_id db)

-- `scalar_one_or_none`: more than one row is a raise.
unfoldable pub one_or_none : {R : Type 0} → List R → Option (Option R)
one_or_none [] = some none
one_or_none (r ∷ []) = some (some r)
one_or_none (r ∷ q ∷ rows) = none

unfoldable pub get_summary_row : String → Database → Option (Option SummaryRow)
unfolding one_or_none
get_summary_row task_id db = one_or_none (select (λ r. same r.task_id task_id) db.summaries)

unfoldable pub get_quiz_row : String → Database → Option (Option QuizRow)
unfolding one_or_none
get_quiz_row task_id db = one_or_none (select (λ r. same r.task_id task_id) db.quizzes)

-- The queries with `order_by(id)`.
module _ (before : String → String → Bool) where
  unfoldable pub list_chunk_rows : String → Database → List TextChunkRow
  unfolding sort_by
  list_chunk_rows task_id db =
      sort_by (λ a b. before a.id b.id) (select (λ r. same r.task_id task_id) db.text_chunks)

  unfoldable pub list_term_rows : String → Database → List TermRow
  unfolding sort_by
  list_term_rows task_id db =
      sort_by (λ a b. before a.id b.id) (select (λ r. same r.task_id task_id) db.terms)

  unfoldable pub list_citation_rows : String → Database → List CitationRow
  unfolding sort_by
  list_citation_rows task_id db =
      sort_by (λ a b. before a.id b.id) (select (λ r. same r.task_id task_id) db.citations)
