-- ===== src/Db/Recovery.antt =====
-- Rebuilding a task and its results from rows (agents/recovery.py, db/models.py). What the queries
-- return is given.
use Prim.Native.String.{◌++◌ as concat}
use mas_research.Base.{
  String, Option, none, some, or_else, List, [], ◌∷◌, ◌++◌, same, string_key, if◌then◌else◌,
}
use mas_research.Base.Dict.{Dict, lookup, insert}
use mas_research.Values.{Fields, end}
use mas_research.Schemas.{
  Operation, f1_transcribe, f2_ocr, f3_summarize, f4_test, f5_terms, f6_recommend, operation_of,
  operation_key, document_type_of, task_status_of, Document, Task,
}
use mas_research.Plan.{subtask_id_for}
use mas_research.Db.Rows.{
  TaskRow, DocumentRow, SummaryRow, TermRow, QuizRow, CitationRow, TextChunkRow,
}
use mas_research.Db.Contents.{
  content_from_summary_row, content_from_term_rows, content_from_quiz_row,
  content_from_citation_rows, content_from_chunk_rows,
}
use mas_research.Coordinator.Loop.{RecoveredTask}

-- `_SOURCE_TYPE_TO_OPERATION.get(source_type)`
unfoldable pub source_operation : String → Option Operation
source_operation source_type =
    if same source_type "audio"
    then some f1_transcribe
    else if same source_type "pdf_extracted"
    then some f2_ocr
    else if same source_type "image"
    then some f2_ocr
    else none

abbrev pub Buckets : Type 0
Buckets = Dict Operation (List TextChunkRow)

-- `buckets[operation]`
abbrev pub bucket : Operation → Buckets → List TextChunkRow
bucket operation buckets = or_else (lookup operation buckets) []

unfoldable pub bucket_from : List TextChunkRow → Buckets → Option Buckets
unfolding source_operation
bucket_from [] buckets = some buckets
bucket_from (row ∷ rows) buckets = elim (source_operation row.source_type) [
  | none ↦ none
  | some operation ↦
      bucket_from rows (insert operation (bucket operation buckets ++ row ∷ []) buckets)
]

-- `none` is the ValueError of an unknown source type.
unfoldable pub bucket_chunks_by_operation : List TextChunkRow → Option Buckets
unfolding bucket_from
bucket_chunks_by_operation rows = bucket_from rows []

-- `[Type(x) for x in xs]`, where one raise is enough.
unfoldable pub all_of_them : {A B : Type 0} → (A → Option B) → List A → Option (List B)
all_of_them f [] = some []
all_of_them f (x ∷ xs) = elim (f x) [
  | none ↦ none
  | some y ↦ elim (all_of_them f xs) [ none ↦ none | some ys ↦ some (y ∷ ys) ]
]

unfoldable pub document_from_row : DocumentRow → Option Document
unfolding document_type_of
document_from_row row = elim (document_type_of row.document_type) [
  | none ↦ none
  | some kind ↦ some (record {
    id = row.id;
    task_id = row.task_id;
    document_type = kind;
    file_path = row.file_path;
    original_name = row.original_name;
    metadata = end;
  })
]

-- `_task_from_row`; `none` is a ValueError.
unfoldable pub task_from_row : TaskRow → List DocumentRow → Option Task
unfolding all_of_them document_from_row operation_of task_status_of
task_from_row row documents = elim (task_status_of row.status) [
  | none ↦ none
  | some status ↦ elim (all_of_them operation_of row.requested_outputs) [
    | none ↦ none
    | some operations ↦ elim (all_of_them document_from_row documents) [
      | none ↦ none
      | some docs ↦ some (record {
        id = row.id;
        user_id = row.user_id;
        status = status;
        requested_outputs = operations;
        conversation_id = concat "conv-" row.id;
        documents = docs;
      })
    ]
  ]
]

-- What the five queries of `_load_results` return.
pub record ResultRows : Type 0 where
  pub chunks : List TextChunkRow
  pub summary : Option SummaryRow
  pub terms : List TermRow
  pub quiz : Option QuizRow
  pub citations : List CitationRow

abbrev pub Results : Type 0
Results = Dict String Fields

unfoldable pub chunk_results : String → Buckets → Results → Results
unfolding content_from_chunk_rows
chunk_results task_id [] results = results
chunk_results task_id ((operation, rows) ∷ rest) results =
    chunk_results task_id rest
      (insert (subtask_id_for task_id operation) (content_from_chunk_rows rows) results)

abbrev put : String → Operation → Option Fields → Results → Results
put task_id operation none results = results
put task_id operation (some content) results =
    insert (subtask_id_for task_id operation) content results

abbrev unless_empty : {R : Type 0} → (List R → Fields) → List R → Option Fields
unless_empty f [] = none
unless_empty f (r ∷ rows) = some (f (r ∷ rows))

abbrev mapped : {R : Type 0} → (R → Fields) → Option R → Option Fields
mapped f none = none
mapped f (some r) = some (f r)

unfoldable pub load_results : String → ResultRows → Option Results
unfolding bucket_chunks_by_operation chunk_results content_from_summary_row content_from_term_rows
    content_from_quiz_row content_from_citation_rows
load_results task_id rows = elim (bucket_chunks_by_operation rows.chunks) [
  | none ↦ none
  | some buckets ↦ some (
      put task_id f6_recommend (unless_empty content_from_citation_rows rows.citations) (
        put task_id f4_test (mapped content_from_quiz_row rows.quiz) (
          put task_id f5_terms (unless_empty content_from_term_rows rows.terms) (
            put task_id f3_summarize (mapped content_from_summary_row rows.summary)
              (chunk_results task_id buckets [])))))
]

-- One task of `load_in_flight`.
unfoldable pub recovered_task : TaskRow → List DocumentRow → ResultRows → Option RecoveredTask
unfolding task_from_row load_results
recovered_task row documents rows = elim (task_from_row row documents) [
  | none ↦ none
  | some task ↦ elim (load_results row.id rows) [
    | none ↦ none
    | some results ↦ some (record { task = task; results = results })
  ]
]
