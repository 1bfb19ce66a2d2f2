-- ===== src/Payloads.antt =====
-- The request contents that the Coordinator sends to the agents (agents/payloads.py).
use mas_research.Base.{
  String, Bool, ◌||◌, Option, none, some, or_else, List, [], ◌∷◌, ◌++◌, string_key, same,
  if◌then◌else◌,
}
use mas_research.Base.Int.{pos}
use mas_research.Schemas.{
  Operation, f1_transcribe, f2_ocr, f3_summarize, f4_test, f5_terms, f6_recommend, DocumentType,
  audio, image, pdf, document_type_key, document_type_value, Document, Task,
}
use mas_research.Plan.{Subtask, subtask_id_for}
use mas_research.Core.Status.{Results, result_of}
use mas_research.Values.{Value, int, str, dict, list_of, Fields, end, field, get, as_list}

abbrev summary_structure : List Value
summary_structure = str "introduction" ∷ str "thesis" ∷ str "conclusion" ∷ []

-- The first document whose type passes the test, as the loops of the builders look for it.
unfoldable pub first_document : (DocumentType → Bool) → List Document → Option Document
first_document p [] = none
first_document p (d ∷ ds) = if p d.document_type then some d else first_document p ds

unfoldable pub content_of : Results → String → Operation → Fields
content_of results task_id operation =
    or_else (result_of results (subtask_id_for task_id operation)) end

-- The chunks of one source, where its content holds a list of them.
unfoldable pub chunks_of : Results → String → Operation → List Value
unfolding content_of
chunks_of results task_id operation =
    or_else (as_list (get (content_of results task_id operation) "chunks")) []

unfoldable pub chunks : Results → String → List Value
unfolding chunks_of
chunks results task_id = chunks_of results task_id f1_transcribe ++ chunks_of results task_id f2_ocr

unfoldable pub build_transcriber : Task → Fields
unfolding first_document
build_transcriber task = elim (first_document (λ t. same t audio) task.documents) [
  | none ↦ end
  | some d ↦
      field "document_id" (str d.id)
        (field "file_path" (str d.file_path) (field "language" (str "ru") end))
]

unfoldable pub build_ocr : Task → Fields
unfolding first_document document_type_value
build_ocr task = elim (first_document (λ t. same t pdf || same t image) task.documents) [
  | none ↦ end
  | some d ↦ field "document_id" (str d.id) (
      field "file_path" (str d.file_path)
        (field "document_type" (str (document_type_value d.document_type)) end))
]

unfoldable pub build_summarizer : Task → Results → Fields
unfolding chunks
build_summarizer task results =
    field "chunks" (list_of (chunks results task.id)) (
      field "max_length_chars" (int (pos 4000)) (field "structure" (list_of summary_structure) end))

unfoldable pub build_terminology : Task → Results → Fields
unfolding chunks
build_terminology task results =
    field "chunks" (list_of (chunks results task.id)) (field "top_n" (int (pos 10)) end)

unfoldable pub build_test_generator : Task → Results → Fields
unfolding content_of
build_test_generator task results =
    field "summary" (dict (content_of results task.id f3_summarize))
      (field "num_questions" (int (pos 5)) (field "difficulty" (str "medium") end))

unfoldable pub build_recommender : Task → Results → Fields
unfolding content_of
build_recommender task results = field "summary" (dict (content_of results task.id f3_summarize)) (
    field "terms"
      (list_of (or_else (as_list (get (content_of results task.id f5_terms) "terms")) []))
      (field "n" (int (pos 3)) (field "filters" (dict end) end)))

-- `_BUILDERS` has every operation, so the lookup never misses.
unfoldable pub build_by_operation : Operation → Task → Results → Fields
unfolding build_transcriber build_ocr build_summarizer build_test_generator build_terminology
    build_recommender
build_by_operation f1_transcribe task results = build_transcriber task
build_by_operation f2_ocr task results = build_ocr task
build_by_operation f3_summarize task results = build_summarizer task results
build_by_operation f4_test task results = build_test_generator task results
build_by_operation f5_terms task results = build_terminology task results
build_by_operation f6_recommend task results = build_recommender task results

unfoldable pub build_payload : Subtask → Task → Results → Fields
unfolding build_by_operation
build_payload subtask task results = build_by_operation subtask.operation task results
