-- ===== src/Ingestion.antt =====
-- The agents that read a document, and the identity that they give to its chunks
-- (agents/ocr.py, agents/transcriber.py, agents/_chunk_stamp.py). The adapters are parameters.
pub mod Persisted
use Prim.Native.String.{◌++◌ as concat}
use mas_research.Base.{
  ℕ, ◌+◌, String, Bool, true, false, not, ◌||◌, Option, none, some, or_else, List, [], ◌∷◌,
  string_key, same, if◌then◌else◌,
}
use mas_research.Base.Int.{ℤ, pos}
use mas_research.Base.Decimal.{show}
use mas_research.Schemas.{TextChunk}
use mas_research.Values.{
  Value, null, str, int, float, dict, list_of, Fields, end, field, get, as_str, Float,
}

-- What `handle` does: a refuse with its reason, an inform with its content, or an adapter's raise.
pub data Answer : Type 0 where
  refuses : String → Answer
  informs : Fields → Answer
  fails : Answer

-- What an adapter does with a file: chunks, or a raise.
pub data Extracted : Type 0 where
  extracted : List TextChunk → Extracted
  broken : Extracted

unfoldable pub chunk_id : String → ℕ → String
unfolding show
chunk_id document_id index = concat "chunk-" (concat document_id (concat "-" (show index)))

-- `stamp_chunk`
unfoldable pub stamp_chunk : String → String → ℕ → TextChunk → TextChunk
unfolding chunk_id
stamp_chunk task_id document_id index chunk = record chunk {
  id = chunk_id document_id index;
  task_id = task_id;
  document_id = document_id;
  chunk_index = pos index;
}

-- `[stamp_chunk(...) for index, chunk in enumerate(chunks)]`, from `index` on.
unfoldable pub stamp_from : String → String → ℕ → List TextChunk → List TextChunk
unfolding stamp_chunk
stamp_from task_id document_id index [] = []
stamp_from task_id document_id index (chunk ∷ chunks) =
    stamp_chunk task_id document_id index chunk ∷ stamp_from task_id document_id (index + 1) chunks

abbrev pub float_or_none : Option Float → Value
float_or_none none = null
float_or_none (some x) = float x

-- `chunk.model_dump()`
unfoldable pub chunk_dump : TextChunk → Value
chunk_dump chunk = dict (
    field "id" (str chunk.id) (
      field "task_id" (str chunk.task_id) (
        field "document_id" (str chunk.document_id) (
          field "source_type" (str chunk.source_type) (
            field "content" (str chunk.content) (
              field "chunk_index" (int chunk.chunk_index) (
                field "confidence" (float_or_none chunk.confidence)
                  (field "meta" (dict chunk.meta) end))))))))

abbrev pub dumps : List TextChunk → List Value
dumps [] = []
dumps (chunk ∷ chunks) = chunk_dump chunk ∷ dumps chunks

-- The content of an inform, with more fields behind the chunks.
unfoldable pub chunks_content : String → String → List TextChunk → Fields → Fields
unfolding stamp_from chunk_dump
chunks_content task_id document_id chunks more =
    field "chunks" (list_of (dumps (stamp_from task_id document_id 0 chunks))) more

unfoldable pub answer_chunks : String → String → Fields → Extracted → Answer
unfolding chunks_content
answer_chunks task_id document_id more broken = fails
answer_chunks task_id document_id more (extracted chunks) =
    informs (chunks_content task_id document_id chunks more)

-- `isinstance(document_id, str) and document_id`
abbrev document_id_of : Option Value → Option String
document_id_of (some (str s)) = if same s "" then none else some s
document_id_of _ = none

abbrev is_document_kind : Option String → Bool
is_document_kind none = false
is_document_kind (some kind) = same kind "pdf" || same kind "image"

-- `OcrAgent.handle`
unfoldable pub ocr_handle : (String → String → Extracted) → String → Fields → Answer
unfolding answer_chunks get
ocr_handle extract task_id content = elim (as_str (get content "file_path")) [
  | none ↦ refuses "missing or invalid file_path"
  | some file_path ↦ elim (document_id_of (get content "document_id")) [
    | none ↦ refuses "missing or invalid document_id"
    | some document_id ↦ elim (is_document_kind (as_str (get content "document_type"))) [
      | false ↦ refuses "document_type must be pdf or image"
      | true ↦
          answer_chunks task_id document_id end
            (extract file_path (or_else (as_str (get content "document_type")) ""))
    ]
  ]
]

-- `TranscriberAgent.handle`
unfoldable pub transcriber_handle : (String → String → Extracted) → String → Fields → Answer
unfolding answer_chunks get
transcriber_handle transcribe task_id content = elim (as_str (get content "file_path")) [
  | none ↦ refuses "missing or invalid file_path"
  | some file_path ↦ elim (document_id_of (get content "document_id")) [
    | none ↦ refuses "missing or invalid document_id"
    | some document_id ↦
        let language = or_else (as_str (get content "language")) "ru" in
        answer_chunks task_id document_id (field "language" (str language) end)
          (transcribe file_path language)
  ]
]
