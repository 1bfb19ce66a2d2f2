-- ===== src/Ingestion/Persisted.antt =====
-- The rows that are stored for the chunks of a document (agents/_chunk_stamp.py, db/result_mapping.py).
use mas_research.Base.{ℕ, ◌+◌, String, ◌≡◌, refl, ap, some, List, [], ◌∷◌, string_dec}
use mas_research.Base.Int.{pos}
use mas_research.Schemas.{TextChunk}
use mas_research.Values.{Value, Fields, to_list, of_list, Conversions, get, text_of, int_of}
use mas_research.Db.Rows.{TextChunkRow, chunk_row, chunk_rows_from, chunk_rows}
use mas_research.Ingestion.{
  chunk_id, stamp_chunk, stamp_from, float_or_none, chunk_dump, dumps, chunks_content,
}

-- The row of a chunk at its place in the document.
pub rows_at : String → String → ℕ → List TextChunk → List TextChunkRow
rows_at task_id document_id index [] = []
rows_at task_id document_id index (chunk ∷ chunks) =
    record {
      id = chunk_id document_id index;
      task_id = task_id;
      document_id = document_id;
      source_type = chunk.source_type;
      content = chunk.content;
      chunk_index = pos index;
      confidence = float_or_none chunk.confidence;
      meta = some chunk.meta;
    }
    ∷ rows_at task_id document_id (index + 1) chunks

to_list-of_list : (vs : List Value) → to_list (of_list vs) ≡ vs
to_list-of_list [] = refl
to_list-of_list (v ∷ vs) = ap (◌∷◌ v) (to_list-of_list vs)

chunk_rows_from-stamp :
    (conv : Conversions) (task_id document_id : String) (index : ℕ) (chunks : List TextChunk)
    → chunk_rows_from conv task_id (dumps (stamp_from task_id document_id index chunks))
      ≡ some (rows_at task_id document_id index chunks)
unfolding chunk_rows_from chunk_row chunk_dump stamp_from stamp_chunk rows_at get text_of int_of
    string_dec
chunk_rows_from-stamp conv task_id document_id index [] = refl
chunk_rows_from-stamp conv task_id document_id index (chunk ∷ chunks) =
    rw (chunk_rows_from-stamp conv task_id document_id (index + 1) chunks) refl

-- The mapping of the content that the transcriber and the OCR agent inform of to rows never raises: it
-- gives a row for each chunk, in order, with the text of the chunk and the id and the index of its
-- place in the document. Whether a database then takes the rows is another matter.
pub chunk_rows-chunks_content :
    (conv : Conversions) (task_id document_id : String) (chunks : List TextChunk) (more : Fields)
    → chunk_rows conv task_id (chunks_content task_id document_id chunks more)
      ≡ some (rows_at task_id document_id 0 chunks)
unfolding chunk_rows chunks_content get string_dec
chunk_rows-chunks_content conv task_id document_id chunks more =
    rw (to_list-of_list (dumps (stamp_from task_id document_id 0 chunks)))
      (chunk_rows_from-stamp conv task_id document_id 0 chunks)
