-- ===== src/Tests/Db.antt =====
-- The theorems on rows at concrete inputs (db/result_mapping.py, agents/recovery.py).
use mas_research.Base.{
  all, true, String, ◌≡◌, refl, some, none, List, [], ◌∷◌, select, string_key, string_dec,
}
use mas_research.Base.Int.{pos}
use mas_research.Values.{null, Conversions}
use mas_research.Schemas.{Operation, operation_key}
use mas_research.Db.Rows.{TextChunkRow}
use mas_research.Db.Recovery.{Buckets, bucket, bucket_chunks_by_operation}
use mas_research.Db.Buckets.{is_known, belongs, bucket_chunks_by_operation-select}

abbrev conv : Conversions
conv = record { print = λ v. "value"; parse = λ v. none }

abbrev chunk : String → TextChunkRow
chunk source_type = record {
  id = "chunk-d1-0";
  task_id = "t1";
  document_id = "d1";
  source_type = source_type;
  content = "words";
  chunk_index = pos 0;
  confidence = null;
  meta = none;
}

abbrev chunks : List TextChunkRow
chunks = chunk "audio" ∷ chunk "image" ∷ []

known_chunks : all (λ row. is_known row.source_type) chunks ≡ true
unfolding string_dec
known_chunks = refl

bucket_chunks_by_operation-select_example :
    (b : Buckets) × (bucket_chunks_by_operation chunks ≡ some b)
    × ((o : Operation) → bucket o b ≡ select (λ row. belongs o row.source_type) chunks)
bucket_chunks_by_operation-select_example = bucket_chunks_by_operation-select chunks known_chunks
