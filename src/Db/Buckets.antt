-- ===== src/Db/Buckets.antt =====
-- Chunks go back to the operation that has made them, and none gets lost (agents/recovery.py).
use mas_research.Base.{
  ◌≢◌, ◌≢◌, ◌||◌, all, is_some, String, string_dec, Bool, true, false, ◌≡◌, ◌∙◌, refl, sym, ap,
  Option, none, some, List, [], ◌∷◌, ◌++◌, select, same, string_key, if◌then◌else◌, arith,
  Option-cases, inl, inr,
}
use mas_research.Base.Dict.{lookup, insert, lookup-insert}
use mas_research.Schemas.{
  f3_summarize, f4_test, f5_terms, f6_recommend, f1_transcribe, f2_ocr, Operation, operation_key,
  Operation-discrete,
}
use mas_research.Db.Rows.{TextChunkRow}
use mas_research.Db.Recovery.{
  source_operation, Buckets, bucket, bucket_from, bucket_chunks_by_operation,
}

-- The source types of the operation's chunks: sound for F1, pages and images for F2.
abbrev pub belongs : Operation → String → Bool
belongs f1_transcribe source_type = same source_type "audio"
belongs f2_ocr source_type = same source_type "pdf_extracted" || same source_type "image"
belongs _ source_type = false

-- One of the three source types that the agents give to a chunk.
abbrev pub is_known : String → Bool
is_known source_type =
    same source_type "audio" || (same source_type "pdf_extracted" || same source_type "image")

belongs-audio : (o : Operation) → belongs o "audio" ≡ same o f1_transcribe
unfolding Operation-discrete string_dec
belongs-audio f1_transcribe = refl
belongs-audio f2_ocr = refl
belongs-audio f3_summarize = refl
belongs-audio f4_test = refl
belongs-audio f5_terms = refl
belongs-audio f6_recommend = refl

belongs-page : (o : Operation) → belongs o "pdf_extracted" ≡ same o f2_ocr
unfolding Operation-discrete string_dec
belongs-page f1_transcribe = refl
belongs-page f2_ocr = refl
belongs-page f3_summarize = refl
belongs-page f4_test = refl
belongs-page f5_terms = refl
belongs-page f6_recommend = refl

belongs-image : (o : Operation) → belongs o "image" ≡ same o f2_ocr
unfolding Operation-discrete string_dec
belongs-image f1_transcribe = refl
belongs-image f2_ocr = refl
belongs-image f3_summarize = refl
belongs-image f4_test = refl
belongs-image f5_terms = refl
belongs-image f6_recommend = refl

source_operation-audio : source_operation "audio" ≡ some f1_transcribe
unfolding source_operation string_dec
source_operation-audio = refl

source_operation-page : source_operation "pdf_extracted" ≡ some f2_ocr
unfolding source_operation string_dec
source_operation-page = refl

source_operation-image : source_operation "image" ≡ some f2_ocr
unfolding source_operation string_dec
source_operation-image = refl

source_operation-is_none :
    (source_type : String)
    → source_type ≢ "audio"
    → source_type ≢ "pdf_extracted"
    → source_type ≢ "image"
    → source_operation source_type ≡ none
unfolding source_operation
source_operation-is_none source_type n m k = ground arith

source_operation-belongs :
    (o p : Operation) (source_type : String)
    → source_operation source_type ≡ some p
    → belongs o source_type ≡ same o p
source_operation-belongs o p source_type e = elim (string_dec source_type "audio") [
  | yes t ↦
      let q : f1_transcribe ≡ p = cc (e, t, source_operation-audio) in rw (t, ← q) (belongs-audio o)
  | no n ↦ elim (string_dec source_type "pdf_extracted") [
    | yes t ↦ let q : f2_ocr ≡ p = cc (e, t, source_operation-page) in rw (t, ← q) (belongs-page o)
    | no m ↦ elim (string_dec source_type "image") [
      | yes t ↦
          let q : f2_ocr ≡ p = cc (e, t, source_operation-image) in rw (t, ← q) (belongs-image o)
      | no k ↦ absurd (cc (e, source_operation-is_none source_type n m k))
    ]
  ]
]

source_operation-is_some :
    (source_type : String)
    → is_known source_type ≡ true
    → is_some (source_operation source_type) ≡ true
unfolding source_operation
source_operation-is_some source_type h = ground arith

append_assoc : (xs ys zs : List TextChunkRow) → (xs ++ ys) ++ zs ≡ xs ++ (ys ++ zs)
append_assoc [] ys zs = refl
append_assoc (x ∷ xs) ys zs = ap (◌∷◌ x) (append_assoc xs ys zs)

append_nil : (xs : List TextChunkRow) → xs ++ [] ≡ xs
append_nil [] = refl
append_nil (x ∷ xs) = ap (◌∷◌ x) (append_nil xs)

bucket-insert :
    (o p : Operation) (rows : List TextChunkRow) (acc : Buckets)
    → bucket o (insert p rows acc) ≡ (if same o p then rows else bucket o acc)
bucket-insert o p rows acc = elim (Operation-discrete o p) [
  | yes e ↦ ground (arith, lookup-insert o p rows acc)
  | no ne ↦ ground (arith, lookup-insert o p rows acc)
]

bucket-append :
    (o p : Operation) (row : TextChunkRow) (rows : List TextChunkRow) (acc : Buckets)
    → bucket o (insert p (bucket p acc ++ row ∷ []) acc) ++ rows
      ≡ bucket o acc ++ (if same o p then row ∷ rows else rows)
bucket-append o p row rows acc = elim (Operation-discrete o p) [
  | yes e ↦ rw (bucket-insert o p (bucket p acc ++ row ∷ []) acc) (
      let t : same o p ≡ true = ground arith in
      rw (t, e) (append_assoc (bucket p acc) (row ∷ []) rows))
  | no ne ↦
      rw (bucket-insert o p (bucket p acc ++ row ∷ []) acc)
        (let t : same o p ≡ false = ground arith in rw t refl)
]

abbrev all_known : List TextChunkRow → Bool
all_known = all (λ row. is_known row.source_type)

-- The chunks whose source type is one of the operation's.
abbrev pub of_operation : Operation → List TextChunkRow → List TextChunkRow
of_operation o = select (λ row. belongs o row.source_type)

-- Buckets that have, behind those of `acc`, exactly the chunks of each operation.
abbrev Sorts : List TextChunkRow → Buckets → Option Buckets → Type 0
Sorts rows acc found =
    (b : Buckets) × (found ≡ some b)
    × ((o : Operation) → bucket o b ≡ bucket o acc ++ of_operation o rows)

bucket_from-select :
    (rows : List TextChunkRow) (acc : Buckets)
    → all_known rows ≡ true
    → Sorts rows acc (bucket_from rows acc)
unfolding bucket_from
bucket_from-select [] acc h = (acc, refl, λ o. sym (append_nil (bucket o acc)))
bucket_from-select (row ∷ rows) acc h = elim (Option-cases (source_operation row.source_type)) [
  | inl unknown ↦ absurd (ground (arith, source_operation-is_some row.source_type))
  | inr (p, known) ↦
      let (b, found, sorted) =
        bucket_from-select rows (insert p (bucket p acc ++ row ∷ []) acc) (ground arith) in
      rw (known, bucket_from)
        (
          b,
          found,
          λ o.
              sorted o
              ∙ rw (source_operation-belongs o p row.source_type known)
                  (bucket-append o p row (of_operation o rows) acc),
        )
]

-- Where no source type is unknown, there are buckets, and the bucket of each operation has exactly its
-- chunks, in the order of the rows: F1 those of the type "audio", F2 those of the types
-- "pdf_extracted" and "image", and no other operation has any.
pub bucket_chunks_by_operation-select :
    (rows : List TextChunkRow)
    → all (λ row. is_known row.source_type) rows ≡ true
    → (b : Buckets) × (bucket_chunks_by_operation rows ≡ some b)
      × ((o : Operation) → bucket o b ≡ select (λ row. belongs o row.source_type) rows)
unfolding bucket_chunks_by_operation lookup
bucket_chunks_by_operation-select rows h = bucket_from-select rows [] h
