-- ===== src/Db/Twice.antt =====
-- Saving a result a second time changes nothing (agents/store.py, db/repos.py).
use mas_research.Base.{
  ◌≡◌, refl, sym, ap, ◌∙◌, Bool, true, false, not, ◌&&◌, Option, none, some, List, [], ◌∷◌, ◌++◌,
  map, all, select, is_empty, String, arith, string_key, string_dec,
}
use mas_research.Base.Dict.{contains, add, contains-add}
use mathlib.Core.Path.{subst}
use mathlib.Core.List.{append-nil}
use mas_research.Values.{Value, null, bool, int, float, str, list, dict, Fields, Conversions}
use mas_research.Schemas.{
  Operation, f1_transcribe, f2_ocr, f3_summarize, f4_test, f5_terms, f6_recommend,
}
use mas_research.Db.Rows.{TextChunkRow, TermRow, chunk_rows}
use mas_research.Db.Tables.{
  Database, Driver, ids, task_ids, chunk_ids, refers_to, insert_rows, accepts_chunk,
}
use mas_research.Db.Repos.{
  nulled, set_null, delete_chunks, clear_documents, add_chunks, save_chunk_rows, save_chunks,
  documents_of, if_rows,
}
use mas_research.Db.Store.{save_result}
use mas_research.Db.Inserted.{
  distinct, contains-append, insert_rows-Inserted, select_rest, select_new,
}
use mas_research.Db.Again.{
  then_with-some, save_terms-twice, save_citations-twice, save_summary-twice, save_quiz-twice,
}
use mas_research.Db.Sound.{IsSound}
use mas_research.Db.Steps.{delete_chunks-IsSound, clear_documents-IsSound}
use mas_research.Db.Additions.{ids-append}

distinct-apart :
    (k : String) (xs ys : List String)
    → distinct (xs ++ ys) ≡ true
    → contains k xs ≡ true
    → contains k ys ≡ false
unfolding distinct contains
distinct-apart k [] ys d e = absurd (cc e)
distinct-apart k (x ∷ xs) ys d e = elim (string_dec k x) [
  | yes p ↦ ground (arith, contains-append x xs ys)
  | no n ↦ ground (arith, distinct-apart k xs ys)
]

-- Deleting rows that a value does not refer to.
nulled-other :
    (keys gone : List String) (v : Value)
    → refers_to keys v ≡ true
    → ((k : String) → contains k keys ≡ true → contains k gone ≡ false)
    → nulled gone v ≡ v
unfolding refers_to nulled
nulled-other keys gone null e f = refl
nulled-other keys gone (bool b) e f = refl
nulled-other keys gone (int n) e f = refl
nulled-other keys gone (float n) e f = refl
nulled-other keys gone (str s) e f = rw (f s e) refl
nulled-other keys gone (list vs) e f = refl
nulled-other keys gone (dict fs) e f = refl

set_null-other :
    (tasks keys gone : List String) (terms : List TermRow)
    → all (λ r. contains r.task_id tasks && refers_to keys r.text_chunk_id) terms ≡ true
    → ((k : String) → contains k keys ≡ true → contains k gone ≡ false)
    → map (set_null gone) terms ≡ terms
unfolding set_null
set_null-other tasks keys gone [] e f = refl
set_null-other tasks keys gone (r ∷ terms) e f =
    rw
      (
        nulled-other keys gone r.text_chunk_id (ground arith) f,
        set_null-other tasks keys gone terms (ground arith) f,
      )
      refl

documents_of-own :
    (more : List String) (rows : List TextChunkRow)
    → ((k : String) → contains k (documents_of rows) ≡ true → contains k more ≡ true)
    → all (λ c. contains c.document_id more) rows ≡ true
unfolding documents_of
documents_of-own more [] f = refl
documents_of-own more (c ∷ rows) f = ground (
  arith,
  f c.document_id,
  contains-add c.document_id c.document_id (documents_of rows),
  documents_of-own more rows
      (λ k e. f k (ground (arith, contains-add k c.document_id (documents_of rows), e))),
)

module _ (rows : List TextChunkRow) where
  abbrev listed : TextChunkRow → Bool
  listed c = contains c.document_id (documents_of rows)

  own : all listed rows ≡ true
  own = documents_of-own (documents_of rows) rows (λ k e. e)

  -- Once the chunks are stored, deleting those of their documents leads back to where they were added.
  delete_chunks-again :
      (k : Database) (chunks : List TextChunkRow)
      → k.text_chunks ≡ select (λ c. not (listed c)) chunks
      → IsSound k
      → distinct (ids (λ c. c.id) (k.text_chunks ++ rows)) ≡ true
      → delete_chunks (documents_of rows) (record k { text_chunks = k.text_chunks ++ rows }) ≡ k
  unfolding delete_chunks
  delete_chunks-again k chunks q h d =
      let rest : select (λ c. not (listed c)) (k.text_chunks ++ rows) ≡ k.text_chunks =
        rw q (select_rest listed chunks rows own) in
      let new : select listed (k.text_chunks ++ rows) ≡ rows =
        rw q (select_new listed chunks rows own) in
      let apart : distinct (chunk_ids k ++ ids (λ c. c.id) rows) ≡ true =
        rw (← ids-append (λ c. c.id) k.text_chunks rows) d in
      ap
        (λ c. record k {
          text_chunks = c;
          terms = map (set_null (ids (λ c. c.id) (select listed (k.text_chunks ++ rows)))) k.terms;
        })
        rest
      ∙ ap (λ c. record k { terms = map (set_null (ids (λ c. c.id) c)) k.terms }) new
      ∙ ap (λ t. record k { terms = t })
          (set_null-other (task_ids k) (chunk_ids k) (ids (λ c. c.id) rows) k.terms
            h.terms.references
            (λ s e. distinct-apart s (chunk_ids k) (ids (λ c. c.id) rows) apart e))

clear_documents-delete :
    (documents : List String) (db : Database)
    → is_empty documents ≡ false
    → clear_documents documents db ≡ delete_chunks documents db
unfolding clear_documents
clear_documents-delete documents db e = rw e refl

is_empty-add : (k : String) (s : List String) → is_empty (add k s) ≡ false
unfolding add contains
is_empty-add k [] = refl
is_empty-add k (j ∷ s) = ground arith

abbrev with_chunks : List TextChunkRow → Database → Database
with_chunks rows k = record k { text_chunks = k.text_chunks ++ rows }

clear_documents-again :
    (rows : List TextChunkRow) (db : Database)
    → IsSound db
    → distinct (ids (λ c. c.id) ((clear_documents (documents_of rows) db).text_chunks ++ rows))
      ≡ true
    → clear_documents
        (documents_of rows)
        (with_chunks rows (clear_documents (documents_of rows) db))
      ≡ clear_documents (documents_of rows) db
unfolding clear_documents documents_of delete_chunks
clear_documents-again [] db h d =
    ap (λ c. record db { text_chunks = c }) (append-nil db.text_chunks)
clear_documents-again (c ∷ rows) db h d =
    let documents = documents_of (c ∷ rows) in
    let f = λ (x : Database).
      clear_documents-delete documents x (is_empty-add c.document_id (documents_of rows)) in
    f (with_chunks (c ∷ rows) (clear_documents documents db))
    ∙ ap (λ y. delete_chunks documents (with_chunks (c ∷ rows) y)) (f db)
    ∙ delete_chunks-again (c ∷ rows) (delete_chunks documents db) db.text_chunks refl
        (delete_chunks-IsSound documents db h)
        (subst (λ (x : Database). distinct (ids (λ c. c.id) (x.text_chunks ++ c ∷ rows)) ≡ true)
          (f db) d)
    ∙ sym (f db)

module _ (driver : Driver) where
  add_chunks-appended :
      (rows : List TextChunkRow) (db out : Database)
      → distinct (chunk_ids db) ≡ true
      → add_chunks driver rows db ≡ some out
      → (out ≡ record db { text_chunks = db.text_chunks ++ rows })
        × (distinct (ids (λ c. c.id) (db.text_chunks ++ rows)) ≡ true)
  unfolding add_chunks
  add_chunks-appended rows db out d e =
      let (chunks, inserted, s) =
        then_with-some (insert_rows (λ c. c.id) (accepts_chunk driver db) rows db.text_chunks)
          (λ chunks. record db { text_chunks = chunks }) out e in
      let i =
        insert_rows-Inserted (λ c. c.id) (accepts_chunk driver db) rows db.text_chunks chunks
          inserted in
      (
        sym s ∙ ap (λ chunks. record db { text_chunks = chunks }) i.appended,
        rw (← i.appended) (i.keys d),
      )

  save_chunk_rows-twice :
      (rows : List TextChunkRow) (db out : Database)
      → IsSound db
      → save_chunk_rows driver rows db ≡ some out
      → save_chunk_rows driver rows out ≡ some out
  unfolding save_chunk_rows
  save_chunk_rows-twice rows db out h e =
      let k = clear_documents (documents_of rows) db in
      let (s, d) =
        add_chunks-appended rows k out
          (clear_documents-IsSound (documents_of rows) db h).text_chunks.keys e in
      ap (add_chunks driver rows)
        (ap (clear_documents (documents_of rows)) s ∙ clear_documents-again rows db h d)
      ∙ e

  if_rows-twice :
      (rows : Option (List TextChunkRow)) (db out : Database)
      → IsSound db
      → if_rows driver rows db ≡ some out
      → if_rows driver rows out ≡ some out
  unfolding save_chunk_rows
  if_rows-twice none db out h e = absurd (cc e)
  if_rows-twice (some rows) db out h e = save_chunk_rows-twice rows db out h e

-- Where saving the content of an operation into a sound database does not raise, saving it again does
-- not raise either and leaves the database as it is.
pub save_result-twice :
    (conv : Conversions) (driver : Driver) (task_id : String) (operation : Operation)
    (content : Fields) (db out : Database)
    → IsSound db
    → save_result conv driver task_id operation content db ≡ some out
    → save_result conv driver task_id operation content out ≡ some out
unfolding save_result save_chunks
save_result-twice conv driver task_id f1_transcribe content db out h e =
    if_rows-twice driver (chunk_rows conv task_id content) db out h e
save_result-twice conv driver task_id f2_ocr content db out h e =
    if_rows-twice driver (chunk_rows conv task_id content) db out h e
save_result-twice conv driver task_id f3_summarize content db out h e =
    save_summary-twice conv driver task_id content db out e
save_result-twice conv driver task_id f4_test content db out h e =
    save_quiz-twice conv driver task_id content db out e
save_result-twice conv driver task_id f5_terms content db out h e =
    save_terms-twice conv driver task_id content db out e
save_result-twice conv driver task_id f6_recommend content db out h e =
    save_citations-twice conv driver task_id content db out e
