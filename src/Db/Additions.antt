-- ===== src/Db/Additions.antt =====
-- Adding rows keeps a database sound (db/repos.py).
use mas_research.Base.{
  true, ◌&&◌, ◌≡◌, refl, ap, some, List, [], ◌∷◌, ◌++◌, String, arith, string_key,
}
use mas_research.Base.Dict.{contains}
use mas_research.Values.{Value, null, bool, int, float, str, list, dict}
use mas_research.Db.Rows.{TextChunkRow, TermRow, CitationRow, QuizRow, SummaryRow}
use mas_research.Db.Tables.{
  Database, Driver, ids, task_ids, document_ids, chunk_ids, refers_to, insert_rows, accepts_chunk,
  accepts_summary, accepts_term, accepts_quiz, accepts_citation,
}
use mas_research.Db.Repos.{add_terms, add_citations, add_chunks}
use mas_research.Db.Inserted.{insert_rows-Inserted, contains-append}
use mas_research.Db.Again.{then_with-some}
use mas_research.Db.Sound.{SoundTable-mono, SoundTable-insert, IsSound}

pub accepted_term :
    (driver : Driver) (db : Database) (r : TermRow)
    → accepts_term driver db r ≡ true
    → (contains r.task_id (task_ids db) && refers_to (chunk_ids db) r.text_chunk_id) ≡ true
unfolding accepts_term
accepted_term driver db r t = ground arith

pub accepted_chunk :
    (driver : Driver) (db : Database) (c : TextChunkRow)
    → accepts_chunk driver db c ≡ true
    → (contains c.task_id (task_ids db) && contains c.document_id (document_ids db)) ≡ true
unfolding accepts_chunk
accepted_chunk driver db c t = ground arith

pub accepted_citation :
    (driver : Driver) (db : Database) (r : CitationRow)
    → accepts_citation driver db r ≡ true
    → contains r.task_id (task_ids db) ≡ true
unfolding accepts_citation
accepted_citation driver db r t = ground arith

pub accepted_summary :
    (driver : Driver) (db : Database) (r : SummaryRow)
    → accepts_summary driver db r ≡ true
    → contains r.task_id (task_ids db) ≡ true
unfolding accepts_summary
accepted_summary driver db r t = ground arith

pub accepted_quiz :
    (driver : Driver) (db : Database) (r : QuizRow)
    → accepts_quiz driver db r ≡ true
    → contains r.task_id (task_ids db) ≡ true
unfolding accepts_quiz
accepted_quiz driver db r t = ground arith

refers_to-append :
    (keys new : List String) (v : Value)
    → refers_to keys v ≡ true
    → refers_to (keys ++ new) v ≡ true
unfolding refers_to
refers_to-append keys new null e = refl
refers_to-append keys new (bool b) e = e
refers_to-append keys new (int n) e = e
refers_to-append keys new (float n) e = e
refers_to-append keys new (str s) e = ground (arith, contains-append s keys new)
refers_to-append keys new (list vs) e = e
refers_to-append keys new (dict fs) e = e

pub ids-append :
    {R : Type 0} (id_of : R → String) (xs ys : List R)
    → ids id_of (xs ++ ys) ≡ ids id_of xs ++ ids id_of ys
ids-append id_of [] ys = refl
ids-append id_of (x ∷ xs) ys = ap (◌∷◌ (id_of x)) (ids-append id_of xs ys)

module _ (driver : Driver) where
  pub add_terms-IsSound :
      (rows : List TermRow) (db out : Database)
      → IsSound db
      → add_terms driver rows db ≡ some out
      → IsSound out
  unfolding add_terms
  add_terms-IsSound rows db out h e =
      let (terms, inserted, s) =
        then_with-some (insert_rows (λ r. r.id) (accepts_term driver db) rows db.terms)
          (λ terms. record db { terms = terms }) out e in
      rw (← s) (record {
        tasks = h.tasks;
        documents = h.documents;
        text_chunks = h.text_chunks;
        summaries = h.summaries;
        terms =
            SoundTable-insert (λ r. r.id)
              (λ r. contains r.task_id (task_ids db) && refers_to (chunk_ids db) r.text_chunk_id)
              (accepts_term driver db) rows db.terms terms (accepted_term driver db) h.terms
              inserted;
        quizzes = h.quizzes;
        citations = h.citations;
      })

  pub add_citations-IsSound :
      (rows : List CitationRow) (db out : Database)
      → IsSound db
      → add_citations driver rows db ≡ some out
      → IsSound out
  unfolding add_citations
  add_citations-IsSound rows db out h e =
      let (citations, inserted, s) =
        then_with-some (insert_rows (λ r. r.id) (accepts_citation driver db) rows db.citations)
          (λ citations. record db { citations = citations }) out e in
      rw (← s) (record {
        tasks = h.tasks;
        documents = h.documents;
        text_chunks = h.text_chunks;
        summaries = h.summaries;
        terms = h.terms;
        quizzes = h.quizzes;
        citations =
            SoundTable-insert (λ r. r.id) (λ r. contains r.task_id (task_ids db))
              (accepts_citation driver db) rows db.citations citations (accepted_citation driver db)
              h.citations inserted;
      })

  pub add_chunks-IsSound :
      (rows : List TextChunkRow) (db out : Database)
      → IsSound db
      → add_chunks driver rows db ≡ some out
      → IsSound out
  unfolding add_chunks
  add_chunks-IsSound rows db out h e =
      let (chunks, inserted, s) =
        then_with-some (insert_rows (λ c. c.id) (accepts_chunk driver db) rows db.text_chunks)
          (λ chunks. record db { text_chunks = chunks }) out e in
      let i =
        insert_rows-Inserted (λ c. c.id) (accepts_chunk driver db) rows db.text_chunks chunks
          inserted in
      rw (← s) (record {
        tasks = h.tasks;
        documents = h.documents;
        text_chunks =
            SoundTable-insert (λ c. c.id)
              (λ c. contains c.task_id (task_ids db) && contains c.document_id (document_ids db))
              (accepts_chunk driver db) rows db.text_chunks chunks (accepted_chunk driver db)
              h.text_chunks inserted;
        summaries = h.summaries;
        terms =
            SoundTable-mono (λ r. r.id)
              (λ r. contains r.task_id (task_ids db) && refers_to (chunk_ids db) r.text_chunk_id)
              (λ r.
                contains r.task_id (task_ids db)
                && refers_to (ids (λ c. c.id) chunks) r.text_chunk_id)
              db.terms
              (λ r t.
                rw (i.appended, ids-append (λ c. c.id) db.text_chunks rows)
                  (ground (
                    arith,
                    refers_to-append (chunk_ids db) (ids (λ c. c.id) rows) r.text_chunk_id,
                  )))
              h.terms;
        quizzes = h.quizzes;
        citations = h.citations;
      })
