-- ===== src/Db/Steps.antt =====
-- Deleting rows keeps a database sound (db/repos.py).
use mas_research.Base.{
  Bool, true, not, ◌&&◌, ◌||◌, ◌≡◌, refl, ap, List, [], ◌∷◌, map, all, select, String, arith,
  Bool-cases, inl, inr, string_key, same, is_empty,
}
use mas_research.Base.Dict.{contains}
use mas_research.Values.{Value, null, bool, int, float, str, list, dict}
use mas_research.Db.Rows.{TextChunkRow, TermRow}
use mas_research.Db.Tables.{Database, ids, task_ids, refers_to}
use mas_research.Db.Repos.{
  delete_terms, delete_citations, nulled, set_null, delete_chunks, clear_documents,
}
use mas_research.Db.Sound.{SoundTable-select, IsSound}

pub delete_terms-IsSound :
    (task_id : String) (db : Database) → IsSound db → IsSound (delete_terms task_id db)
unfolding delete_terms
delete_terms-IsSound task_id db h = record {
  tasks = h.tasks;
  documents = h.documents;
  text_chunks = h.text_chunks;
  summaries = h.summaries;
  terms = SoundTable-select (λ r. r.id) (λ r. not (same r.task_id task_id)) db.terms h.terms;
  quizzes = h.quizzes;
  citations = h.citations;
}

pub delete_citations-IsSound :
    (task_id : String) (db : Database) → IsSound db → IsSound (delete_citations task_id db)
unfolding delete_citations
delete_citations-IsSound task_id db h = record {
  tasks = h.tasks;
  documents = h.documents;
  text_chunks = h.text_chunks;
  summaries = h.summaries;
  terms = h.terms;
  quizzes = h.quizzes;
  citations =
      SoundTable-select (λ r. r.id) (λ r. not (same r.task_id task_id)) db.citations h.citations;
}

contains-split :
    {R : Type 0} (id_of : R → String) (k : String) (p : R → Bool) (rows : List R)
    → contains k (ids id_of rows) ≡ (
        contains k (ids id_of (select p rows))
        || contains k (ids id_of (select (λ r. not (p r)) rows)))
unfolding contains
contains-split id_of k p [] = refl
contains-split id_of k p (r ∷ rows) = ground (arith, contains-split id_of k p rows)

-- A reference that is not to a deleted row is to a row that is kept.
nulled-refers :
    (p : TextChunkRow → Bool) (chunks : List TextChunkRow) (v : Value)
    → refers_to (ids (λ c. c.id) chunks) v ≡ true
    → refers_to
        (ids (λ c. c.id) (select (λ c. not (p c)) chunks))
        (nulled (ids (λ c. c.id) (select p chunks)) v)
      ≡ true
unfolding refers_to nulled
nulled-refers p chunks null e = refl
nulled-refers p chunks (bool b) e = e
nulled-refers p chunks (int n) e = e
nulled-refers p chunks (float n) e = e
nulled-refers p chunks (str s) e = ground (arith, contains-split (λ c. c.id) s p chunks)
nulled-refers p chunks (list vs) e = e
nulled-refers p chunks (dict fs) e = e

module _ (p : TextChunkRow → Bool) (chunks : List TextChunkRow) (tasks : List String) where
  abbrev gone : List String
  gone = ids (λ c. c.id) (select p chunks)

  ids-set_null :
      (terms : List TermRow) → ids (λ r. r.id) (map (set_null gone) terms) ≡ ids (λ r. r.id) terms
  unfolding set_null
  ids-set_null [] = refl
  ids-set_null (r ∷ terms) = ap (◌∷◌ r.id) (ids-set_null terms)

  set_null-refers :
      (terms : List TermRow)
      → all
          (λ r. contains r.task_id tasks && refers_to (ids (λ c. c.id) chunks) r.text_chunk_id)
          terms
        ≡ true
      → all
          (λ r.
            contains r.task_id tasks
            && refers_to (ids (λ c. c.id) (select (λ c. not (p c)) chunks)) r.text_chunk_id)
          (map (set_null gone) terms)
        ≡ true
  unfolding set_null
  set_null-refers [] e = refl
  set_null-refers (r ∷ terms) e =
      ground (arith, nulled-refers p chunks r.text_chunk_id, set_null-refers terms)

pub delete_chunks-IsSound :
    (documents : List String) (db : Database) → IsSound db → IsSound (delete_chunks documents db)
unfolding delete_chunks
delete_chunks-IsSound documents db h = record {
  tasks = h.tasks;
  documents = h.documents;
  text_chunks =
      SoundTable-select (λ c. c.id) (λ c. not (contains c.document_id documents)) db.text_chunks
        h.text_chunks;
  summaries = h.summaries;
  terms = record {
    keys =
        rw
          (ids-set_null (λ c. contains c.document_id documents) db.text_chunks (task_ids db)
            db.terms)
          h.terms.keys;
    references =
        set_null-refers (λ c. contains c.document_id documents) db.text_chunks (task_ids db)
          db.terms h.terms.references;
  };
  quizzes = h.quizzes;
  citations = h.citations;
}

pub clear_documents-IsSound :
    (documents : List String) (db : Database) → IsSound db → IsSound (clear_documents documents db)
unfolding clear_documents
clear_documents-IsSound documents db h = elim (Bool-cases (is_empty documents)) [
  | inl e ↦ rw e h
  | inr e ↦ rw e (delete_chunks-IsSound documents db h)
]
