-- ===== src/Db/Sound.antt =====
-- Databases in which the keys are keys and the foreign keys refer to something (db/models.py).
use mas_research.Base.{
  Bool, true, false, ◌&&◌, ◌≡◌, refl, some, List, [], ◌∷◌, all, select, String, arith, Bool-cases,
  inl, inr, string_dec, string_key,
}
use mas_research.Base.Dict.{contains}
use mas_research.Db.Tables.{
  Database, ids, task_ids, document_ids, chunk_ids, refers_to, insert_rows, merge_row, replace_row,
}
use mas_research.Db.Inserted.{insert_rows-Inserted, distinct, all-append, all-select}

module _ {R : Type 0} (id_of : R → String) where
  -- No key is there twice, and each row refers to what is there.
  pub record SoundTable (refers : R → Bool) (rows : List R) : Type 0 where
    pub keys : distinct (ids id_of rows) ≡ true
    pub references : all refers rows ≡ true

  contains-select :
      (k : String) (p : R → Bool) (rows : List R)
      → contains k (ids id_of rows) ≡ false
      → contains k (ids id_of (select p rows)) ≡ false
  unfolding contains
  contains-select k p [] e = refl
  contains-select k p (r ∷ rows) e = ground (arith, contains-select k p rows)

  distinct-select :
      (p : R → Bool) (rows : List R)
      → distinct (ids id_of rows) ≡ true
      → distinct (ids id_of (select p rows)) ≡ true
  unfolding distinct
  distinct-select p [] d = refl
  distinct-select p (r ∷ rows) d =
      ground (arith, distinct-select p rows, contains-select (id_of r) p rows)

  pub SoundTable-select :
      {refers : R → Bool} (p : R → Bool) (rows : List R)
      → SoundTable refers rows
      → SoundTable refers (select p rows)
  SoundTable-select {refers} p rows h = record {
    keys = distinct-select p rows h.keys;
    references = all-select p refers rows h.references;
  }

  all_mono :
      (p q : R → Bool) (rows : List R)
      → ((r : R) → p r ≡ true → q r ≡ true)
      → all p rows ≡ true
      → all q rows ≡ true
  all_mono p q [] f e = refl
  all_mono p q (r ∷ rows) f e = ground (arith, f r, all_mono p q rows f)

  pub SoundTable-mono :
      (p q : R → Bool) (rows : List R)
      → ((r : R) → p r ≡ true → q r ≡ true)
      → SoundTable p rows
      → SoundTable q rows
  SoundTable-mono p q rows f h = record {
    keys = h.keys;
    references = all_mono p q rows f h.references;
  }

  pub SoundTable-insert :
      (refers ok : R → Bool) (new rows out : List R)
      → ((r : R) → ok r ≡ true → refers r ≡ true)
      → SoundTable refers rows
      → insert_rows id_of ok new rows ≡ some out
      → SoundTable refers out
  SoundTable-insert refers ok new rows out f h e =
      let i = insert_rows-Inserted id_of ok new rows out e in
      record {
        keys = i.keys h.keys;
        references = rw i.appended (
            rw (all-append refers rows new)
              (ground (arith, h.references, all_mono ok refers new f i.accepted)));
      }

  ids-replace : (r : R) (rows : List R) → ids id_of (replace_row id_of r rows) ≡ ids id_of rows
  unfolding replace_row
  ids-replace r [] = refl
  ids-replace r (q ∷ rows) = elim (string_dec (id_of q) (id_of r)) [
    | yes p ↦ ground (arith, ids-replace r rows)
    | no n ↦ ground (arith, ids-replace r rows)
  ]

  all-replace :
      (p : R → Bool) (r : R) (rows : List R)
      → p r ≡ true
      → all p rows ≡ true
      → all p (replace_row id_of r rows) ≡ true
  unfolding replace_row
  all-replace p r [] t e = refl
  all-replace p r (q ∷ rows) t e = ground (arith, all-replace p r rows)

  pub SoundTable-merge :
      (refers ok : R → Bool) (r : R) (rows out : List R)
      → ((r : R) → ok r ≡ true → refers r ≡ true)
      → SoundTable refers rows
      → merge_row id_of ok r rows ≡ some out
      → SoundTable refers out
  unfolding merge_row insert_rows
  SoundTable-merge refers ok r rows out f h e = elim (Bool-cases (ok r)) [
    | inr no_row ↦ absurd (cc (rw (no_row, merge_row) at e))
    | inl t ↦ elim (Bool-cases (contains (id_of r) (ids id_of rows))) [
      | inl old ↦
          let s : replace_row id_of r rows ≡ out = cc (rw (t, old, merge_row) at e) in
          rw (← s) (record {
            keys = rw (ids-replace r rows) h.keys;
            references = all-replace refers r rows (f r t) h.references;
          })
      | inr new ↦
          SoundTable-insert refers ok (r ∷ []) rows out f h
            (rw (t, new, insert_rows) (rw (t, new, merge_row) at e))
    ]
  ]

-- Every primary key is unique, and every foreign key that is not NULL is there.
pub record IsSound (db : Database) : Type 0 where
  pub tasks : distinct (task_ids db) ≡ true
  pub documents : SoundTable (λ d. d.id) (λ d. contains d.task_id (task_ids db)) db.documents
  pub text_chunks :
      SoundTable
        (λ c. c.id)
        (λ c. contains c.task_id (task_ids db) && contains c.document_id (document_ids db))
        db.text_chunks
  pub summaries : SoundTable (λ r. r.id) (λ r. contains r.task_id (task_ids db)) db.summaries
  pub terms :
      SoundTable
        (λ r. r.id)
        (λ r. contains r.task_id (task_ids db) && refers_to (chunk_ids db) r.text_chunk_id)
        db.terms
  pub quizzes : SoundTable (λ r. r.id) (λ r. contains r.task_id (task_ids db)) db.quizzes
  pub citations : SoundTable (λ r. r.id) (λ r. contains r.task_id (task_ids db)) db.citations
