-- ===== src/Db/Again.antt =====
-- Saving a result again (agents/store.py, db/repos.py).
use mas_research.Base.{
  ℕ, ◌+◌, Bool, true, false, ◌≡◌, refl, sym, ap, ◌∙◌, Option, none, some, List, [], ◌∷◌, ◌++◌, all,
  String, arith, Bool-cases, inl, inr, string_dec, string_key, same,
}
use mas_research.Base.Dict.{contains}
use mas_research.Values.{Value, null, bool, int, float, str, list, dict, Fields, Conversions}
use mas_research.Db.Rows.{
  TermRow, CitationRow, items_at, summary_row, quiz_row, rows_from, term_rows, citation_rows,
  term_row, citation_row,
}
use mas_research.Db.Tables.{
  Database, Driver, accepts_term, accepts_citation, accepts_summary, accepts_quiz, ids, insert_rows,
  merge_row, replace_row,
}
use mas_research.Db.Repos.{
  then_with, save_summary, save_quiz, add_terms, delete_terms, save_terms, add_citations,
  delete_citations, save_citations,
}
use mas_research.Db.Inserted.{select_rest, insert_rows-Inserted}

-- A step that may raise and a change of its result.
pub then_with-some :
    {A B : Type 0} (o : Option A) (f : A → B) (b : B)
    → then_with o f ≡ some b
    → (a : A) × (o ≡ some a) × (f a ≡ b)
then_with-some none f b e = absurd (cc e)
then_with-some (some a) f b e = (a, refl, cc e)

module _ {R : Type 0} (id_of : R → String) where
  pub contains-replace :
      (k : String) (r : R) (rows : List R)
      → contains k (ids id_of (replace_row id_of r rows)) ≡ contains k (ids id_of rows)
  unfolding contains replace_row
  contains-replace k r [] = refl
  contains-replace k r (q ∷ rows) = elim (string_dec (id_of q) (id_of r)) [
    | yes p ↦ ground (arith, contains-replace k r rows)
    | no n ↦ ground (arith, contains-replace k r rows)
  ]

  replace_row-twice :
      (r : R) (rows : List R)
      → replace_row id_of r (replace_row id_of r rows) ≡ replace_row id_of r rows
  unfolding replace_row
  replace_row-twice r [] = refl
  replace_row-twice r (q ∷ rows) = elim (string_dec (id_of q) (id_of r)) [
    | yes p ↦ ground (arith, replace_row-twice r rows)
    | no n ↦ ground (arith, replace_row-twice r rows)
  ]

  replace_row-appended :
      (r : R) (rows : List R)
      → contains (id_of r) (ids id_of rows) ≡ false
      → replace_row id_of r (rows ++ r ∷ []) ≡ rows ++ r ∷ []
  unfolding replace_row contains
  replace_row-appended r [] e = ground arith
  replace_row-appended r (q ∷ rows) e = ground (arith, replace_row-appended r rows)

  contains-appended :
      (r : R) (rows : List R) → contains (id_of r) (ids id_of (rows ++ r ∷ [])) ≡ true
  unfolding contains
  contains-appended r [] = ground arith
  contains-appended r (q ∷ rows) = ground (arith, contains-appended r rows)

  pub merge_row-twice :
      (ok : R → Bool) (r : R) (rows out : List R)
      → merge_row id_of ok r rows ≡ some out
      → merge_row id_of ok r out ≡ some out
  unfolding merge_row
  merge_row-twice ok r rows out e = elim (Bool-cases (ok r)) [
    | inr f ↦ absurd (cc (rw (f, merge_row) at e))
    | inl t ↦ elim (Bool-cases (contains (id_of r) (ids id_of rows))) [
      | inl old ↦
          let s : replace_row id_of r rows ≡ out = cc (rw (t, old, merge_row) at e) in
          rw (← s) (rw (t, contains-replace (id_of r) r rows, old, replace_row-twice r rows) refl)
      | inr new ↦
          let s : rows ++ r ∷ [] ≡ out = cc (rw (t, new, merge_row) at e) in
          rw (← s) (rw (t, contains-appended r rows, replace_row-appended r rows new) refl)
    ]
  ]

rows_from-all :
    {R : Type 0} (p : R → Bool) (row : ℕ → Fields → R) (index : ℕ) (items : List Value)
    → ((n : ℕ) (item : Fields) → p (row n item) ≡ true)
    → all p (rows_from row index items) ≡ true
unfolding rows_from
rows_from-all p row index [] h = refl
rows_from-all p row index (dict item ∷ items) h =
    rw (h index item) (rows_from-all p row (index + 1) items h)
rows_from-all p row index (null ∷ items) h = rows_from-all p row (index + 1) items h
rows_from-all p row index (bool b ∷ items) h = rows_from-all p row (index + 1) items h
rows_from-all p row index (int n ∷ items) h = rows_from-all p row (index + 1) items h
rows_from-all p row index (float n ∷ items) h = rows_from-all p row (index + 1) items h
rows_from-all p row index (str t ∷ items) h = rows_from-all p row (index + 1) items h
rows_from-all p row index (list vs ∷ items) h = rows_from-all p row (index + 1) items h

same_refl : (t : String) → same t t ≡ true
same_refl t = ground arith

pub add_terms-appended :
    (driver : Driver) (rows : List TermRow) (db out : Database)
    → add_terms driver rows db ≡ some out
    → out ≡ record db { terms = db.terms ++ rows }
unfolding add_terms
add_terms-appended driver rows db out e =
    let (terms, inserted, s) =
      then_with-some (insert_rows (λ r. r.id) (accepts_term driver db) rows db.terms)
        (λ terms. record db { terms = terms }) out e in
    sym s
    ∙ ap (λ terms. record db { terms = terms })
        (insert_rows-Inserted (λ r. r.id) (accepts_term driver db) rows db.terms terms
          inserted).appended

pub add_citations-appended :
    (driver : Driver) (rows : List CitationRow) (db out : Database)
    → add_citations driver rows db ≡ some out
    → out ≡ record db { citations = db.citations ++ rows }
unfolding add_citations
add_citations-appended driver rows db out e =
    let (citations, inserted, s) =
      then_with-some (insert_rows (λ r. r.id) (accepts_citation driver db) rows db.citations)
        (λ citations. record db { citations = citations }) out e in
    sym s
    ∙ ap (λ citations. record db { citations = citations })
        (insert_rows-Inserted (λ r. r.id) (accepts_citation driver db) rows db.citations citations
          inserted).appended

module _ (conv : Conversions) (driver : Driver) (task_id : String) (content : Fields) where
  pub term_rows-own : all (λ r. same r.task_id task_id) (term_rows conv task_id content) ≡ true
  unfolding term_rows term_row
  term_rows-own =
      rows_from-all (λ r. same r.task_id task_id) (term_row conv task_id) 0
        (items_at content "terms") (λ n item. same_refl task_id)

  pub citation_rows-own :
      all (λ r. same r.task_id task_id) (citation_rows conv task_id content) ≡ true
  unfolding citation_rows citation_row
  citation_rows-own =
      rows_from-all (λ r. same r.task_id task_id) (citation_row conv task_id) 0
        (items_at content "citations") (λ n item. same_refl task_id)

  delete_terms-again :
      (db : Database)
      → delete_terms task_id (record (delete_terms task_id db) {
        terms = (delete_terms task_id db).terms ++ term_rows conv task_id content;
      })
        ≡ delete_terms task_id db
  unfolding delete_terms
  delete_terms-again db =
      ap (λ terms. record db { terms = terms })
        (select_rest (λ r. same r.task_id task_id) db.terms (term_rows conv task_id content)
          term_rows-own)

  pub save_terms-twice :
      (db out : Database)
      → save_terms conv driver task_id content db ≡ some out
      → save_terms conv driver task_id content out ≡ some out
  unfolding save_terms
  save_terms-twice db out e =
      let s =
        add_terms-appended driver (term_rows conv task_id content) (delete_terms task_id db) out
          e in
      ap (add_terms driver (term_rows conv task_id content))
        (ap (delete_terms task_id) s ∙ delete_terms-again db)
      ∙ e

  delete_citations-again :
      (db : Database)
      → delete_citations task_id (record (delete_citations task_id db) {
        citations = (delete_citations task_id db).citations ++ citation_rows conv task_id content;
      })
        ≡ delete_citations task_id db
  unfolding delete_citations
  delete_citations-again db =
      ap (λ citations. record db { citations = citations })
        (select_rest (λ r. same r.task_id task_id) db.citations (citation_rows conv task_id content)
          citation_rows-own)

  pub save_citations-twice :
      (db out : Database)
      → save_citations conv driver task_id content db ≡ some out
      → save_citations conv driver task_id content out ≡ some out
  unfolding save_citations
  save_citations-twice db out e =
      let s =
        add_citations-appended driver (citation_rows conv task_id content)
          (delete_citations task_id db) out e in
      ap (add_citations driver (citation_rows conv task_id content))
        (ap (delete_citations task_id) s ∙ delete_citations-again db)
      ∙ e

  pub save_summary-twice :
      (db out : Database)
      → save_summary conv driver task_id content db ≡ some out
      → save_summary conv driver task_id content out ≡ some out
  unfolding save_summary accepts_summary
  save_summary-twice db out e =
      let (rows, merged, s) =
        then_with-some
          (merge_row (λ r. r.id) (accepts_summary driver db) (summary_row conv task_id content)
            db.summaries)
          (λ rows. record db { summaries = rows }) out e in
      rw (← s) (
        rw
          (merge_row-twice (λ r. r.id) (accepts_summary driver db)
            (summary_row conv task_id content) db.summaries rows merged)
          refl)

  pub save_quiz-twice :
      (db out : Database)
      → save_quiz conv driver task_id content db ≡ some out
      → save_quiz conv driver task_id content out ≡ some out
  unfolding save_quiz accepts_quiz
  save_quiz-twice db out e =
      let (rows, merged, s) =
        then_with-some
          (merge_row (λ r. r.id) (accepts_quiz driver db) (quiz_row conv task_id content)
            db.quizzes)
          (λ rows. record db { quizzes = rows }) out e in
      rw (← s) (
        rw
          (merge_row-twice (λ r. r.id) (accepts_quiz driver db) (quiz_row conv task_id content)
            db.quizzes rows merged)
          refl)
