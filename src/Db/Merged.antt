-- ===== src/Db/Merged.antt =====
-- What a merge leaves of the rows of each task, where a row's key is made of its task (db/repos.py).
use mas_research.Base.{
  Bool, true, false, ◌≡◌, ◌≢◌, refl, sym, ap, ◌∙◌, some, List, [], ◌∷◌, ◌++◌, select, String, arith,
  Bool-cases, inl, inr, string_dec, string_key, same,
}
use mas_research.Base.Dict.{contains}
use mathlib.Core.List.{append-nil}
use mas_research.Db.Tables.{ids, replace_row, merge_row}
use mas_research.Db.Inserted.{distinct, select-append}

module _ {R : Type 0} (id_of task_of : R → String) (key : String → String) where
  -- The key of each row is made of its task.
  abbrev pub IsKeyed : List R → Type 0
  IsKeyed [] = Unit {0}
  IsKeyed (r ∷ rows) = (id_of r ≡ key (task_of r)) × IsKeyed rows

  abbrev pub of_task : String → R → Bool
  of_task task_id r = same (task_of r) task_id

  module _ (key_injective : (s t : String) → key s ≡ key t → s ≡ t) (r : R)
      (keyed : id_of r ≡ key (task_of r)) where
    same_key :
        (q : R)
        → id_of q ≡ key (task_of q)
        → same (id_of q) (id_of r) ≡ same (task_of q) (task_of r)
    same_key q k = elim (string_dec (task_of q) (task_of r)) [
      | yes p ↦ ground (arith, k ∙ ap key p ∙ sym keyed)
      | no n ↦ ground (
        arith,
        λ (e : id_of q ≡ id_of r). n (key_injective (task_of q) (task_of r) (sym k ∙ e ∙ keyed)),
      )
    ]

    none_there :
        (rows : List R)
        → IsKeyed rows
        → contains (id_of r) (ids id_of rows) ≡ false
        → select (of_task (task_of r)) rows ≡ []
    unfolding contains
    none_there [] k e = refl
    none_there (q ∷ rows) k e = ground (arith, same_key q k.0, none_there rows k.1)

    replace-none :
        (rows : List R)
        → contains (id_of r) (ids id_of rows) ≡ false
        → replace_row id_of r rows ≡ rows
    unfolding contains replace_row
    replace-none [] e = refl
    replace-none (q ∷ rows) e = ground (arith, replace-none rows)

    replace-own :
        (rows : List R)
        → IsKeyed rows
        → distinct (ids id_of rows) ≡ true
        → contains (id_of r) (ids id_of rows) ≡ true
        → select (of_task (task_of r)) (replace_row id_of r rows) ≡ r ∷ []
    unfolding contains distinct replace_row
    replace-own [] k d e = absurd (cc e)
    replace-own (q ∷ rows) k d e = elim (string_dec (id_of q) (id_of r)) [
      | yes p ↦ ground (
        arith,
        same_key q k.0,
        p,
        ap (λ (x : String). contains x (ids id_of rows)) p,
        replace-none rows,
        none_there rows k.1,
      )
      | no m ↦ ground (arith, same_key q k.0, replace-own rows k.1)
    ]

    replace-others :
        (u : String)
        → u ≢ task_of r
        → (rows : List R) → IsKeyed rows
        → select (of_task u) (replace_row id_of r rows) ≡ select (of_task u) rows
    unfolding replace_row
    replace-others u n [] k = refl
    replace-others u n (q ∷ rows) k = elim (string_dec (id_of q) (id_of r)) [
      | yes p ↦ ground (arith, same_key q k.0, replace-others u n rows k.1)
      | no m ↦ ground (arith, replace-others u n rows k.1)
    ]

    replace-IsKeyed : (rows : List R) → IsKeyed rows → IsKeyed (replace_row id_of r rows)
    unfolding replace_row
    replace-IsKeyed [] k = tt
    replace-IsKeyed (q ∷ rows) k = elim (Bool-cases (same (id_of q) (id_of r))) [
      | inl e ↦ rw e (keyed, replace-IsKeyed rows k.1)
      | inr e ↦ rw e (k.0, replace-IsKeyed rows k.1)
    ]

    append-IsKeyed : (rows : List R) → IsKeyed rows → IsKeyed (rows ++ r ∷ [])
    append-IsKeyed [] k = (keyed, tt)
    append-IsKeyed (q ∷ rows) k = (k.0, append-IsKeyed rows k.1)

    pub merge_row-IsKeyed :
        (ok : R → Bool) (rows out : List R)
        → IsKeyed rows
        → merge_row id_of ok r rows ≡ some out
        → IsKeyed out
    unfolding merge_row
    merge_row-IsKeyed ok rows out k e = elim (Bool-cases (ok r)) [
      | inr f ↦ absurd (cc (rw (f, merge_row) at e))
      | inl t ↦ elim (Bool-cases (contains (id_of r) (ids id_of rows))) [
        | inl old ↦
            let s : replace_row id_of r rows ≡ out = cc (rw (t, old, merge_row) at e) in
            rw (← s) (replace-IsKeyed rows k)
        | inr new ↦
            let s : rows ++ r ∷ [] ≡ out = cc (rw (t, new, merge_row) at e) in
            rw (← s) (append-IsKeyed rows k)
      ]
    ]

    -- A merge leaves the new row as the only one of its task, and the rows of other tasks as they were.
    pub merge_row-own :
        (ok : R → Bool) (rows out : List R)
        → IsKeyed rows
        → distinct (ids id_of rows) ≡ true
        → merge_row id_of ok r rows ≡ some out
        → select (of_task (task_of r)) out ≡ r ∷ []
    unfolding merge_row
    merge_row-own ok rows out k d e = elim (Bool-cases (ok r)) [
      | inr f ↦ absurd (cc (rw (f, merge_row) at e))
      | inl t ↦ elim (Bool-cases (contains (id_of r) (ids id_of rows))) [
        | inl old ↦
            let s : replace_row id_of r rows ≡ out = cc (rw (t, old, merge_row) at e) in
            rw (← s) (replace-own rows k d old)
        | inr new ↦
            let s : rows ++ r ∷ [] ≡ out = cc (rw (t, new, merge_row) at e) in
            rw (← s) (
              rw (select-append (of_task (task_of r)) rows (r ∷ []), none_there rows k new)
                (ground arith))
      ]
    ]

    pub merge_row-others :
        (ok : R → Bool) (u : String) (rows out : List R)
        → u ≢ task_of r
        → IsKeyed rows
        → merge_row id_of ok r rows ≡ some out
        → select (of_task u) out ≡ select (of_task u) rows
    unfolding merge_row
    merge_row-others ok u rows out n k e = elim (Bool-cases (ok r)) [
      | inr f ↦ absurd (cc (rw (f, merge_row) at e))
      | inl t ↦ elim (Bool-cases (contains (id_of r) (ids id_of rows))) [
        | inl old ↦
            let s : replace_row id_of r rows ≡ out = cc (rw (t, old, merge_row) at e) in
            rw (← s) (replace-others u n rows k)
        | inr new ↦
            let s : rows ++ r ∷ [] ≡ out = cc (rw (t, new, merge_row) at e) in
            let nothing : select (of_task u) (r ∷ []) ≡ [] =
              ground (arith, λ (p : task_of r ≡ u). n (sym p)) in
            rw (← s) (rw (select-append (of_task u) rows (r ∷ []), nothing) (append-nil _))
      ]
    ]
