-- ===== src/Db/Inserted.antt =====
-- What the flush of new rows leaves in a table (db/repos.py).
use mas_research.Base.{
  Bool, true, false, not, ◌&&◌, ◌||◌, ◌≡◌, refl, sym, ap, ◌∙◌, some, List, [], ◌∷◌, ◌++◌, all,
  select, String, arith, Bool-cases, inl, inr, string_key, Key,
}
use mas_research.Base.Dict.{contains}
use mathlib.Core.List.{append_assoc, append-nil}
use mas_research.Db.Tables.{ids, insert_rows}

module _ {K : Type 0} ⦃key : Key K⦄ where
  -- No key is there twice.
  unfoldable pub distinct : List K → Bool
  distinct [] = true
  distinct (k ∷ ks) = not (contains k ks) && distinct ks

  pub contains-append :
      (k : K) (xs ys : List K) → contains k (xs ++ ys) ≡ (contains k xs || contains k ys)
  unfolding contains
  contains-append k [] ys = refl
  contains-append k (x ∷ xs) ys = ground (arith, contains-append k xs ys)

  distinct-append_end :
      (ks : List K) (k : K)
      → distinct ks ≡ true
      → contains k ks ≡ false
      → distinct (ks ++ k ∷ []) ≡ true
  unfolding distinct contains
  distinct-append_end [] k d n = refl
  distinct-append_end (j ∷ ks) k d n = elim (key.dec j k) [
    | yes p ↦ ground (arith, contains-append j ks (k ∷ []), distinct-append_end ks k)
    | no q ↦ ground (arith, contains-append j ks (k ∷ []), distinct-append_end ks k)
  ]

module _ {A : Type 0} where
  pub all-append : (p : A → Bool) (xs ys : List A) → all p (xs ++ ys) ≡ (all p xs && all p ys)
  all-append p [] ys = refl
  all-append p (x ∷ xs) ys = ground (arith, all-append p xs ys)

  pub select-append :
      (p : A → Bool) (xs ys : List A) → select p (xs ++ ys) ≡ select p xs ++ select p ys
  select-append p [] ys = refl
  select-append p (x ∷ xs) ys = elim (Bool-cases (p x)) [
    | inl e ↦ rw e (ap (◌∷◌ x) (select-append p xs ys))
    | inr e ↦ rw e (select-append p xs ys)
  ]

  pub select_none : (p : A → Bool) (xs : List A) → all (λ x. not (p x)) xs ≡ true → select p xs ≡ []
  select_none p [] e = refl
  select_none p (x ∷ xs) e = ground (arith, select_none p xs)

  pub select-all : (p : A → Bool) (xs : List A) → all p xs ≡ true → select p xs ≡ xs
  select-all p [] e = refl
  select-all p (x ∷ xs) e = ground (arith, select-all p xs)

  pub all-select : (p q : A → Bool) (xs : List A) → all q xs ≡ true → all q (select p xs) ≡ true
  all-select p q [] e = refl
  all-select p q (x ∷ xs) e = ground (arith, all-select p q xs)

  pub all-select_self : (p : A → Bool) (xs : List A) → all p (select p xs) ≡ true
  all-select_self p [] = refl
  all-select_self p (x ∷ xs) = ground (arith, all-select_self p xs)

  all-not-not :
      (p : A → Bool) (xs : List A) → all p xs ≡ true → all (λ x. not (not (p x))) xs ≡ true
  all-not-not p [] e = refl
  all-not-not p (x ∷ xs) e = ground (arith, all-not-not p xs)

  -- The items that are kept and new ones that would not be, told apart again.
  pub select_rest :
      (p : A → Bool) (xs new : List A)
      → all p new ≡ true
      → select (λ x. not (p x)) (select (λ x. not (p x)) xs ++ new) ≡ select (λ x. not (p x)) xs
  select_rest p xs new e = rw (select-append (λ x. not (p x)) (select (λ x. not (p x)) xs) new) (
      rw
        (
          select-all (λ x. not (p x)) (select (λ x. not (p x)) xs)
              (all-select_self (λ x. not (p x)) xs),
          select_none (λ x. not (p x)) new (all-not-not p new e),
        )
        (append-nil _))

  pub select_new :
      (p : A → Bool) (xs new : List A)
      → all p new ≡ true
      → select p (select (λ x. not (p x)) xs ++ new) ≡ new
  select_new p xs new e = rw (select-append p (select (λ x. not (p x)) xs) new) (
      rw
        (
          select_none p (select (λ x. not (p x)) xs) (all-select_self (λ x. not (p x)) xs),
          select-all p new e,
        )
        refl)

  select-select :
      (p q : A → Bool) (xs : List A)
      → ((x : A) → p x ≡ true → q x ≡ true)
      → select p (select q xs) ≡ select p xs
  select-select p q [] f = refl
  select-select p q (x ∷ xs) f = ground (arith, f x, select-select p q xs f)

  all-apart :
      (p q : A → Bool) (xs : List A)
      → ((x : A) → p x ≡ true → not (q x) ≡ true)
      → all q xs ≡ true
      → all (λ x. not (p x)) xs ≡ true
  all-apart p q [] f e = refl
  all-apart p q (x ∷ xs) f e = ground (arith, f x, all-apart p q xs f)

  -- What is selected does not see the items that are exchanged.
  pub select_apart :
      (p q : A → Bool) (xs new : List A)
      → ((x : A) → p x ≡ true → not (q x) ≡ true)
      → all q new ≡ true
      → select p (select (λ x. not (q x)) xs ++ new) ≡ select p xs
  select_apart p q xs new f e = rw (select-append p (select (λ x. not (q x)) xs) new) (
      rw (select-select p (λ x. not (q x)) xs f, select_none p new (all-apart p q new f e))
        (append-nil _))

module _ {R : Type 0} (id_of : R → String) where
  -- The rows that are there and the new ones, in order, each of them accepted; no key is there twice
  -- that was not before.
  pub record Inserted (ok : R → Bool) (new rows out : List R) : Type 0 where
    pub appended : out ≡ rows ++ new
    pub accepted : all ok new ≡ true
    pub keys : distinct (ids id_of rows) ≡ true → distinct (ids id_of out) ≡ true

  map-append_end :
      (rows : List R) (r : R) → ids id_of (rows ++ r ∷ []) ≡ ids id_of rows ++ id_of r ∷ []
  map-append_end [] r = refl
  map-append_end (q ∷ rows) r = ap (◌∷◌ (id_of q)) (map-append_end rows r)

  pub insert_rows-Inserted :
      (ok : R → Bool) (new rows out : List R)
      → insert_rows id_of ok new rows ≡ some out
      → Inserted ok new rows out
  unfolding insert_rows
  insert_rows-Inserted ok [] rows out e =
      let same_rows : rows ≡ out = cc e in
      record {
        appended = sym same_rows ∙ sym (append-nil rows);
        accepted = refl;
        keys = λ d. rw (← same_rows) d;
      }
  insert_rows-Inserted ok (r ∷ new) rows out e =
      elim (Bool-cases (ok r && not (contains (id_of r) (ids id_of rows)))) [
        | inr f ↦ absurd (cc (rw (f, insert_rows) at e))
        | inl f ↦
            let h = insert_rows-Inserted ok new (rows ++ r ∷ []) out (rw (f, insert_rows) at e) in
            record {
              appended = h.appended ∙ append_assoc rows (r ∷ []) new;
              accepted = ground (arith, h.accepted);
              keys = λ d. h.keys (
                  rw (map-append_end rows r)
                    (distinct-append_end (ids id_of rows) (id_of r) d (ground arith)));
            }
      ]
