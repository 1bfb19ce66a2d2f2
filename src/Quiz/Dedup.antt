-- ===== src/Quiz/Dedup.antt =====
-- Taking out repeated choices keeps the answers (agents/test_generator.py, `_dedup_choices`).
use mas_research.Base.{
  ◌⊎◌, ℕ, zero, suc, ◌+◌, ◌≡◌, refl, ap, Option, none, some, List, [], ◌∷◌, ◌++◌, length,
  length-append, arith, Option-cases, inl, inr, text_key, nat_key, list_dec, ℕ_discrete,
}
use mas_research.Base.Dict.{lookup, insert, lookup-insert}
use mas_research.Text.{Text}
use mas_research.Quiz.{normal, Deduped, dedup_step, dedup_from, no_choices}

append_nil : (xs : List Text) → xs ++ [] ≡ xs
append_nil [] = refl
append_nil (x ∷ xs) = ap (◌∷◌ x) (append_nil xs)

append_assoc : (xs ys zs : List Text) → (xs ++ ys) ++ zs ≡ xs ++ (ys ++ zs)
append_assoc [] ys zs = refl
append_assoc (x ∷ xs) ys zs = ap (◌∷◌ x) (append_assoc xs ys zs)

length_next : (xs : List Text) (c : Text) → length (xs ++ c ∷ []) ≡ length xs + 1
length_next xs c = omega (arith, length-append xs (c ∷ []))

module _ (lower : Text → Text) where
  -- What a choice at a place compares by.
  unfoldable pub normal_at : List Text → ℕ → Option Text
  normal_at [] i = none
  normal_at (c ∷ cs) zero = some (normal lower c)
  normal_at (c ∷ cs) (suc i) = normal_at cs i

  normal_at-append :
      (cs ds : List Text) (i : ℕ) (k : Text)
      → normal_at cs i ≡ some k
      → normal_at (cs ++ ds) i ≡ some k
  unfolding normal_at
  normal_at-append [] ds i k e = absurd (cc e)
  normal_at-append (c ∷ cs) ds zero k e = e
  normal_at-append (c ∷ cs) ds (suc i) k e = normal_at-append cs ds i k e

  normal_at-length :
      (cs : List Text) (c : Text) (ds : List Text)
      → normal_at (cs ++ c ∷ ds) (length cs) ≡ some (normal lower c)
  unfolding normal_at
  normal_at-length [] c ds = refl
  normal_at-length (b ∷ cs) c ds = normal_at-length cs c ds

  -- A place in a list with one choice more: an old one, or the new one.
  normal_at-grown :
      (cs : List Text) (c : Text) (i : ℕ) (k : Text)
      → normal_at (cs ++ c ∷ []) i ≡ some k
      → (normal_at cs i ≡ some k) ⊎ ((i ≡ length cs) × (k ≡ normal lower c))
  unfolding normal_at
  normal_at-grown [] c zero k e = inr (refl, cc e)
  normal_at-grown [] c (suc i) k e = absurd (cc e)
  normal_at-grown (b ∷ cs) c zero k e = inl e
  normal_at-grown (b ∷ cs) c (suc i) k e = elim (normal_at-grown cs c i k e) [
    | inl f ↦ inl f
    | inr (f, g) ↦ inr (ap suc f, g)
  ]

  -- Where the loop has done with `done`: `seen` has exactly the places of the kept choices, and `remap`
  -- takes each place of `done`, and no other, to one of a choice that compares the same.
  pub record Linked (done : List Text) (d : Deduped) : Type 0 where
    pub kept : (k : Text) (j : ℕ) → lookup k d.seen ≡ some j → normal_at d.choices j ≡ some k
    pub unique : (k : Text) (j : ℕ) → normal_at d.choices j ≡ some k → lookup k d.seen ≡ some j
    pub moved :
        (i j : ℕ)
        → lookup i d.remap ≡ some j
        → (k : Text) × (normal_at done i ≡ some k) × (normal_at d.choices j ≡ some k)
    pub total :
        (i : ℕ) (k : Text) → normal_at done i ≡ some k → (j : ℕ) × (lookup i d.remap ≡ some j)

  -- Place `length done` goes to `p`, and the choices may have grown.
  moved-insert :
      (done : List Text) (c : Text) (d : Deduped) (p : ℕ) (cs : List Text)
      → Linked done d
      → normal_at cs p ≡ some (normal lower c)
      → ((j : ℕ) (k : Text) → normal_at d.choices j ≡ some k → normal_at cs j ≡ some k)
      → (i j : ℕ) → lookup i (insert (length done) p d.remap) ≡ some j
      → (k : Text) × (normal_at (done ++ c ∷ []) i ≡ some k) × (normal_at cs j ≡ some k)
  moved-insert done c d p cs w here grown i j f = elim (ℕ_discrete i (length done)) [
    | yes q ↦
        let same_place : j ≡ p = ground (arith, lookup-insert i (length done) p d.remap) in
        (normal lower c, rw q (normal_at-length done c []), rw same_place here)
    | no ne ↦
        let before : lookup i d.remap ≡ some j =
          ground (arith, lookup-insert i (length done) p d.remap) in
        let (k, a, b) = w.moved i j before in (k, normal_at-append done (c ∷ []) i k a, grown j k b)
  ]

  total-insert :
      (done : List Text) (c : Text) (d : Deduped) (p : ℕ)
      → Linked done d
      → (i : ℕ) (k : Text) → normal_at (done ++ c ∷ []) i ≡ some k
      → (j : ℕ) × (lookup i (insert (length done) p d.remap) ≡ some j)
  total-insert done c d p w i k e = elim (ℕ_discrete i (length done)) [
    | yes q ↦ (p, ground (arith, lookup-insert i (length done) p d.remap))
    | no ne ↦ elim (normal_at-grown done c i k e) [
      | inl old ↦
          let (j, f) = w.total i k old in
          (j, ground (arith, lookup-insert i (length done) p d.remap))
      | inr (last, _) ↦ absurd (ne last)
    ]
  ]

  kept-insert :
      (c : Text) (d : Deduped) (done : List Text)
      → Linked done d
      → (k : Text) (j : ℕ) → lookup k (insert (normal lower c) (length d.choices) d.seen) ≡ some j
      → normal_at (d.choices ++ c ∷ []) j ≡ some k
  kept-insert c d done w k j f = elim (list_dec k (normal lower c)) [
    | yes q ↦
        let last : j ≡ length d.choices =
          ground (arith, lookup-insert k (normal lower c) (length d.choices) d.seen) in
        rw (last, q) (normal_at-length d.choices c [])
    | no ne ↦
        normal_at-append d.choices (c ∷ []) j k
          (w.kept k j (ground (arith, lookup-insert k (normal lower c) (length d.choices) d.seen)))
  ]

  unique-insert :
      (c : Text) (d : Deduped) (done : List Text)
      → Linked done d
      → lookup (normal lower c) d.seen ≡ none
      → (k : Text) (j : ℕ) → normal_at (d.choices ++ c ∷ []) j ≡ some k
      → lookup k (insert (normal lower c) (length d.choices) d.seen) ≡ some j
  unique-insert c d done w fresh k j f = elim (normal_at-grown d.choices c j k f) [
    | inr (last, q) ↦
        rw (last, q)
          (ground
            (arith, lookup-insert (normal lower c) (normal lower c) (length d.choices) d.seen))
    | inl g ↦
        let old : lookup k d.seen ≡ some j = w.unique k j g in
        elim (list_dec k (normal lower c)) [
          | yes q ↦ absurd (cc (old, fresh, q))
          | no ne ↦ ground (arith, lookup-insert k (normal lower c) (length d.choices) d.seen)
        ]
  ]

  step-Linked :
      (done : List Text) (c : Text) (d : Deduped)
      → Linked done d
      → Linked (done ++ c ∷ []) (dedup_step lower (length done) c d)
  unfolding dedup_step
  step-Linked done c d w = elim (Option-cases (lookup (normal lower c) d.seen)) [
    | inr (p, e) ↦
        rw (e, dedup_step)
          record {
            kept = w.kept;
            unique = w.unique;
            moved = moved-insert done c d p d.choices w (w.kept (normal lower c) p e) (λ j k f. f);
            total = total-insert done c d p w;
          }
    | inl e ↦
        rw (e, dedup_step)
          record {
            kept = kept-insert c d done w;
            unique = unique-insert c d done w e;
            moved =
                moved-insert done c d (length d.choices) (d.choices ++ c ∷ []) w
                  (normal_at-length d.choices c []) (normal_at-append d.choices (c ∷ []));
            total = total-insert done c d (length d.choices) w;
          }
  ]

  dedup_from-Linked :
      (done cs : List Text) (d : Deduped)
      → Linked done d
      → Linked (done ++ cs) (dedup_from lower (length done) cs d)
  unfolding dedup_from
  dedup_from-Linked done [] d w = rw (append_nil done) w
  dedup_from-Linked done (c ∷ cs) d w = rw (← append_assoc done (c ∷ []) cs) (
      rw (← length_next done c) (
        dedup_from-Linked (done ++ c ∷ []) cs (dedup_step lower (length done) c d)
          (step-Linked done c d w)))

  start-Linked : Linked [] no_choices
  unfolding lookup normal_at
  start-Linked = record {
    kept = λ k j e. absurd (cc e);
    unique = λ k j e. absurd (cc e);
    moved = λ i j e. absurd (cc e);
    total = λ i k e. absurd (cc e);
  }

  pub all-Linked : (cs : List Text) → Linked cs (dedup_from lower 0 cs no_choices)
  all-Linked cs = dedup_from-Linked [] cs no_choices start-Linked
