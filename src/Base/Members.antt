-- ===== src/Base/Members.antt =====
-- Members of filtered and mapped lists, with the member in hand.
use mas_research.Base.Tests.{Bool-cases}
use mas_research.Base.Keys.{Key}
use mas_research.Base.Lists.{all, is_empty, select}
use mas_research.Base.Dict.{contains}
use mathlib.Core.Path.{◌≡◌, refl}
use mathlib.Core.Logic.{inl, inr}
use mathlib.Core.Bool.{Bool, true, false}
use mathlib.Core.List.{List, [], ◌∷◌, map, Memᴰ}
use native.Mathlib.Omega.{arith}

module _ {ℓ} {A : Type ℓ} where
  pub select-mem :
      (p : A → Bool) (a : A) (xs : List A) → Memᴰ a (select p xs) → Memᴰ a xs × (p a ≡ true)
  select-mem p a [] m = elim m [ ]
  select-mem p a (x ∷ xs) m = elim (Bool-cases (p x)) [
    | inl f ↦ kept f (select-mem p a xs) (rw f at m)
    | inr f ↦ let (n, t) = select-mem p a xs (rw f at m) in (Memᴰ.tail n, t)
  ]
    where
      kept :
          p x ≡ true
          → (Memᴰ a (select p xs) → Memᴰ a xs × (p a ≡ true))
          → Memᴰ a (x ∷ select p xs)
          → Memᴰ a (x ∷ xs) × (p a ≡ true)
      kept f ih (Memᴰ.head q) = (Memᴰ.head q, rw q f)
      kept f ih (Memᴰ.tail n) = let (n', t) = ih n in (Memᴰ.tail n', t)

  pub mem-select :
      (p : A → Bool) (a : A) (xs : List A) → Memᴰ a xs → p a ≡ true → Memᴰ a (select p xs)
  mem-select p a [] m e = elim m [ ]
  mem-select p a (x ∷ xs) (Memᴰ.head q) e = let f : p x ≡ true = rw q at e in rw f (Memᴰ.head q)
  mem-select p a (x ∷ xs) (Memᴰ.tail n) e = elim (Bool-cases (p x)) [
    | inl f ↦ rw f (Memᴰ.tail (mem-select p a xs n e))
    | inr f ↦ rw f (mem-select p a xs n e)
  ]

  pub mem-map {κ} :
      {B : Type κ} (f : A → B) (b : B) (xs : List A)
      → Memᴰ b (map f xs)
      → (a : A) × Memᴰ a xs × (b ≡ f a)
  mem-map f b [] m = elim m [ ]
  mem-map f b (x ∷ xs) (Memᴰ.head e) = (x, Memᴰ.head refl, e)
  mem-map f b (x ∷ xs) (Memᴰ.tail m) = let (a, n, e) = mem-map f b xs m in (a, Memᴰ.tail n, e)

  pub map-mem {κ} :
      {B : Type κ} (f : A → B) (a : A) (xs : List A) → Memᴰ a xs → Memᴰ (f a) (map f xs)
  map-mem f a [] m = elim m [ ]
  map-mem f a (x ∷ xs) (Memᴰ.head e) = Memᴰ.head (rw e)
  map-mem f a (x ∷ xs) (Memᴰ.tail m) = Memᴰ.tail (map-mem f a xs m)

  -- A failed `all` has a witness.
  pub all-eq_false :
      (p : A → Bool) (xs : List A) → all p xs ≡ false → (a : A) × Memᴰ a xs × (p a ≡ false)
  all-eq_false p [] e = absurd (cc e)
  all-eq_false p (x ∷ xs) e = elim (Bool-cases (p x)) [
    | inr fails ↦ (x, Memᴰ.head refl, fails)
    | inl holds ↦ let (a, m, f) = all-eq_false p xs (ground arith) in (a, Memᴰ.tail m, f)
  ]

  pub contains-mem : ⦃key : Key A⦄ (a : A) (xs : List A) → contains a xs ≡ true → Memᴰ a xs
  unfolding contains
  contains-mem a [] e = absurd (cc e)
  contains-mem ⦃key⦄ a (x ∷ xs) e = elim (key.dec a x) [
    | yes p ↦ Memᴰ.head p
    | no n ↦ Memᴰ.tail (contains-mem a xs (ground arith))
  ]

pub some_member {ℓ} :
    {K : Type ℓ} ⦃key : Key K⦄ (ks : List K)
    → is_empty ks ≡ false
    → (k : K) × (contains k ks ≡ true)
unfolding contains
some_member [] h = absurd (cc h)
some_member (k ∷ ks) h = (k, ground arith)
