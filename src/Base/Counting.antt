-- ===== src/Base/Counting.antt =====
-- How many items of a list pass a test, and how the updates of a dict change that.
use mas_research.Base.Keys.{Key}
use mas_research.Base.Lists.{length}
use mas_research.Base.Dict.{Dict, lookup, insert, erase}
use Prim.Native.Nat.{ℕ, ◌+◌, ◌≤◌}
use mathlib.Core.Path.{◌≡◌}
use mathlib.Core.Bool.{Bool, true, false}
use mathlib.Core.Option.{some}
use mathlib.Core.List.{List, [], ◌∷◌, Memᴰ}
use native.Mathlib.Omega.{arith}

abbrev pub tally : Bool → ℕ
tally true = 1
tally false = 0

module _ {ℓ} {A : Type ℓ} where
  unfoldable pub count_if : (A → Bool) → List A → ℕ
  count_if p [] = 0
  count_if p (x ∷ xs) = tally (p x) + count_if p xs

  pub count_if-le-length : (p : A → Bool) (xs : List A) → count_if p xs ≤ length xs
  unfolding count_if
  count_if-le-length p [] = omega arith
  count_if-le-length p (x ∷ xs) = ground (arith, count_if-le-length p xs)

  module _ (p q : A → Bool) (imp : (x : A) → p x ≡ true → q x ≡ true) where
    pub count_if_mono : (xs : List A) → count_if p xs ≤ count_if q xs
    unfolding count_if
    count_if_mono [] = omega arith
    count_if_mono (x ∷ xs) = ground (arith, imp x, count_if_mono xs)

    pub count_if_strict :
        (a : A) (xs : List A)
        → Memᴰ a xs
        → p a ≡ false
        → q a ≡ true
        → count_if p xs + 1 ≤ count_if q xs
    unfolding count_if
    count_if_strict a [] m h k = elim m [ ]
    count_if_strict a (x ∷ xs) (Memᴰ.head e) h k = rw (← e) (ground (arith, count_if_mono xs))
    count_if_strict a (x ∷ xs) (Memᴰ.tail m) h k = ground (arith, imp x, count_if_strict a xs m h k)

module _ {ℓ} {K V : Type ℓ} ⦃key : Key K⦄ (p : V → Bool) where
  abbrev pub value_test : K × V → Bool
  value_test e = p e.1

  pub count_if-insert-le :
      (k : K) (v : V) (d : Dict K V)
      → p v ≡ false
      → count_if value_test (insert k v d) ≤ count_if value_test d
  unfolding count_if insert
  count_if-insert-le k v [] h = ground arith
  count_if-insert-le k v ((j, w) ∷ d) h = ground (arith, count_if-insert-le k v d h)

  pub count_if-erase-le :
      (k : K) (d : Dict K V) → count_if value_test (erase k d) ≤ count_if value_test d
  unfolding count_if erase
  count_if-erase-le k [] = ground arith
  count_if-erase-le k ((j, w) ∷ d) = ground (arith, count_if-erase-le k d)

  pub count_if-erase-lt :
      (k : K) (v : V) (d : Dict K V)
      → lookup k d ≡ some v
      → p v ≡ true
      → count_if value_test (erase k d) + 1 ≤ count_if value_test d
  unfolding count_if erase lookup
  count_if-erase-lt k v [] e h = cc
  count_if-erase-lt k v ((j, w) ∷ d) e h =
      ground (arith, count_if-erase-le k d, count_if-erase-lt k v d)
