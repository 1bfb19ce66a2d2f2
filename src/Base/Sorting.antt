-- ===== src/Base/Sorting.antt =====
-- `sorted` by insertion, for an order that is given.
use mathlib.Core.Path.{◌≡◌, refl}
use mathlib.Core.Bool.{Bool, true, not, ◌&&◌}
use mathlib.Core.List.{List, [], ◌∷◌}
use native.Mathlib.Omega.{arith}
use mas_research.Base.Tests.{if◌then◌else◌}
use mas_research.Base.Lists.{all}

module _ {ℓ} {A : Type ℓ} (before : A → A → Bool) where
  unfoldable pub insert_by : A → List A → List A
  insert_by x [] = x ∷ []
  insert_by x (y ∷ ys) = if before y x then y ∷ insert_by x ys else x ∷ y ∷ ys

  unfoldable pub sort_by : List A → List A
  unfolding insert_by
  sort_by [] = []
  sort_by (x ∷ xs) = insert_by x (sort_by xs)

  -- No item stands after one that it comes before.
  abbrev pub in_order : List A → Bool
  in_order [] = true
  in_order (x ∷ xs) = all (λ y. not (before y x)) xs && in_order xs

  pub sort_by-in_order : (xs : List A) → in_order xs ≡ true → sort_by xs ≡ xs
  unfolding sort_by insert_by
  sort_by-in_order [] e = refl
  sort_by-in_order (x ∷ []) e = refl
  sort_by-in_order (x ∷ y ∷ ys) e = rw (sort_by-in_order (y ∷ ys) (ground arith)) (ground arith)
