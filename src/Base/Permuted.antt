-- ===== src/Base/Permuted.antt =====
-- Sorting by a strict total order forgets the order of the list.
use mathlib.Core.Path.{◌≡◌, refl, ◌∙◌}
use mathlib.Core.Bool.{Bool, true, false}
use mathlib.Core.List.{List, [], ◌∷◌, Permᴰ}
use native.Mathlib.Omega.{arith}
use mas_research.Base.Tests.{if◌then◌else◌}
use mas_research.Base.Sorting.{insert_by, sort_by}

module _ {ℓ} {A : Type ℓ} (before : A → A → Bool)
    (asym : (a b : A) → before a b ≡ true → before b a ≡ false)
    (total : (a b : A) → before a b ≡ false → before b a ≡ false → a ≡ b)
    (trans : (a b c : A) → before a b ≡ true → before b c ≡ true → before a c ≡ true) where
  either_first :
      (x y : A) (zs : List A)
      → (if before y x then y ∷ x ∷ zs else x ∷ y ∷ zs)
        ≡ (if before x y then x ∷ y ∷ zs else y ∷ x ∷ zs)
  either_first x y zs = grind (arith, asym x y, asym y x, total x y)

  insert_by_comm :
      (x y : A) (zs : List A)
      → insert_by before x (insert_by before y zs) ≡ insert_by before y (insert_by before x zs)
  unfolding insert_by
  insert_by_comm x y [] = either_first x y []
  insert_by_comm x y (z ∷ zs) =
      grind (arith, insert_by_comm x y zs, asym x y, asym y x, total x y, trans z x y, trans z y x)

  pub sort_by-perm : (xs ys : List A) → Permᴰ xs ys → sort_by before xs ≡ sort_by before ys
  unfolding sort_by
  sort_by-perm [] [] Permᴰ.nil = refl
  sort_by-perm (x ∷ xs) (y ∷ ys) (Permᴰ.cons e p) = cc (e, sort_by-perm xs ys p)
  sort_by-perm (x ∷ y ∷ zs) (v ∷ w ∷ us) (Permᴰ.swap e k) =
      cc (e, k, insert_by_comm x y (sort_by before zs))
  sort_by-perm xs zs (Permᴰ.trans {l₂ = ys} p q) = sort_by-perm xs ys p ∙ sort_by-perm ys zs q
