-- ===== src/Base/Keys.antt =====
-- Types whose values a program compares with `==`, and the tests of membership on them.
use Prim.Native.Nat.{ℕ, Ordering}
use Prim.Native.String.{String, compare}
use mathlib.Core.Path.{◌≡◌, refl, ap}
use mathlib.Core.Bool.{Bool, true, false}
use mathlib.Core.List.{List, [], ◌∷◌}
use native.Mathlib.Decide.{ℕ_discrete}
use text.Mathlib.TextEquality.{path_by_compare}
use text.Mathlib.TextPositions.{compare_refl}

-- Decidable equality, as an interface with one decision.
pub record Key {ℓ} (A : Type ℓ) : Type ℓ where
  pub dec : Discrete A

abbrev gt≢eq : Ordering → Type 0
gt≢eq Ordering.eq = Unit
gt≢eq _ = ⊥

string_dec_of : (s t : String) (o : Ordering) → compare s t ≡ o → Dec (s ≡ t)
string_dec_of s t Ordering.eq e = yes (path_by_compare s t e)
string_dec_of s t Ordering.lt e =
    no (λ p. cc (e, compare_refl t, ap (λ (x : String). compare x t) p))
string_dec_of s t Ordering.gt e =
    no (λ p. cc (e, compare_refl t, ap (λ (x : String). compare x t) p))

unfoldable pub string_dec : Discrete String
unfolding string_dec_of
string_dec s t = string_dec_of s t (compare s t) refl

instance abbrev pub string_key : Key String
string_key = record { dec = string_dec }

instance abbrev pub nat_key : Key ℕ
nat_key = record { dec = ℕ_discrete }

-- `a == b`
abbrev pub same {ℓ} : {A : Type ℓ} ⦃key : Key A⦄ → A → A → Bool
same ⦃key⦄ a b = elim (key.dec a b) [ yes _ ↦ true | no _ ↦ false ]

unfoldable pub list_dec_cons :
    (x y : ℕ) (xs ys : List ℕ)
    → Dec (x ≡ y)
    → Dec (xs ≡ ys)
    → Dec (◌≡◌ {A = List ℕ} (x ∷ xs) (y ∷ ys))
list_dec_cons x y xs ys (yes p) (yes q) = yes (cc (p, q))
list_dec_cons x y xs ys (no p) _ = no (λ e. p (cc e))
list_dec_cons x y xs ys (yes _) (no q) = no (λ e. q (cc e))

-- A text that the program walks is the list of its code points.
unfoldable pub list_dec : Discrete (List ℕ)
unfolding list_dec_cons
list_dec [] [] = yes refl
list_dec [] (y ∷ ys) = no (λ e. cc e)
list_dec (x ∷ xs) [] = no (λ e. cc e)
list_dec (x ∷ xs) (y ∷ ys) = list_dec_cons x y xs ys (ℕ_discrete x y) (list_dec xs ys)

instance abbrev pub text_key : Key (List ℕ)
text_key = record { dec = list_dec }
