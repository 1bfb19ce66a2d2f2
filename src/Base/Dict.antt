-- ===== src/Base/Dict.antt =====
-- A Python dict in insertion order, and a set as a list without repeats.
use mathlib.Core.Path.{◌≡◌, refl}
use mathlib.Core.Logic.{ite}
use mathlib.Core.Bool.{Bool, true, false, ◌&&◌, ◌||◌, not}
use mathlib.Core.Option.{Option, none, some}
use mathlib.Core.List.{List, [], ◌∷◌}
use native.Mathlib.Omega.{arith}
use mas_research.Base.Tests.{is_some}
use mas_research.Base.Keys.{Key, same}

abbrev pub Dict {ℓ} : Type ℓ → Type ℓ → Type ℓ
Dict K V = List (K × V)

module _ {ℓ} {K V : Type ℓ} ⦃key : Key K⦄ where
  -- `d.get(k)`
  unfoldable pub lookup : K → Dict K V → Option V
  lookup k [] = none
  lookup k ((j, v) ∷ d) = ite (key.dec k j) (some v) (lookup k d)

  -- `d[k] = v`
  unfoldable pub insert : K → V → Dict K V → Dict K V
  insert k v [] = (k, v) ∷ []
  insert k v ((j, w) ∷ d) = ite (key.dec k j) ((j, v) ∷ d) ((j, w) ∷ insert k v d)

  -- `d.pop(k, None)`
  unfoldable pub erase : K → Dict K V → Dict K V
  erase k [] = []
  erase k ((j, w) ∷ d) = ite (key.dec k j) (erase k d) ((j, w) ∷ erase k d)

  -- `k in d`
  abbrev pub has : K → Dict K V → Bool
  has k d = is_some (lookup k d)

  -- `list(d)`
  abbrev pub keys : Dict K V → List K
  keys [] = []
  keys ((k, v) ∷ d) = k ∷ keys d

  pub lookup-insert :
      (j k : K) (v : V) (d : Dict K V)
      → lookup j (insert k v d) ≡ ite (key.dec j k) (some v) (lookup j d)
  unfolding lookup insert
  lookup-insert j k v [] = refl
  lookup-insert j k v ((i, w) ∷ d) = ground (arith, lookup-insert j k v d)

  pub lookup-erase :
      (j k : K) (d : Dict K V) → lookup j (erase k d) ≡ ite (key.dec j k) none (lookup j d)
  unfolding lookup erase
  lookup-erase j k [] = ground arith
  lookup-erase j k ((i, w) ∷ d) = ground (arith, lookup-erase j k d)

module _ {ℓ} {K : Type ℓ} ⦃key : Key K⦄ where
  -- `k in s`
  unfoldable pub contains : K → List K → Bool
  contains k [] = false
  contains k (j ∷ s) = same k j || contains k s

  -- `s.add(k)`
  unfoldable pub add : K → List K → List K
  unfolding contains
  add k s = elim (contains k s) [ true ↦ s | false ↦ k ∷ s ]

  -- `s.discard(k)`
  unfoldable pub discard : K → List K → List K
  discard k [] = []
  discard k (j ∷ s) = ite (key.dec k j) (discard k s) (j ∷ discard k s)

  pub contains-add : (j k : K) (s : List K) → contains j (add k s) ≡ (same j k || contains j s)
  unfolding contains add
  contains-add j k s = elim (key.dec j k) [ yes p ↦ ground arith | no p ↦ ground arith ]

  pub contains-discard :
      (j k : K) (s : List K) → contains j (discard k s) ≡ (not (same j k) && contains j s)
  unfolding contains discard
  contains-discard j k [] = ground arith
  contains-discard j k (i ∷ s) = ground (arith, contains-discard j k s)
