-- ===== src/Terms/Sums.antt =====
-- Sums over lists and dicts of lemmas (agents/terminology.py).
use mas_research.Text.{Text}
use mas_research.Base.{
  ℕ, ◌+◌, ◌≤◌, ◌≡◌, refl, ap, or_else, List, [], ◌∷◌, ◌++◌, text_key, same, arith, list_dec,
  if◌then◌else◌,
}
use mas_research.Base.Dict.{Dict, lookup, insert, lookup-insert, has, keys}
use mas_research.Base.Counting.{tally}

abbrev pub sum_by : (Text → ℕ) → List Text → ℕ
sum_by f [] = 0
sum_by f (x ∷ xs) = f x + sum_by f xs

abbrev pub one_at : Text → Text → ℕ
one_at j x = tally (same j x)

-- How often a lemma is in a list.
abbrev pub count : Text → List Text → ℕ
count j xs = sum_by (one_at j) xs

pub sum_by-append :
    (f : Text → ℕ) (xs ys : List Text) → sum_by f (xs ++ ys) ≡ sum_by f xs + sum_by f ys
sum_by-append f [] ys = omega arith
sum_by-append f (x ∷ xs) ys = omega (arith, sum_by-append f xs ys)

-- The list without the first `x`.
remove : Text → List Text → List Text
remove x [] = []
remove x (y ∷ ys) = elim (list_dec x y) [ yes p ↦ ys | no n ↦ y ∷ remove x ys ]

sum_by-remove :
    (f : Text → ℕ) (x : Text) (ys : List Text)
    → 1 ≤ count x ys
    → sum_by f ys ≡ f x + sum_by f (remove x ys)
unfolding remove
sum_by-remove f x [] h = absurd (omega arith)
sum_by-remove f x (y ∷ ys) h = elim (list_dec x y) [
  | yes p ↦ ground (arith, ap f p)
  | no n ↦ ground (arith, sum_by-remove f x ys)
]

-- Lists that have each lemma as often have the same sums.
pub sum_by_same :
    (f : Text → ℕ) (xs ys : List Text)
    → ((j : Text) → count j xs ≡ count j ys)
    → sum_by f xs ≡ sum_by f ys
sum_by_same f [] [] h = refl
sum_by_same f [] (y ∷ ys) h = absurd (ground (arith, h y))
sum_by_same f (x ∷ xs) ys h =
    let there : 1 ≤ count x ys = ground (arith, h x) in
    let rest =
      sum_by_same f xs (remove x ys)
        (λ j. omega (arith, h j, sum_by-remove (one_at j) x ys there)) in
    omega (arith, rest, sum_by-remove f x ys there)

-- The sum of the values of a dict.
abbrev pub total : Dict Text ℕ → ℕ
total [] = 0
total ((k, v) ∷ d) = v + total d

pub total-insert :
    (k : Text) (v : ℕ) (d : Dict Text ℕ)
    → total (insert k v d) + or_else (lookup k d) 0 ≡ total d + v
unfolding insert lookup
total-insert k v [] = omega arith
total-insert k v ((j, w) ∷ d) = elim (list_dec k j) [
  | yes p ↦ ground arith
  | no n ↦ ground (arith, total-insert k v d)
]

-- Each key once.
abbrev pub IsDict : {V : Type 0} → Dict Text V → Type 0
IsDict d = (j : Text) → count j (keys d) ≡ tally (has j d)

count-insert :
    {V : Type 0} (j k : Text) (v : V) (d : Dict Text V)
    → count j (keys (insert k v d)) ≡ count j (keys d) + (if has k d then 0 else one_at j k)
unfolding insert lookup
count-insert j k v [] = ground arith
count-insert j k v ((i, w) ∷ d) = elim (list_dec k i) [
  | yes p ↦ ground (arith, count-insert j k v d)
  | no n ↦ ground (arith, count-insert j k v d)
]

pub insert-IsDict :
    {V : Type 0} (k : Text) (v : V) (d : Dict Text V) → IsDict d → IsDict (insert k v d)
insert-IsDict k v d h j = ground (arith, count-insert j k v d, lookup-insert j k v d, h j)
