-- ===== src/Recommend/Years.antt =====
-- Which papers are recommended (agents/recommender.py).
use mas_research.Base.{
  some, false, ap, ℕ, zero, suc, ◌≤◌, Bool, true, ◌≡◌, Option, List, [], ◌∷◌, take, length, arith,
  Bool-cases, inl, inr,
}
use mathlib.Core.List.{Memᴰ}
use mas_research.Base.Members.{select-mem, mem-map}
use mas_research.Schemas.{Citation}
use mas_research.Base.Int.{ℤ, pos, negsuc, ◌≤ℤ◌}
use mas_research.Values.{int, Value, Fields, Float, get}
use mas_research.Recommend.{
  less, CorpusEntry, year_ok, year_bounds, top_n_of, Scored, insert_scored, sort_scored, Engine,
  citation_of, with_score, recommend,
}

module _ (before : Scored → Scored → Bool) where
  insert_scored-mem :
      (x y : Scored) (ys : List Scored) → Memᴰ x (insert_scored before y ys) → Memᴰ x (y ∷ ys)
  unfolding insert_scored
  insert_scored-mem x y [] m = m
  insert_scored-mem x y (z ∷ zs) m = elim (Bool-cases (before z y)) [
    | inl e ↦ later (insert_scored-mem x y zs) (rw (e, insert_scored) at m)
    | inr e ↦ rw (e, insert_scored) at m
  ]
    where
      skip : Memᴰ x (y ∷ zs) → Memᴰ x (y ∷ z ∷ zs)
      skip (Memᴰ.head p) = Memᴰ.head p
      skip (Memᴰ.tail n) = Memᴰ.tail (Memᴰ.tail n)

      later :
          (Memᴰ x (insert_scored before y zs) → Memᴰ x (y ∷ zs))
          → Memᴰ x (z ∷ insert_scored before y zs)
          → Memᴰ x (y ∷ z ∷ zs)
      later ih (Memᴰ.head p) = Memᴰ.tail (Memᴰ.head p)
      later ih (Memᴰ.tail n) = skip (ih n)

  sort_scored-mem : (x : Scored) (xs : List Scored) → Memᴰ x (sort_scored before xs) → Memᴰ x xs
  unfolding sort_scored
  sort_scored-mem x [] m = m
  sort_scored-mem x (y ∷ ys) m = elim (insert_scored-mem x y (sort_scored before ys) m) [
    | Memᴰ.head p ↦ Memᴰ.head p
    | Memᴰ.tail n ↦ Memᴰ.tail (sort_scored-mem x ys n)
  ]

take-mem : (n : ℕ) (x : Scored) (xs : List Scored) → Memᴰ x (take n xs) → Memᴰ x xs
take-mem zero x xs m = elim m [ ]
take-mem (suc n) x [] m = m
take-mem (suc n) x (y ∷ ys) (Memᴰ.head p) = Memᴰ.head p
take-mem (suc n) x (y ∷ ys) (Memᴰ.tail m) = Memᴰ.tail (take-mem n x ys m)

with_score-mem :
    (score : CorpusEntry → Float) (x : Scored) (es : List CorpusEntry)
    → Memᴰ x (with_score score es)
    → Memᴰ x.0 es
with_score-mem score x [] m = elim m [ ]
with_score-mem score x (e ∷ es) (Memᴰ.head p) = Memᴰ.head (ap (λ y. y.0) p)
with_score-mem score x (e ∷ es) (Memᴰ.tail m) = Memᴰ.tail (with_score-mem score x es m)

length-take : (n : ℕ) (xs : List Scored) → length (take n xs) ≤ n
length-take zero xs = omega arith
length-take (suc n) [] = omega arith
length-take (suc n) (x ∷ xs) = omega (arith, length-take n xs)

not_less : (a b : ℤ) → less a b ≡ false → b ≤ℤ a
not_less (pos m) (pos n) e = ground arith
not_less (pos m) (negsuc n) e = omega arith
not_less (negsuc m) (pos n) e = absurd (cc e)
not_less (negsuc m) (negsuc n) e = ground arith

year_ok-bounds :
    (y : ℤ) (filters : Fields)
    → year_ok (some y) (year_bounds filters).0 (year_bounds filters).1 ≡ true
    → ((m : ℤ) → get filters "year_min" ≡ some (int m) → m ≤ℤ y)
      × ((m : ℤ) → get filters "year_max" ≡ some (int m) → y ≤ℤ m)
unfolding year_ok year_bounds
year_ok-bounds y filters e =
    (λ m f. not_less y m (ground (arith, rw f at e)), λ m f. not_less m y (ground (arith, f, e)))

-- A citation that is of an entry of the corpus whose year, if it has one, is within the bounds.
pub record IsAllowed (corpus : List CorpusEntry) (filters : Fields) (c : Citation) : Type 0 where
  pub entry : CorpusEntry
  pub member : Memᴰ entry corpus
  pub not_before : (y m : ℤ) → entry.year ≡ some y → get filters "year_min" ≡ some (int m) → m ≤ℤ y
  pub not_after : (y m : ℤ) → entry.year ≡ some y → get filters "year_max" ≡ some (int m) → y ≤ℤ m
  pub same_year : c.year ≡ entry.year
  pub same_title : c.title ≡ entry.title

-- Every citation that is recommended is one of the corpus, with its title and its year, and a known
-- year is not below the filters' `year_min` and not above their `year_max`, where these are integers,
-- whatever the scores and their order are. An entry without a year passes every filter.
pub recommend-IsAllowed :
    (engine : Engine) (corpus : List CorpusEntry) (vector : List Float) (filters : Fields)
    (raw_n : Option Value) (c : Citation)
    → Memᴰ c (recommend engine corpus vector filters raw_n)
    → IsAllowed corpus filters c
unfolding recommend citation_of
recommend-IsAllowed engine corpus vector filters raw_n c m =
    let (x, n, made) = mem-map (citation_of engine.rounded) c _ m in
    let k =
      with_score-mem _ x _ (sort_scored-mem engine.before x _ (take-mem (top_n_of raw_n) x _ n)) in
    let (member, allowed) = select-mem _ x.0 corpus k in
    record {
      entry = x.0;
      member = member;
      not_before = λ y m known. (year_ok-bounds y filters (rw known at allowed)).0 m;
      not_after = λ y m known. (year_ok-bounds y filters (rw known at allowed)).1 m;
      same_year = ap (λ d. d.year) made;
      same_title = ap (λ d. d.title) made;
    }
