-- ===== src/Terms/Total.antt =====
-- Merging keeps the sum of the frequencies (agents/terminology.py).
use mas_research.Text.{Text, strip}
use mas_research.Base.{
  ℕ, ◌+◌, ◌≤◌, ◌≡◌, refl, Bool, not, or_else, List, [], ◌∷◌, text_key, arith, Bool-cases, inl, inr,
  list_dec,
}
use mas_research.Base.Dict.{Dict, lookup, insert, lookup-insert, has, keys}
use mas_research.Base.Counting.{tally, count_if}
use mathlib.Core.List.{Memᴰ}
use mas_research.Terms.{
  Counts, Candidate, is_dropped, count_candidate, count_candidates, count_chunks,
}
use mas_research.Terms.Sums.{
  sum_by, sum_by_same, one_at, count, total, total-insert, IsDict, insert-IsDict,
}
use mas_research.Terms.Groups.{sum_groups, sum_groups-members_by_key, group_all-count}
use mas_research.Terms.Merge.{
  group_all, members_by_key, merge_group, merge_groups, merge_near_duplicates, representative,
  representative-mem, frequency_of, total_frequency,
}

pub mem-count : (x : Text) (xs : List Text) → Memᴰ x xs → 1 ≤ count x xs
mem-count x [] m = elim m [ ]
mem-count x (y ∷ ys) (Memᴰ.head p) = ground arith
mem-count x (y ∷ ys) (Memᴰ.tail m) = omega (arith, mem-count x ys m)

sum_by_ext :
    (f g : Text → ℕ) (xs : List Text)
    → ((x : Text) → 1 ≤ count x xs → f x ≡ g x)
    → sum_by f xs ≡ sum_by g xs
sum_by_ext f g [] h = refl
sum_by_ext f g (x ∷ xs) h =
    let first : f x ≡ g x = h x (mem-count x (x ∷ xs) (Memᴰ.head refl)) in
    omega (arith, first, sum_by_ext f g xs (λ y m. h y (omega arith)))

value_at : Dict Text ℕ → Text → ℕ
value_at d k = or_else (lookup k d) 0

sum_by-keys :
    (d : Dict Text ℕ) → ((j : Text) → count j (keys d) ≤ 1) → sum_by (value_at d) (keys d) ≡ total d
unfolding value_at lookup
sum_by-keys [] h = refl
sum_by-keys ((k, v) ∷ d) h =
    let later = sum_by-keys d (λ j. omega (arith, h j)) in
    let agree =
      sum_by_ext (value_at ((k, v) ∷ d)) (value_at d) (keys d) (λ j m. ground (arith, h j)) in
    ground (arith, later, agree)

total_frequency-sum_by :
    (counts : Counts) (ms : List Text) → total_frequency counts ms ≡ sum_by (frequency_of counts) ms
total_frequency-sum_by counts [] = refl
total_frequency-sum_by counts (m ∷ ms) = omega (arith, total_frequency-sum_by counts ms)

-- No lemma is in two of the groups that are left, or in one and in the merged map.
abbrev AreApart : Dict Text (List Text) → Dict Text ℕ → Type 0
AreApart groups merged = (j : Text) → tally (has j merged) + sum_groups (one_at j) groups ≤ 1

insert-AreApart :
    (rep k : Text) (n : ℕ) (ms : List Text) (groups : Dict Text (List Text)) (merged : Dict Text ℕ)
    → 1 ≤ count rep ms
    → AreApart ((k, ms) ∷ groups) merged
    → AreApart groups (insert rep n merged)
insert-AreApart rep k n ms groups merged m h j = elim (list_dec j rep) [
  | yes p ↦ ground (arith, lookup-insert j rep n merged, h rep)
  | no q ↦ ground (arith, lookup-insert j rep n merged, h j)
]

insert-total :
    (rep k : Text) (n : ℕ) (ms : List Text) (groups : Dict Text (List Text)) (merged : Dict Text ℕ)
    → 1 ≤ count rep ms
    → AreApart ((k, ms) ∷ groups) merged
    → total (insert rep n merged) ≡ total merged + n
insert-total rep k n ms groups merged m h = ground (arith, h rep, total-insert rep n merged)

merge_groups-total :
    (counts : Counts) (groups : Dict Text (List Text)) (merged : Counts)
    → AreApart groups merged.frequency
    → total (merge_groups counts groups merged).frequency
      ≡ total merged.frequency + sum_groups (frequency_of counts) groups
unfolding merge_groups merge_group
merge_groups-total counts [] merged h = omega arith
merge_groups-total counts ((k, []) ∷ rest) merged h =
    omega (arith, merge_groups-total counts rest merged (λ j. omega (arith, h j)))
merge_groups-total counts ((k, m ∷ ms) ∷ rest) merged h =
    let n = total_frequency counts (m ∷ ms) in
    let rep = representative counts m ms in
    let there = mem-count rep (m ∷ ms) (representative-mem counts m ms) in
    let apart = insert-AreApart rep k n (m ∷ ms) rest merged.frequency there h in
    omega (
      arith,
      merge_groups-total counts rest (merge_group counts (m ∷ ms) merged) apart,
      insert-total rep k n (m ∷ ms) rest merged.frequency there h,
      total_frequency-sum_by counts (m ∷ ms),
    )

apart_of_count :
    (xs : List (Text × Text)) (d : Dict Text ℕ)
    → IsDict d
    → ((j : Text) → count j (keys xs) ≡ count j (keys d))
    → AreApart (members_by_key xs []) []
unfolding lookup
apart_of_count xs d h same_count j =
    ground (arith, sum_groups-members_by_key (one_at j) xs [], same_count j, h j)

merge_near_duplicates-total :
    (counts : Counts)
    → IsDict counts.frequency
    → total (merge_near_duplicates counts).frequency ≡ total counts.frequency
unfolding merge_near_duplicates value_at
merge_near_duplicates-total counts h =
    let group_key = group_all (keys counts.frequency) [] in
    let once = group_all-count counts.frequency h in
    let apart = apart_of_count group_key counts.frequency h once in
    omega (
      arith,
      merge_groups-total counts (members_by_key group_key [])
          (record { frequency = []; chunk_ids = []; first_seen = [] }) apart,
      sum_groups-members_by_key (frequency_of counts) group_key [],
      sum_by_same (frequency_of counts) (keys group_key) (keys counts.frequency) once,
      sum_by-keys counts.frequency (λ j. ground (arith, h j)),
    )

abbrev pub no_counts : Counts
no_counts = record { frequency = []; chunk_ids = []; first_seen = [] }

module _ (lower : Text → Text) (stopwords : List Text) where
  -- The candidates that are not dropped.
  abbrev pub is_kept : Candidate → Bool
  is_kept c = not (is_dropped lower stopwords (strip (lower c.lemma)))

  abbrev pub kept_count : List (Text × List Candidate) → ℕ
  kept_count [] = 0
  kept_count ((chunk_id, cs) ∷ rest) = count_if is_kept cs + kept_count rest

  -- `counts` has each lemma once, and frequencies that sum up to `n`.
  abbrev pub Sums : ℕ → Counts → Type 0
  Sums n counts = IsDict counts.frequency × (total counts.frequency ≡ n)

  count_candidate-Sums :
      (chunk_id : Text) (c : Candidate) (n : ℕ) (counts : Counts)
      → Sums n counts
      → Sums (n + tally (is_kept c)) (count_candidate lower stopwords chunk_id c counts)
  unfolding count_candidate
  count_candidate-Sums chunk_id c n counts (d, e) =
      let lemma = strip (lower c.lemma) in
      let old = or_else (lookup lemma counts.frequency) 0 in
      elim (Bool-cases (is_dropped lower stopwords lemma)) [
        | inl p ↦ rw p (d, omega (arith, e))
        | inr p ↦ rw p (
          insert-IsDict lemma (old + 1) counts.frequency d,
          omega (arith, e, total-insert lemma (old + 1) counts.frequency),
        )
      ]

  count_candidates-Sums :
      (chunk_id : Text) (cs : List Candidate) (n : ℕ) (counts : Counts)
      → Sums n counts
      → Sums (n + count_if is_kept cs) (count_candidates lower stopwords chunk_id cs counts)
  unfolding count_candidates count_if
  count_candidates-Sums chunk_id [] n counts (d, e) = (d, omega (arith, e))
  count_candidates-Sums chunk_id (c ∷ cs) n counts h =
      let (d, e) =
        count_candidates-Sums chunk_id cs (n + tally (is_kept c))
          (count_candidate lower stopwords chunk_id c counts)
          (count_candidate-Sums chunk_id c n counts h) in
      (d, omega (arith, e))

  pub count_chunks-Sums :
      (chunks : List (Text × List Candidate)) (n : ℕ) (counts : Counts)
      → Sums n counts
      → Sums (n + kept_count chunks) (count_chunks lower stopwords chunks counts)
  unfolding count_chunks
  count_chunks-Sums [] n counts (d, e) = (d, omega (arith, e))
  count_chunks-Sums ((chunk_id, cs) ∷ rest) n counts h =
      let (d, e) =
        count_chunks-Sums rest (n + count_if is_kept cs)
          (count_candidates lower stopwords chunk_id cs counts)
          (count_candidates-Sums chunk_id cs n counts h) in
      (d, omega (arith, e))

  -- After counting and merging, the frequencies sum up to the number of the candidates that are not
  -- dropped: merging near-duplicate lemmas loses no occurrence and counts none twice.
  pub merge_near_duplicates-count_chunks :
      (chunks : List (Text × List Candidate))
      → total (merge_near_duplicates (count_chunks lower stopwords chunks no_counts)).frequency
        ≡ kept_count chunks
  unfolding lookup
  merge_near_duplicates-count_chunks chunks =
      let (d, e) = count_chunks-Sums chunks 0 no_counts ((λ j. refl), refl) in
      omega
        (arith, merge_near_duplicates-total (count_chunks lower stopwords chunks no_counts) d, e)
