-- ===== src/Terms/Merge.antt =====
-- Merging near-duplicate lemmas into groups (agents/terminology.py, `_merge_near_duplicates`).
use mas_research.Text.{Text, text_less}
use mas_research.Base.{
  ℕ, ◌+◌, ◌≤◌, ◌==◌, Bool, false, not, ◌&&◌, ◌||◌, ◌≡◌, refl, Option, none, some, or_else, List, [],
  ◌∷◌, ◌++◌, ltb, if◌then◌else◌, text_key, arith, Bool-cases, inl, inr,
}
use mas_research.Base.Dict.{Dict, lookup, insert, has, keys, add}
use mathlib.Core.List.{Memᴰ}
use mas_research.Terms.{are_near_duplicate_lemmas, Counts}

-- Each lemma has a token, so the test does not raise.
abbrev pub is_near : Text → Text → Bool
is_near a b = or_else (are_near_duplicate_lemmas a b) false

-- The inner loop: the later lemmas that are near `lemma_a` and have no group yet go to its group.
unfoldable pub group_rest : Text → List Text → Dict Text Text → Dict Text Text
unfolding are_near_duplicate_lemmas
group_rest lemma_a [] group_key = group_key
group_rest lemma_a (b ∷ bs) group_key =
    group_rest lemma_a bs
      (if not (has b group_key) && is_near lemma_a b then insert b lemma_a group_key else group_key)

unfoldable pub group_all : List Text → Dict Text Text → Dict Text Text
unfolding group_rest
group_all [] group_key = group_key
group_all (a ∷ rest) group_key =
    group_all rest (if has a group_key then group_key else group_rest a rest (insert a a group_key))

-- `groups.setdefault(key, []).append(lemma)`
unfoldable pub members_by_key : List (Text × Text) → Dict Text (List Text) → Dict Text (List Text)
members_by_key [] groups = groups
members_by_key ((lemma, key) ∷ rest) groups =
    members_by_key rest (insert key (or_else (lookup key groups) [] ++ lemma ∷ []) groups)

abbrev pub frequency_of : Counts → Text → ℕ
frequency_of counts lemma = or_else (lookup lemma counts.frequency) 0

-- `(-frequency[a], a) < (-frequency[b], b)`
abbrev pub ranks_before : Counts → Text → Text → Bool
ranks_before counts a b =
    ltb (frequency_of counts b) (frequency_of counts a)
    || ((frequency_of counts a == frequency_of counts b) && text_less a b)

-- `min(members, key=...)` of the members `best ∷ rest`.
unfoldable pub representative : Counts → Text → List Text → Text
representative counts best [] = best
representative counts best (m ∷ ms) =
    representative counts (if ranks_before counts m best then m else best) ms

abbrev pub total_frequency : Counts → List Text → ℕ
total_frequency counts [] = 0
total_frequency counts (m ∷ ms) = frequency_of counts m + total_frequency counts ms

abbrev pub add_all : List Text → List Text → List Text
add_all [] ids = ids
add_all (i ∷ is) ids = add_all is (add i ids)

abbrev pub union_chunk_ids : Counts → List Text → List Text → List Text
union_chunk_ids counts [] ids = ids
union_chunk_ids counts (m ∷ ms) ids =
    union_chunk_ids counts ms (add_all (or_else (lookup m counts.chunk_ids) []) ids)

abbrev pub copy_first_seen :
    Option (Text × Text × Text)
    → Text
    → Dict Text (Text × Text × Text)
    → Dict Text (Text × Text × Text)
copy_first_seen none rep d = d
copy_first_seen (some seen) rep d = insert rep seen d

-- One group's entry in the merged maps. No group is empty.
unfoldable pub merge_group : Counts → List Text → Counts → Counts
unfolding representative
merge_group counts [] merged = merged
merge_group counts (m ∷ ms) merged =
    let rep = representative counts m ms in
    record {
      frequency = insert rep (total_frequency counts (m ∷ ms)) merged.frequency;
      chunk_ids = insert rep (union_chunk_ids counts (m ∷ ms) []) merged.chunk_ids;
      first_seen = copy_first_seen (lookup rep counts.first_seen) rep merged.first_seen;
    }

unfoldable pub merge_groups : Counts → Dict Text (List Text) → Counts → Counts
unfolding merge_group
merge_groups counts [] merged = merged
merge_groups counts ((key, members) ∷ rest) merged =
    merge_groups counts rest (merge_group counts members merged)

unfoldable pub merge_near_duplicates : Counts → Counts
unfolding group_all members_by_key merge_groups
merge_near_duplicates counts =
    merge_groups counts (members_by_key (group_all (keys counts.frequency) []) [])
      (record { frequency = []; chunk_ids = []; first_seen = [] })

representative-best :
    (counts : Counts) (best : Text) (ms : List Text)
    → frequency_of counts best ≤ frequency_of counts (representative counts best ms)
unfolding representative
representative-best counts best [] = omega arith
representative-best counts best (m ∷ ms) = elim (Bool-cases (ranks_before counts m best)) [
  | inl e ↦
      let ih = representative-best counts m ms in
      let step : frequency_of counts best ≤ frequency_of counts m = ground arith in
      rw e (omega (arith, ih, step))
  | inr e ↦ rw e (representative-best counts best ms)
]

pub representative-mem :
    (counts : Counts) (best : Text) (ms : List Text)
    → Memᴰ (representative counts best ms) (best ∷ ms)
unfolding representative
representative-mem counts best [] = Memᴰ.head refl
representative-mem counts best (m ∷ ms) = elim (Bool-cases (ranks_before counts m best)) [
  | inl e ↦ rw e (Memᴰ.tail (representative-mem counts m ms))
  | inr e ↦ rw e (skip (representative-mem counts best ms))
]
  where
    skip : {x : Text} → Memᴰ x (best ∷ ms) → Memᴰ x (best ∷ m ∷ ms)
    skip (Memᴰ.head p) = Memᴰ.head p
    skip (Memᴰ.tail n) = Memᴰ.tail (Memᴰ.tail n)

representative-bound :
    (counts : Counts) (best : Text) (ms : List Text) (m : Text)
    → Memᴰ m (best ∷ ms)
    → frequency_of counts m ≤ frequency_of counts (representative counts best ms)
unfolding representative
representative-bound counts best ms m (Memᴰ.head p) = rw p (representative-best counts best ms)
representative-bound counts best [] m (Memᴰ.tail n) = elim n [ ]
representative-bound counts best (n ∷ ns) m (Memᴰ.tail h) =
    elim (Bool-cases (ranks_before counts n best)) [
      | inl e ↦ rw e (representative-bound counts n ns m h)
      | inr e ↦ rw e (later e h (λ t. representative-bound counts best ns m (Memᴰ.tail t)))
    ]
  where
    later :
        ranks_before counts n best ≡ false
        → Memᴰ m (n ∷ ns)
        → (Memᴰ m ns → frequency_of counts m ≤ frequency_of counts (representative counts best ns))
        → frequency_of counts m ≤ frequency_of counts (representative counts best ns)
    later e (Memᴰ.head p) ih =
        let step : frequency_of counts n ≤ frequency_of counts best = ground arith in
        rw p (omega (arith, step, representative-best counts best ns))
    later e (Memᴰ.tail t) ih = ih t

-- The lemma that stands for a group is one of the group, and no lemma of the group is more frequent.
pub representative-frequency :
    (counts : Counts) (best : Text) (ms : List Text) (m : Text)
    → Memᴰ m (best ∷ ms)
    → Memᴰ (representative counts best ms) (best ∷ ms)
      × (frequency_of counts m ≤ frequency_of counts (representative counts best ms))
representative-frequency counts best ms m h =
    (representative-mem counts best ms, representative-bound counts best ms m h)
