-- ===== src/Terms/Present.antt =====
-- Each counted lemma has its chunks and its first occurrence (agents/terminology.py).
use mas_research.Text.{Text, strip}
use mas_research.Base.{
  ◌+◌, ◌≤◌, ◌≡◌, refl, sym, ap, ◌∙◌, true, false, or_else, is_some, List, [], ◌∷◌, text_key, arith,
  Option-cases, inl, inr, list_dec, is_empty,
}
use mas_research.Base.Dict.{Dict, lookup, lookup-insert, has, keys, contains, add}
use mathlib.Core.List.{Memᴰ}
use mas_research.Terms.{Counts, Candidate, count_candidate, count_candidates, count_chunks}
use mas_research.Terms.Sums.{one_at, IsDict}
use mas_research.Terms.Groups.{sum_groups, sum_groups-members_by_key, group_all-count}
use mas_research.Terms.Total.{mem-count}
use mas_research.Terms.Merge.{
  group_all, members_by_key, merge_group, merge_groups, merge_near_duplicates, representative,
  representative-mem, total_frequency, add_all, union_chunk_ids,
}

abbrev pub ids_of : Counts → Text → List Text
ids_of counts lemma = or_else (lookup lemma counts.chunk_ids) []

-- A counted lemma has a chunk and a first occurrence.
abbrev pub IsComplete : Counts → Type 0
IsComplete counts =
    (j : Text)
    → has j counts.frequency ≡ true
    → (has j counts.first_seen ≡ true) × (is_empty (ids_of counts j) ≡ false)

is_empty-add : (k : Text) (s : List Text) → is_empty (add k s) ≡ false
unfolding add contains
is_empty-add k [] = refl
is_empty-add k (x ∷ s) = ground arith

module _ (lower : Text → Text) (stopwords : List Text) where
  count_candidate-IsComplete :
      (chunk_id : Text) (c : Candidate) (counts : Counts)
      → IsComplete counts
      → IsComplete (count_candidate lower stopwords chunk_id c counts)
  unfolding count_candidate
  count_candidate-IsComplete chunk_id c counts h j e =
      let lemma = strip (lower c.lemma) in
      let ids = or_else (lookup lemma counts.chunk_ids) [] in
      elim (list_dec j lemma) [
        | yes p ↦ ground (
          arith,
          h j,
          lookup-insert j lemma (or_else (lookup lemma counts.frequency) 0 + 1) counts.frequency,
          lookup-insert j lemma (add chunk_id ids) counts.chunk_ids,
          is_empty-add chunk_id ids,
          lookup-insert j lemma (c.text, c.label, chunk_id) counts.first_seen,
          ap (λ k. has k counts.first_seen) p,
        )
        | no n ↦ ground (
          arith,
          h j,
          lookup-insert j lemma (or_else (lookup lemma counts.frequency) 0 + 1) counts.frequency,
          lookup-insert j lemma (add chunk_id ids) counts.chunk_ids,
          lookup-insert j lemma (c.text, c.label, chunk_id) counts.first_seen,
        )
      ]

  count_candidates-IsComplete :
      (chunk_id : Text) (cs : List Candidate) (counts : Counts)
      → IsComplete counts
      → IsComplete (count_candidates lower stopwords chunk_id cs counts)
  unfolding count_candidates
  count_candidates-IsComplete chunk_id [] counts h = h
  count_candidates-IsComplete chunk_id (c ∷ cs) counts h =
      count_candidates-IsComplete chunk_id cs (count_candidate lower stopwords chunk_id c counts)
        (count_candidate-IsComplete chunk_id c counts h)

  pub count_chunks-IsComplete :
      (chunks : List (Text × List Candidate)) (counts : Counts)
      → IsComplete counts
      → IsComplete (count_chunks lower stopwords chunks counts)
  unfolding count_chunks
  count_chunks-IsComplete [] counts h = h
  count_chunks-IsComplete ((chunk_id, cs) ∷ rest) counts h =
      count_chunks-IsComplete rest (count_candidates lower stopwords chunk_id cs counts)
        (count_candidates-IsComplete chunk_id cs counts h)

is_empty-add_all : (is ids : List Text) → is_empty ids ≡ false → is_empty (add_all is ids) ≡ false
is_empty-add_all [] ids h = h
is_empty-add_all (i ∷ is) ids h = is_empty-add_all is (add i ids) (is_empty-add i ids)

add_all-some : (is ids : List Text) → is_empty is ≡ false → is_empty (add_all is ids) ≡ false
add_all-some [] ids h = absurd (cc h)
add_all-some (i ∷ is) ids h = is_empty-add_all is (add i ids) (is_empty-add i ids)

is_empty-union :
    (counts : Counts) (ms ids : List Text)
    → is_empty ids ≡ false
    → is_empty (union_chunk_ids counts ms ids) ≡ false
is_empty-union counts [] ids h = h
is_empty-union counts (m ∷ ms) ids h =
    is_empty-union counts ms (add_all (ids_of counts m) ids)
      (is_empty-add_all (ids_of counts m) ids h)

union-mem :
    (counts : Counts) (r : Text) (ms ids : List Text)
    → Memᴰ r ms
    → is_empty (ids_of counts r) ≡ false
    → is_empty (union_chunk_ids counts ms ids) ≡ false
union-mem counts r [] ids m h = elim m [ ]
union-mem counts r (x ∷ ms) ids (Memᴰ.head p) h =
    is_empty-union counts ms (add_all (ids_of counts x) ids)
      (add_all-some (ids_of counts x) ids (ap (λ k. is_empty (ids_of counts k)) (sym p) ∙ h))
union-mem counts r (x ∷ ms) ids (Memᴰ.tail m) h =
    union-mem counts r ms (add_all (ids_of counts x) ids) m h

merge_group-IsComplete :
    (counts : Counts) (m : Text) (ms : List Text) (merged : Counts)
    → (has (representative counts m ms) counts.first_seen ≡ true)
    → is_empty (ids_of counts (representative counts m ms)) ≡ false
    → IsComplete merged
    → IsComplete (merge_group counts (m ∷ ms) merged)
unfolding merge_group
merge_group-IsComplete counts m ms merged seen ids h j e =
    let rep = representative counts m ms in
    let union = union_chunk_ids counts (m ∷ ms) [] in
    let full = union-mem counts rep (m ∷ ms) [] (representative-mem counts m ms) ids in
    elim (Option-cases (lookup rep counts.first_seen)) [
      | inl k ↦ absurd (cc (ap is_some k, seen))
      | inr (first, k) ↦ rw k (
          ground (
            arith,
            h j,
            full,
            lookup-insert j rep (total_frequency counts (m ∷ ms)) merged.frequency,
            lookup-insert j rep union merged.chunk_ids,
            lookup-insert j rep first merged.first_seen,
          ))
    ]

merge_groups-IsComplete :
    (counts : Counts) (groups : Dict Text (List Text)) (merged : Counts)
    → IsComplete counts
    → ((j : Text) → 1 ≤ sum_groups (one_at j) groups → has j counts.frequency ≡ true)
    → IsComplete merged
    → IsComplete (merge_groups counts groups merged)
unfolding merge_groups merge_group
merge_groups-IsComplete counts [] merged c g h = h
merge_groups-IsComplete counts ((k, []) ∷ rest) merged c g h =
    merge_groups-IsComplete counts rest merged c (λ j l. g j (omega (arith, l))) h
merge_groups-IsComplete counts ((k, m ∷ ms) ∷ rest) merged c g h =
    let rep = representative counts m ms in
    let there = mem-count rep (m ∷ ms) (representative-mem counts m ms) in
    let known = c rep (g rep (omega (arith, there))) in
    merge_groups-IsComplete counts rest (merge_group counts (m ∷ ms) merged) c
      (λ j l. g j (omega (arith, l))) (merge_group-IsComplete counts m ms merged known.0 known.1 h)

pub merge_near_duplicates-IsComplete :
    (counts : Counts)
    → IsDict counts.frequency
    → IsComplete counts
    → IsComplete (merge_near_duplicates counts)
unfolding merge_near_duplicates lookup
merge_near_duplicates-IsComplete counts d c =
    let group_key = group_all (keys counts.frequency) [] in
    let counted : (j : Text)
        → 1 ≤ sum_groups (one_at j) (members_by_key group_key [])
        → has j counts.frequency ≡ true =
      λ j l. ground (
        arith,
        sum_groups-members_by_key (one_at j) group_key [],
        group_all-count counts.frequency d j,
        d j,
      ) in
    merge_groups-IsComplete counts (members_by_key group_key [])
      (record { frequency = []; chunk_ids = []; first_seen = [] }) c counted (λ j e. absurd (cc e))
