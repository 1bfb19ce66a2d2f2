-- ===== src/Terms/Groups.antt =====
-- The groups of near-duplicate lemmas hold the counted lemmas (agents/terminology.py).
use mas_research.Text.{Text}
use mas_research.Base.{
  ℕ, ◌+◌, ◌≡◌, refl, not, ◌&&◌, ◌||◌, or_else, List, [], ◌∷◌, ◌++◌, text_key, arith, Bool-cases,
  inl, inr, list_dec, if◌then◌else◌,
}
use mas_research.Base.Dict.{Dict, lookup, insert, lookup-insert, has, keys, contains}
use mas_research.Terms.Sums.{sum_by, sum_by-append, count, IsDict, insert-IsDict}
use mas_research.Terms.Merge.{group_rest, group_all, is_near, members_by_key}

group_rest-has :
    (j a : Text) (bs : List Text) (group_key : Dict Text Text)
    → (has j (group_rest a bs group_key) || contains j bs) ≡ (has j group_key || contains j bs)
unfolding group_rest contains
group_rest-has j a [] group_key = refl
group_rest-has j a (b ∷ bs) group_key = ground (
  arith,
  lookup-insert j b a group_key,
  group_rest-has j a bs
      (if not (has b group_key) && is_near a b then insert b a group_key else group_key),
)

group_rest-IsDict :
    (a : Text) (bs : List Text) (group_key : Dict Text Text)
    → IsDict group_key
    → IsDict (group_rest a bs group_key)
unfolding group_rest
group_rest-IsDict a [] group_key h = h
group_rest-IsDict a (b ∷ bs) group_key h =
    elim (Bool-cases (not (has b group_key) && is_near a b)) [
      | inl e ↦ rw e (group_rest-IsDict a bs (insert b a group_key) (insert-IsDict b a group_key h))
      | inr e ↦ rw e (group_rest-IsDict a bs group_key h)
    ]

group_all-IsDict :
    (xs : List Text) (group_key : Dict Text Text)
    → IsDict group_key
    → IsDict (group_all xs group_key)
unfolding group_all
group_all-IsDict [] group_key h = h
group_all-IsDict (a ∷ rest) group_key h = elim (Bool-cases (has a group_key)) [
  | inl e ↦ rw e (group_all-IsDict rest group_key h)
  | inr e ↦
      let first = group_rest-IsDict a rest (insert a a group_key) (insert-IsDict a a group_key h) in
      rw e (group_all-IsDict rest (group_rest a rest (insert a a group_key)) first)
]

group_all-has :
    (j : Text) (xs : List Text) (group_key : Dict Text Text)
    → has j (group_all xs group_key) ≡ (has j group_key || contains j xs)
unfolding group_all contains
group_all-has j [] group_key = ground arith
group_all-has j (a ∷ rest) group_key = elim (Bool-cases (has a group_key)) [
  | inl e ↦ rw e (elim (list_dec j a) [
    | yes p ↦ ground (arith, group_all-has j rest group_key)
    | no n ↦ ground (arith, group_all-has j rest group_key)
  ])
  | inr e ↦ rw e (
      ground (
        arith,
        lookup-insert j a a group_key,
        group_rest-has j a rest (insert a a group_key),
        group_all-has j rest (group_rest a rest (insert a a group_key)),
      ))
]

contains-keys : {V : Type 0} (j : Text) (d : Dict Text V) → contains j (keys d) ≡ has j d
unfolding contains lookup
contains-keys j [] = refl
contains-keys j ((k, v) ∷ d) = ground (arith, contains-keys j d)

-- Each counted lemma is in the map of group keys once, and no other lemma is.
pub group_all-count :
    {V : Type 0} (d : Dict Text V)
    → IsDict d
    → (j : Text) → count j (keys (group_all (keys d) [])) ≡ count j (keys d)
unfolding lookup
group_all-count d h j = ground (
  arith,
  group_all-IsDict (keys d) [] (λ i. refl) j,
  group_all-has j (keys d) [],
  contains-keys j d,
  h j,
)

abbrev pub sum_groups : (Text → ℕ) → Dict Text (List Text) → ℕ
sum_groups f [] = 0
sum_groups f ((k, ms) ∷ groups) = sum_by f ms + sum_groups f groups

sum_groups-insert :
    (f : Text → ℕ) (k : Text) (ms : List Text) (groups : Dict Text (List Text))
    → sum_groups f (insert k ms groups) + sum_by f (or_else (lookup k groups) [])
      ≡ sum_groups f groups + sum_by f ms
unfolding insert lookup
sum_groups-insert f k ms [] = omega arith
sum_groups-insert f k ms ((j, ns) ∷ groups) = elim (list_dec k j) [
  | yes p ↦ ground arith
  | no n ↦ ground (arith, sum_groups-insert f k ms groups)
]

-- Grouping by key loses no lemma and repeats none.
pub sum_groups-members_by_key :
    (f : Text → ℕ) (entries : List (Text × Text)) (groups : Dict Text (List Text))
    → sum_groups f (members_by_key entries groups) ≡ sum_groups f groups + sum_by f (keys entries)
unfolding members_by_key
sum_groups-members_by_key f [] groups = omega arith
sum_groups-members_by_key f ((lemma, key) ∷ rest) groups =
    let members = or_else (lookup key groups) [] in
    omega (
      arith,
      sum_groups-members_by_key f rest (insert key (members ++ lemma ∷ []) groups),
      sum_groups-insert f key (members ++ lemma ∷ []) groups,
      sum_by-append f members (lemma ∷ []),
    )
