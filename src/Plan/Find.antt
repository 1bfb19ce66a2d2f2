-- ===== src/Plan/Find.antt =====
-- What `Plan.get` finds (plan.py).
use mas_research.Base.{
  true, false, string_dec, String, Bool, ◌||◌, ◌≡◌, refl, some, is_some, List, [], ◌∷◌, arith,
  string_key, same,
}
use mas_research.Base.Dict.{Dict, lookup, insert, has, lookup-insert}
use mas_research.Plan.{Subtask, Plan, by_id_from, plan_get}
use mathlib.Core.List.{Memᴰ}
use mathlib.Core.Logic.{◌⊎◌, inl, inr}

-- Some subtask of the list has the id.
abbrev pub has_id : String → List Subtask → Bool
has_id k [] = false
has_id k (s ∷ ss) = same k s.id || has_id k ss

by_id_from-id :
    (k : String) (x : Subtask) (ss : List Subtask) (d : Dict String Subtask)
    → (lookup k d ≡ some x → x.id ≡ k)
    → lookup k (by_id_from d ss) ≡ some x
    → x.id ≡ k
unfolding by_id_from
by_id_from-id k x [] d h e = h e
by_id_from-id k x (s ∷ ss) d h e =
    by_id_from-id k x ss (insert s.id s d) (λ f. ground (arith, h, lookup-insert k s.id s d)) e

-- A subtask that is found has the id that was asked for.
pub plan_get-id : (p : Plan) (k : String) (x : Subtask) → plan_get p k ≡ some x → x.id ≡ k
unfolding plan_get lookup
plan_get-id p k x e = by_id_from-id k x p.subtasks [] (λ f. cc f) e

has-by_id_from :
    (k : String) (ss : List Subtask) (d : Dict String Subtask)
    → has k (by_id_from d ss) ≡ (has_id k ss || has k d)
unfolding by_id_from
has-by_id_from k [] d = refl
has-by_id_from k (s ∷ ss) d =
    ground (arith, has-by_id_from k ss (insert s.id s d), lookup-insert k s.id s d)

-- A subtask is found exactly for the ids of the plan.
pub plan_get-has_id : (p : Plan) (k : String) → is_some (plan_get p k) ≡ has_id k p.subtasks
unfolding plan_get lookup
plan_get-has_id p k = ground (arith, has-by_id_from k p.subtasks [])

by_id_from-mem :
    (k : String) (x : Subtask) (ss : List Subtask) (d : Dict String Subtask)
    → lookup k (by_id_from d ss) ≡ some x
    → (lookup k d ≡ some x) ⊎ Memᴰ x ss
unfolding by_id_from
by_id_from-mem k x [] d e = inl e
by_id_from-mem k x (s ∷ ss) d e = elim (by_id_from-mem k x ss (insert s.id s d) e) [
  | inr m ↦ inr (Memᴰ.tail m)
  | inl f ↦ elim (string_dec k s.id) [
    | yes p ↦ inr (Memᴰ.head (ground (arith, lookup-insert k s.id s d)))
    | no p ↦ inl (ground (arith, lookup-insert k s.id s d))
  ]
]

pub plan_get-mem : (p : Plan) (k : String) (x : Subtask) → plan_get p k ≡ some x → Memᴰ x p.subtasks
unfolding plan_get lookup
plan_get-mem p k x e = elim (by_id_from-mem k x p.subtasks [] e) [
  | inl f ↦ absurd (cc f)
  | inr m ↦ m
]

pub mem-has_id : (x : Subtask) (ss : List Subtask) → Memᴰ x ss → has_id x.id ss ≡ true
mem-has_id x [] m = elim m [ ]
mem-has_id x (s ∷ ss) (Memᴰ.head e) = ground arith
mem-has_id x (s ∷ ss) (Memᴰ.tail m) = ground (arith, mem-has_id x ss m)
