-- ===== src/Coordinator/Start.antt =====
-- The states that `submit` and `_resume` build are well-formed (agents/coordinator.py).
use mas_research.Base.{
  ap, ℕ, String, Bool, not, ◌&&◌, ◌≡◌, refl, List, [], ◌∷◌, select, arith, string_key, string_dec,
}
use mas_research.Base.Dict.{Dict, lookup, has, keys, contains, contains-add}
use mas_research.Schemas.{Task}
use mas_research.Plan.{Subtask, Plan}
use mas_research.Plan.Find.{has_id, plan_get-has_id}
use mas_research.Values.{Fields}
use mas_research.Coordinator.State.{id_set, submitted}
use mas_research.Coordinator.Loop.{valid_results, resumed}
use mas_research.Coordinator.Invariant.{IsWf}

contains-id_set : (j : String) (ss : List Subtask) → contains j (id_set ss) ≡ has_id j ss
unfolding id_set contains
contains-id_set j [] = refl
contains-id_set j (s ∷ ss) = ground (arith, contains-id_set j ss, contains-add j s.id (id_set ss))

-- A submitted task starts well-formed, whatever its plan.
pub submitted-IsWf : (task : Task) (plan : Plan) (now : ℕ) → IsWf (submitted task plan now)
unfolding submitted contains lookup
submitted-IsWf task plan now j =
    ground (arith, contains-id_set j plan.subtasks, plan_get-has_id plan j)

contains-keys : {V : Type 0} (j : String) (d : Dict String V) → contains j (keys d) ≡ has j d
unfolding contains lookup
contains-keys j [] = refl
contains-keys j ((k, v) ∷ d) = ground (arith, contains-keys j d)

module _ (loaded : String → Bool) where
  abbrev missing : Subtask → Bool
  missing t = not (loaded t.id)

  has_id-select :
      (j : String) (ss : List Subtask)
      → has_id j (select missing ss) ≡ (has_id j ss && not (loaded j))
  has_id-select j [] = refl
  has_id-select j (s ∷ ss) = elim (string_dec j s.id) [
    | yes p ↦ ground (arith, has_id-select j ss, ap loaded p)
    | no p ↦ ground (arith, has_id-select j ss)
  ]

-- A resumed task starts well-formed: what is reloaded counts as published and resolved, and all else
-- of the plan is pending.
pub resumed-IsWf :
    (task : Task) (plan : Plan) (results : Dict String Fields) (now : ℕ)
    → IsWf (resumed task plan results now)
unfolding resumed submitted lookup
resumed-IsWf task plan results now j =
    let loaded = valid_results (id_set plan.subtasks) results in
    ground (
      arith,
      contains-id_set j (select (missing (λ k. has k loaded)) plan.subtasks),
      has_id-select (λ k. has k loaded) j plan.subtasks,
      contains-keys j loaded,
      plan_get-has_id plan j,
    )
