-- ===== src/Coordinator/Liveness.antt =====
-- A task that is not finished always has a timer running: the loop cannot be stuck
-- (agents/coordinator.py, `_advance`; plan.py, `build_plan`).
use mas_research.Base.{
  ℕ, zero, suc, ◌<◌, ◌≤◌, String, true, false, ◌||◌, ◌≡◌, ◌⊎◌, inl, inr, refl, some, Option-cases,
  Bool-cases, arith, string_key,
}
use mas_research.Base.Dict.{lookup, has, contains}
use mas_research.Base.Members.{all-eq_false}
use mathlib.Core.List.{Memᴰ}
use mas_research.Schemas.{Task}
use mas_research.Plan.{Subtask, plan_get, build_plan}
use mas_research.Plan.Find.{plan_get-mem, plan_get-id, plan_get-has_id, mem-has_id}
use mas_research.Plan.Dag.{rank, build_plan-depends_on}
use mas_research.Coordinator.State.{TaskState}
use mas_research.Coordinator.Invariant.{IsWf}
use mas_research.Coordinator.Rounds.{IsQuiet}

-- A subtask with a deadline that is still to come, or with a retry scheduled for later.
pub record HasTimer (now : ℕ) (s : TaskState) : Type 0 where
  pub id : String
  pub at : ℕ
  pub runs :
      ((lookup id s.deadlines ≡ some at) × (now ≤ at))
      ⊎ ((lookup id s.retry_at ≡ some at) × (now < at))

module _ (task : Task) (now : ℕ) (s : TaskState) (planned : s.plan ≡ build_plan task) (w : IsWf s)
    (q : IsQuiet now s) where
  timer_of : (j : String) → (has j s.deadlines || has j s.retry_at) ≡ true → HasTimer now s
  timer_of j h = elim (Option-cases (lookup j s.deadlines)) [
    | inr (t, e) ↦ record {
      id = j;
      at = t;
      runs = inl (e, let p = q.none_past j t e in ground arith);
    }
    | inl none_left ↦ elim (Option-cases (lookup j s.retry_at)) [
      | inr (t, e) ↦ record {
        id = j;
        at = t;
        runs = inr (e, let p = q.none_due j t e in ground arith);
      }
      | inl no_retry ↦ absurd (ground arith)
    ]
  ]

  open_pending :
      (y : Subtask)
      → Memᴰ y s.plan.subtasks
      → has y.id s.results ≡ false
      → contains y.id s.pending ≡ true
  open_pending y m h =
      ground (arith, w y.id, plan_get-has_id s.plan y.id, mem-has_id y s.plan.subtasks m)

  pending_timer :
      (bound : ℕ) (x : Subtask)
      → Memᴰ x s.plan.subtasks
      → rank x.operation < bound
      → contains x.id s.pending ≡ true
      → HasTimer now s
  pending_timer zero x m r p = elim r [ ]
  pending_timer (suc bound) x m r p = elim (Bool-cases (contains x.id s.published)) [
    | inl sent ↦ timer_of x.id ((w x.id).tracked refl (ground arith))
    | inr unsent ↦
        let idle = q.none_ready x m in
        let (dep, d, open_dep) = all-eq_false (λ k. has k s.results) x.depends_on (ground arith) in
        let (y, n, e, lower) = build_plan-depends_on task x dep (rw (← planned) m) d in
        pending_timer bound y (rw planned n) (omega arith)
          (open_pending y (rw planned n) (rw e open_dep))
  ]

  -- If a subtask is pending, some timer of the task runs: a deadline not yet passed or a retry not
  -- yet due.
  pub pending-HasTimer : (k : String) → contains k s.pending ≡ true → HasTimer now s
  pending-HasTimer k p = elim (Option-cases (plan_get s.plan k)) [
    | inl missing ↦ absurd (ground (arith, w k))
    | inr (x, found) ↦
        pending_timer (suc (rank x.operation)) x (plan_get-mem s.plan k x found) (omega arith)
          (rw (plan_get-id s.plan k x found) p)
  ]
