-- ===== src/Coordinator/Fresh.antt =====
-- A task that enters the table stays well-formed also where its first round of requests raises
-- (agents/coordinator.py, `submit`, `_resume` and `_advance`).
use mas_research.Base.{
  ◌+◌, ℕ, zero, suc, String, Bool, true, false, not, ◌&&◌, ◌≡◌, refl, List, [], ◌∷◌, some,
  Option-cases, Bool-cases, inl, inr, string_key, ltb, length, is_empty, arith,
}
use mas_research.Base.Dict.{Dict, erase, lookup, keys, contains, lookup-insert, lookup-erase}
use mas_research.Plan.{Plan, Subtask, plan_get}
use mas_research.Coordinator.State.{TaskState, mark_failed, mark_published}
use mas_research.Coordinator.Effects.{
  Run, Result, ok, raise, Action, and_then, call, call_world, new_message,
}
use mas_research.Coordinator.Handlers.{Config, timeout_for, fail_subtask, publish}
use mas_research.Coordinator.Advance.{
  advance_fuel, is_all_join, succeeded, is_waiting, is_ready, start_subtask, visit_subtask,
  for_changed, dispatch_ready, visit_deadline, expire_timeouts, visit_retry, republish_due,
  advance_round, advance_loop, advance,
}
use mas_research.Coordinator.Invariant.{IsWf, IsWf-IsWfBut, mark_failed-IsWf, mark_published-IsWf}

-- Well-formed, with no retry scheduled and every deadline still to come.
pub record IsFresh (plan : Plan) (now : ℕ) (s : TaskState) : Type 0 where
  pub wf : IsWf s
  pub same_plan : s.plan ≡ plan
  pub no_retry : s.retry_at ≡ []
  pub ahead : (k : String) (t : ℕ) → lookup k s.deadlines ≡ some t → ltb t now ≡ false

and_then-holds :
    {A B : Type 0} (P : TaskState → Type 0) (f : A → Action Run B) (x : Result A × Run)
    → P x.1.state
    → ((a : A) (r : Run) → P r.state → P (f a r).1.state)
    → P (and_then x.0 f x.1).1.state
and_then-holds P f (ok a, r) h k = k a r h
and_then-holds P f (raise e, r) h k = h

module _ (plan : Plan) (now : ℕ) where
  Fresh : TaskState → Type 0
  Fresh s = IsFresh plan now s

  fail_subtask-IsFresh :
      (k reason : String) (r : Run) → Fresh r.state → Fresh (fail_subtask k reason now r).1.state
  unfolding fail_subtask Fresh mark_failed erase
  fail_subtask-IsFresh k reason r w = elim (Option-cases (plan_get r.state.plan k)) [
    | inl missing ↦ rw missing marked
    | inr (x, found) ↦ rw found marked
  ]
    where
      marked : IsFresh plan now (mark_failed k reason now r.state)
      marked = record {
        wf = mark_failed-IsWf k (IsWf-IsWfBut k w.wf) reason now;
        same_plan = w.same_plan;
        no_retry = rw w.no_retry refl;
        ahead = λ j t e. w.ahead j t (ground (arith, lookup-erase j k r.state.deadlines));
      }

  publish-IsFresh :
      (config : Config) (x : Subtask) (r : Run)
      → contains x.id r.state.pending ≡ true
      → Fresh r.state
      → Fresh (publish config x now r).1.state
  unfolding publish new_message call call_world Fresh mark_published
  publish-IsFresh config x r p w = elim (Bool-cases (r.world.fails r.world.calls)) [
    | inl fails ↦ rw fails w
    | inr works ↦ rw works (record {
      wf = mark_published-IsWf x.id (IsWf-IsWfBut x.id w.wf) (timeout_for config x.agent) now p;
      same_plan = w.same_plan;
      no_retry = w.no_retry;
      ahead = λ j t e. ground (
        arith,
        w.ahead j t,
        lookup-insert j x.id (now + timeout_for config x.agent) r.state.deadlines,
      );
    })
  ]

  start_subtask-IsFresh :
      (config : Config) (x : Subtask) (r : Run)
      → contains x.id r.state.pending ≡ true
      → Fresh r.state
      → Fresh (start_subtask config x now r).1.state
  unfolding start_subtask
  start_subtask-IsFresh config x r p w =
      elim (Bool-cases (not (is_empty x.depends_on) && is_empty (succeeded r.state x))) [
        | inl e ↦ rw e (fail_subtask-IsFresh x.id _ r w)
        | inr e ↦
            rw e
              (elim (Bool-cases
                (is_all_join x.join && ltb (length (succeeded r.state x)) (length x.depends_on))) [
                  | inl f ↦ rw f (fail_subtask-IsFresh x.id _ r w)
                  | inr f ↦ rw f (publish-IsFresh config x r p w)
                ])
      ]

  visit_subtask-IsFresh :
      (config : Config) (x : Subtask) (r : Run)
      → Fresh r.state
      → Fresh (visit_subtask config x now r).1.state
  unfolding visit_subtask
  visit_subtask-IsFresh config x r w =
      elim (Bool-cases (is_waiting r.state x && is_ready r.state x)) [
        | inl e ↦ rw e (
            and_then-holds Fresh _ (start_subtask config x now r)
              (start_subtask-IsFresh config x r (ground arith) w) (λ _ _ h. h))
        | inr e ↦ rw e w
      ]

  visit_deadline-IsFresh :
      (k : String) (r : Run) → Fresh r.state → Fresh (visit_deadline now k r).1.state
  unfolding visit_deadline Fresh
  visit_deadline-IsFresh k r w = elim (Option-cases (lookup k r.state.deadlines)) [
    | inl gone ↦ rw (gone, visit_deadline) w
    | inr (t, e) ↦ rw (e, visit_deadline) (rw (w.ahead k t e) w)
  ]

  for_changed-IsFresh :
      {X : Type 0} (visit : X → Action Run Bool) (xs : List X)
      → ((x : X) (r : Run) → Fresh r.state → Fresh (visit x r).1.state)
      → (r : Run) → Fresh r.state
      → Fresh (for_changed visit xs r).1.state
  unfolding for_changed
  for_changed-IsFresh visit [] h r w = w
  for_changed-IsFresh visit (x ∷ xs) h r w = and_then-holds Fresh _ (visit x r) (h x r w) λ _ r' w'.
      and_then-holds Fresh _ (for_changed visit xs r') (for_changed-IsFresh visit xs h r' w')
        (λ _ _ k. k)

  republish_due-IsFresh :
      (config : Config) (r : Run) → Fresh r.state → Fresh (republish_due config now r).1.state
  unfolding republish_due Fresh for_changed
  republish_due-IsFresh config r w = none_due r.state.retry_at w.no_retry
    where
      none_due :
          (due : Dict String ℕ)
          → due ≡ []
          → IsFresh plan now (for_changed (visit_retry config now) (keys due) r).1.state
      none_due due e = rw e w

  advance_round-IsFresh :
      (config : Config) (r : Run) → Fresh r.state → Fresh (advance_round config now r).1.state
  unfolding advance_round dispatch_ready expire_timeouts
  advance_round-IsFresh config r w =
      and_then-holds Fresh _ (dispatch_ready config now r.state.plan.subtasks r)
        (for_changed-IsFresh _ r.state.plan.subtasks (visit_subtask-IsFresh config) r w)
        λ _ r' w'.
          and_then-holds Fresh _ (expire_timeouts now r')
            (for_changed-IsFresh _ (keys r'.state.deadlines) visit_deadline-IsFresh r' w')
            λ _ r'' w''.
              and_then-holds Fresh _ (republish_due config now r'')
                (republish_due-IsFresh config r'' w'') (λ _ _ k. k)

  again-IsFresh :
      (m : Action Run (Unit {0})) (changed : Bool) (r : Run)
      → ((r' : Run) → Fresh r'.state → Fresh (m r').1.state)
      → Fresh r.state
      → Fresh
          (elim changed as (λ _. Result (Unit {0}) × Run) [
            | true ↦ m r
            | false ↦ (ok tt, r)
          ]).1.state
  again-IsFresh m true r h w = h r w
  again-IsFresh m false r h w = w

  advance_loop-IsFresh :
      (config : Config) (fuel : ℕ) (r : Run)
      → Fresh r.state
      → Fresh (advance_loop config now fuel r).1.state
  unfolding advance_loop
  advance_loop-IsFresh config zero r w = w
  advance_loop-IsFresh config (suc fuel) r w =
      and_then-holds Fresh _ (advance_round config now r) (advance_round-IsFresh config r w)
        λ changed r' w'.
          again-IsFresh (advance_loop config now fuel) changed r' (advance_loop-IsFresh config fuel)
            w'

-- `_advance` on a fresh task leaves it fresh, also where a request's publication raises.
pub advance-IsFresh :
    (plan : Plan) (now : ℕ) (config : Config) (r : Run)
    → IsFresh plan now r.state
    → IsFresh plan now (advance config now r).1.state
unfolding advance Fresh
advance-IsFresh plan now config r w =
    advance_loop-IsFresh plan now config (advance_fuel r.state) r w
