-- ===== src/Coordinator/Starts.antt =====
-- No handler of a task touches the task and the clock reading that it started at
-- (agents/coordinator.py, `_advance` and what it calls).
use mas_research.Base.{
  length, is_empty, ◌&&◌, not, ℕ, zero, suc, String, Bool, true, false, ◌≡◌, refl, List, [], ◌∷◌,
  Option-cases, Bool-cases, inl, inr, string_key, ltb, leb,
}
use mas_research.Base.Dict.{lookup}
use mas_research.Core.Retry.{retry_max}
use mas_research.Schemas.{Task}
use mas_research.Plan.{Subtask, plan_get}
use mas_research.Coordinator.State.{retries, mark_failed, mark_retry, mark_published}
use mas_research.Coordinator.Effects.{
  and_then, ok, call_world, Result, out_of_fuel, Run, Action, pure, call, new_message,
}
use mas_research.Coordinator.Handlers.{
  Config, fail_subtask, schedule_retry, schedule_retry_or_fail, publish,
}
use mas_research.Coordinator.Advance.{
  is_all_join, is_ready, succeeded, advance_fuel, is_waiting, start_subtask, visit_subtask,
  for_changed, dispatch_ready, drop_deadline, drop_retry, expire, visit_deadline, expire_timeouts,
  republish, visit_retry, republish_due, advance_round, advance_loop, advance,
}
use mas_research.Coordinator.Keeps.{and_then-kept, Keeps, Keeps-pure, Keeps-throw}

-- The task of a run, and when it started.
abbrev pub start : Run → ℕ × Task
start r = (r.state.started_at, r.state.task)

abbrev pub KeepsStart : {A : Type 0} → Action Run A → Type 0
KeepsStart m = Keeps start m

fail_subtask-KeepsStart : (k reason : String) (now : ℕ) → KeepsStart (fail_subtask k reason now)
unfolding fail_subtask mark_failed
fail_subtask-KeepsStart k reason now = record {
  at = λ r. elim (Option-cases (plan_get (mark_failed k reason now r.state).plan k)) [
    | inl missing ↦ rw missing refl
    | inr (x, found) ↦ rw found refl
  ];
}

schedule_retry-KeepsStart : (k reason : String) (now : ℕ) → KeepsStart (schedule_retry k reason now)
unfolding schedule_retry mark_retry
schedule_retry-KeepsStart k reason now = record {
  at = λ r. elim (Option-cases (plan_get (mark_retry k reason now r.state).plan k)) [
    | inl missing ↦ rw missing refl
    | inr (x, found) ↦ rw found refl
  ];
}

pub schedule_retry_or_fail-KeepsStart :
    (k reason : String) (now : ℕ) → KeepsStart (schedule_retry_or_fail k reason now)
unfolding schedule_retry_or_fail
schedule_retry_or_fail-KeepsStart k reason now = record {
  at = λ r. elim (Bool-cases (leb retry_max (retries r.state k))) [
    | inl spent ↦ rw spent ((fail_subtask-KeepsStart k reason now).at r)
    | inr left ↦ rw left ((schedule_retry-KeepsStart k reason now).at r)
  ];
}

publish-KeepsStart : (config : Config) (x : Subtask) (now : ℕ) → KeepsStart (publish config x now)
unfolding publish new_message call call_world mark_published
publish-KeepsStart config x now = record {
  at = λ r. elim (Bool-cases (r.world.fails r.world.calls)) [
    | inl fails ↦ rw fails refl
    | inr works ↦ rw works refl
  ];
}

-- A visit that ends in `pure true`.
then_true-start :
    (n : ℕ × Task) (x : Result (Unit {0}) × Run)
    → start x.1 ≡ n
    → start (and_then {B = Bool} x.0 (λ _. pure true) x.1).1 ≡ n
then_true-start n x h = and_then-kept start n (λ _. pure true) x h (λ _. Keeps-pure start true)

start_subtask-KeepsStart :
    (config : Config) (x : Subtask) (now : ℕ) → KeepsStart (start_subtask config x now)
unfolding start_subtask
start_subtask-KeepsStart config x now = record {
  at = λ r. elim (Bool-cases (not (is_empty x.depends_on) && is_empty (succeeded r.state x))) [
    | inl e ↦ rw e ((fail_subtask-KeepsStart x.id _ now).at r)
    | inr e ↦
        rw e
          (elim (Bool-cases
            (is_all_join x.join && ltb (length (succeeded r.state x)) (length x.depends_on))) [
              | inl f ↦ rw f ((fail_subtask-KeepsStart x.id _ now).at r)
              | inr f ↦ rw f ((publish-KeepsStart config x now).at r)
            ])
  ];
}

visit_subtask-KeepsStart :
    (config : Config) (now : ℕ) (x : Subtask) → KeepsStart (visit_subtask config x now)
unfolding visit_subtask
visit_subtask-KeepsStart config now x = record {
  at = λ r. elim (Bool-cases (is_waiting r.state x && is_ready r.state x)) [
    | inl e ↦ rw e (
        then_true-start (start r) (start_subtask config x now r)
          ((start_subtask-KeepsStart config x now).at r))
    | inr e ↦ rw e refl
  ];
}

visit_deadline-KeepsStart : (now : ℕ) (k : String) → KeepsStart (visit_deadline now k)
unfolding visit_deadline expire
visit_deadline-KeepsStart now k = record {
  at = λ r. elim (Option-cases (lookup k r.state.deadlines)) [
    | inl gone ↦ rw (gone, visit_deadline) refl
    | inr (t, e) ↦ elim (Bool-cases (ltb t now)) [
      | inl past ↦
          rw (e, visit_deadline)
            (rw past (
              then_true-start (start r) (expire now k r) (
                (schedule_retry_or_fail-KeepsStart k "timeout" now).at
                  (record r { state = drop_deadline k r.state }))))
      | inr early ↦ rw (e, visit_deadline) (rw early refl)
    ]
  ];
}

republish-KeepsStart :
    (config : Config) (now : ℕ) (k : String) → KeepsStart (republish config now k)
unfolding republish
republish-KeepsStart config now k = record {
  at = λ r. elim (Option-cases (plan_get r.state.plan k)) [
    | inl missing ↦ rw missing refl
    | inr (x, found) ↦
        rw found ((publish-KeepsStart config x now).at (record r { state = drop_retry k r.state }))
  ];
}

visit_retry-KeepsStart :
    (config : Config) (now : ℕ) (k : String) → KeepsStart (visit_retry config now k)
unfolding visit_retry
visit_retry-KeepsStart config now k = record {
  at = λ r. elim (Option-cases (lookup k r.state.retry_at)) [
    | inl gone ↦ rw (gone, visit_retry) refl
    | inr (t, e) ↦ elim (Bool-cases (leb t now)) [
      | inl due ↦
          rw (e, visit_retry)
            (rw due (
              then_true-start (start r) (republish config now k r)
                ((republish-KeepsStart config now k).at r)))
      | inr early ↦ rw (e, visit_retry) (rw early refl)
    ]
  ];
}

for_changed-KeepsStart :
    {X : Type 0} (visit : X → Action Run Bool) (xs : List X)
    → ((x : X) → KeepsStart (visit x))
    → KeepsStart (for_changed visit xs)
unfolding for_changed
for_changed-KeepsStart visit [] h = Keeps-pure start false
for_changed-KeepsStart visit (x ∷ xs) h = record {
  at = λ r. and_then-kept start (start r) _ (visit x r) ((h x).at r) λ changed. record {
    at = λ r'.
        and_then-kept start (start r') _ (for_changed visit xs r')
          ((for_changed-KeepsStart visit xs h).at r') (λ more. record { at = λ _. refl });
  };
}

advance_round-KeepsStart : (config : Config) (now : ℕ) → KeepsStart (advance_round config now)
unfolding advance_round dispatch_ready expire_timeouts republish_due
advance_round-KeepsStart config now = record {
  at = λ r.
      and_then-kept start (start r) _ (dispatch_ready config now r.state.plan.subtasks r)
        ((for_changed-KeepsStart _ _ (visit_subtask-KeepsStart config now)).at r)
        λ dispatched. record {
          at = λ r'.
              and_then-kept start (start r') _ (expire_timeouts now r')
                ((for_changed-KeepsStart _ _ (visit_deadline-KeepsStart now)).at r')
                λ expired. record {
                  at = λ r''.
                      and_then-kept start (start r'') _ (republish_due config now r'')
                        ((for_changed-KeepsStart _ _ (visit_retry-KeepsStart config now)).at r'')
                        (λ republished. record { at = λ _. refl });
                };
        };
}

again :
    (m : Action Run (Unit {0}))
    → KeepsStart m
    → (r : Run) (changed : Bool)
    → start (elim changed as (λ _. Result (Unit {0}) × Run) [ true ↦ m r | false ↦ (ok tt, r) ]).1
      ≡ start r
again m h r true = h.at r
again m h r false = refl

advance_loop-KeepsStart :
    (config : Config) (now fuel : ℕ) → KeepsStart (advance_loop config now fuel)
unfolding advance_loop
advance_loop-KeepsStart config now zero = Keeps-throw start out_of_fuel
advance_loop-KeepsStart config now (suc fuel) = record {
  at = λ r.
      and_then-kept start (start r) _ (advance_round config now r)
        ((advance_round-KeepsStart config now).at r)
        (λ changed. record {
          at = λ r'.
              again (advance_loop config now fuel) (advance_loop-KeepsStart config now fuel) r'
                changed;
        });
}

pub advance-KeepsStart : (config : Config) (now : ℕ) → KeepsStart (advance config now)
unfolding advance
advance-KeepsStart config now = record {
  at = λ r. (advance_loop-KeepsStart config now (advance_fuel r.state)).at r;
}
