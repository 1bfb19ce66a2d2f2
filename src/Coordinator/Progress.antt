-- ===== src/Coordinator/Progress.antt =====
-- What the handlers of one task do to its state: they keep the invariant and the plan, and what is
-- left to do at the clock reading falls (agents/coordinator.py, `_advance` and its helpers).
use mas_research.Base.{
  ℕ, String, ◌≡◌, ◌≢◌, refl, leb, if◌then◌else◌, Bool-cases, Option-cases, inl, inr, string_key,
}
use mas_research.Plan.{Subtask, plan_get}
use mas_research.Core.Retry.{retry_max}
use mas_research.Coordinator.State.{TaskState, retries, mark_failed, mark_retry, mark_published}
use mas_research.Coordinator.Effects.{
  Run, Result, Action, ok, raise, out_of_fuel, and_then, call_world, call, new_message,
}
use mas_research.Coordinator.Handlers.{
  Config, timeout_for, fail_subtask, schedule_retry, schedule_retry_or_fail, publish,
}

-- A call that returns does so in a state with `P`, and one that raises does so for a reason of the
-- program's, never for want of fuel.
abbrev pub Ensures : {S A : Type 0} → (A → S → Type 0) → Result A × S → Type 0
Ensures P (ok a, s) = P a s
Ensures P (raise e, s) = e ≢ out_of_fuel

pub Ensures-and_then :
    {S A B : Type 0} {P : A → S → Type 0} (Q : B → S → Type 0) (f : A → Action S B)
    (x : Result A × S)
    → Ensures P x
    → ((a : A) (s : S) → P a s → Ensures Q (f a s))
    → Ensures Q (and_then x.0 f x.1)
Ensures-and_then Q f (ok a, s) h k = k a s h
Ensures-and_then Q f (raise e, s) h k = h

pub Ensures-mono :
    {S A : Type 0} {P Q : A → S → Type 0} (x : Result A × S)
    → Ensures P x
    → ((a : A) (s : S) → P a s → Q a s)
    → Ensures Q x
Ensures-mono (ok a, s) h k = k a s h
Ensures-mono (raise e, s) h k = h

-- The state after `_schedule_retry_or_fail`.
abbrev pub scheduled : String → String → ℕ → TaskState → TaskState
scheduled k reason now s =
    if leb retry_max (retries s k) then mark_failed k reason now s else mark_retry k reason now s

abbrev pub Becomes : TaskState → Unit {0} → Run → Type 0
Becomes t _ r = r.state ≡ t

pub fail_subtask-Becomes :
    (k reason : String) (now : ℕ) (r : Run)
    → Ensures (Becomes (mark_failed k reason now r.state)) (fail_subtask k reason now r)
unfolding fail_subtask
fail_subtask-Becomes k reason now r =
    elim (Option-cases (plan_get (mark_failed k reason now r.state).plan k)) [
      | inl missing ↦ rw missing (λ e. cc e)
      | inr (t, found) ↦ rw found refl
    ]

schedule_retry-Becomes :
    (k reason : String) (now : ℕ) (r : Run)
    → Ensures (Becomes (mark_retry k reason now r.state)) (schedule_retry k reason now r)
unfolding schedule_retry
schedule_retry-Becomes k reason now r =
    elim (Option-cases (plan_get (mark_retry k reason now r.state).plan k)) [
      | inl missing ↦ rw missing (λ e. cc e)
      | inr (t, found) ↦ rw found refl
    ]

pub schedule_retry_or_fail-Becomes :
    (k reason : String) (now : ℕ) (r : Run)
    → Ensures (Becomes (scheduled k reason now r.state)) (schedule_retry_or_fail k reason now r)
unfolding schedule_retry_or_fail
schedule_retry_or_fail-Becomes k reason now r =
    elim (Bool-cases (leb retry_max (retries r.state k))) [
      | inl spent ↦ rw spent (fail_subtask-Becomes k reason now r)
      | inr left ↦ rw left (schedule_retry-Becomes k reason now r)
    ]

pub publish-Becomes :
    (config : Config) (x : Subtask) (now : ℕ) (r : Run)
    → Ensures
        (Becomes (mark_published x.id (timeout_for config x.agent) now r.state))
        (publish config x now r)
unfolding publish new_message call call_world
publish-Becomes config x now r = elim (Bool-cases (r.world.fails r.world.calls)) [
  | inl fails ↦ rw fails (λ e. cc e)
  | inr works ↦ rw works refl
]
