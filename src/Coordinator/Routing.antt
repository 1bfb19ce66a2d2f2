-- ===== src/Coordinator/Routing.antt =====
-- Routing a reply never raises on a well-formed task, and keeps it well-formed
-- (agents/coordinator.py, `_route_reply`).
use mas_research.Base.{
  some, ℕ, String, true, ◌≡◌, refl, Option, none, is_some, arith, Bool-cases, Option-cases, inl,
  inr, string_key, same, leb,
}
use mas_research.Base.Dict.{contains}
use mas_research.Plan.{plan_get}
use mas_research.Values.{Fields}
use mas_research.Core.Retry.{retry_max}
use mas_research.Core.Messages.{Message, refuse, performative_key}
use mas_research.Coordinator.State.{
  TaskState, retries, mark_failed, mark_retry, mark_replied, mark_informed,
}
use mas_research.Coordinator.Effects.{Run, Result, ok, raise, pure, and_then, Action}
use mas_research.Coordinator.Handlers.{
  Printer, fail_subtask, schedule_retry, schedule_retry_or_fail,
}
use mas_research.Coordinator.Reply.{PersistJob, route_inform, route_pending, route_reply}
use mas_research.Coordinator.Invariant.{
  KeepsResults, insert-KeepsResults, KeepsResults-same, IsWf, mark_replied-IsWfBut,
  mark_replied-cleared, mark_informed-IsWf,
}
use mas_research.Coordinator.Progress.{scheduled}
use mas_research.Coordinator.Visits.{scheduled-IsWf, scheduled-same_plan, scheduled-KeepsResults}

-- A call that returns, in a state with `P`.
abbrev pub Returns : {S A : Type 0} → (A → S → Type 0) → Result A × S → Type 0
Returns P (ok a, s) = P a s
Returns P (raise e, s) = ⊥

abbrev pub KeepsWf : {A : Type 0} → TaskState → A → Run → Type 0
KeepsWf s a r = IsWf r.state × (r.state.plan ≡ s.plan) × KeepsResults s r.state

pub Returns-and_then :
    {S A B : Type 0} {P : A → S → Type 0} (Q : B → S → Type 0) (f : A → Action S B)
    (x : Result A × S)
    → Returns P x
    → ((a : A) (s : S) → P a s → Returns Q (f a s))
    → Returns Q (and_then x.0 f x.1)
Returns-and_then Q f (ok a, s) h k = k a s h
Returns-and_then Q f (raise e, s) h k = absurd h

pub Returns-mono :
    {S A : Type 0} {P Q : A → S → Type 0} (x : Result A × S)
    → Returns P x
    → ((a : A) (s : S) → P a s → Q a s)
    → Returns Q x
Returns-mono (ok a, s) h k = k a s h
Returns-mono (raise e, s) h k = h

schedule_retry_or_fail-Returns :
    (k reason : String) (now : ℕ) (r : Run)
    → is_some (plan_get r.state.plan k) ≡ true
    → Returns
        (λ _ r'. r'.state ≡ scheduled k reason now r.state)
        (schedule_retry_or_fail k reason now r)
unfolding schedule_retry_or_fail fail_subtask schedule_retry mark_failed mark_retry
schedule_retry_or_fail-Returns k reason now r h = elim (Option-cases (plan_get r.state.plan k)) [
  | inl missing ↦ absurd (ground arith)
  | inr (x, found) ↦ elim (Bool-cases (leb retry_max (retries r.state k))) [
    | inl spent ↦ rw (spent, found) refl
    | inr left ↦ rw (left, found) refl
  ]
]

module _ (k : String) (now : ℕ) (r : Run) (w : IsWf r.state)
    (p : contains k r.state.pending ≡ true) where
  abbrev replied : Run
  replied = record r { state = mark_replied k r.state }

  refuse-KeepsWf :
      (reason : String)
      → Returns (KeepsWf {A = Option PersistJob} r.state) (
          and_then
            (schedule_retry_or_fail k reason now replied).0
            (λ _. pure none)
            (schedule_retry_or_fail k reason now replied).1)
  unfolding mark_replied KeepsResults
  refuse-KeepsWf reason =
      Returns-and_then (KeepsWf r.state) (λ _. pure none)
        (schedule_retry_or_fail k reason now replied)
        (schedule_retry_or_fail-Returns k reason now replied ((w k).planned p))
        λ _ r' e. (
          rw e (scheduled-IsWf k reason now (mark_replied-IsWfBut k w) p),
          rw e (scheduled-same_plan replied.state k reason now),
          rw e (scheduled-KeepsResults replied.state k reason now (mark_replied-IsWfBut k w k) p),
        )

  inform-KeepsWf :
      (content : Fields) → Returns (KeepsWf r.state) (route_inform k content now replied)
  unfolding route_inform mark_replied mark_informed
  inform-KeepsWf content = elim (Option-cases (plan_get r.state.plan k)) [
    | inl missing ↦ absurd (ground (arith, w k))
    | inr (x, found) ↦ rw found (
      mark_informed-IsWf k (mark_replied-IsWfBut k w) "" now content
          (mark_replied-cleared k r.state),
      refl,
      insert-KeepsResults r.state (mark_informed k content now replied.state) k (some content) (w k)
          p refl,
    )
  ]

  route_pending-KeepsWf :
      (printer : Printer) (reply : Message)
      → Returns (KeepsWf r.state) (route_pending printer k reply now r)
  unfolding route_pending
  route_pending-KeepsWf printer reply = elim (Bool-cases (same reply.performative refuse)) [
    | inl e ↦ rw (e, route_pending) (refuse-KeepsWf _)
    | inr e ↦ rw (e, route_pending) (inform-KeepsWf reply.content)
  ]

-- On a well-formed task a reply never raises, and leaves a well-formed state, the plan and every result
-- that the task had, none of them lost or replaced: a refuse and an inform to a pending subtask, a
-- late reply, and one that names no subtask.
pub route_reply-KeepsWf :
    (printer : Printer) (reply : Message) (now : ℕ) (r : Run)
    → IsWf r.state
    → Returns (KeepsWf r.state) (route_reply printer reply now r)
unfolding route_reply
route_reply-KeepsWf printer reply now r w = elim (Option-cases reply.subtask_id) [
  | inl e ↦ rw (e, route_reply) (w, refl, KeepsResults-same r.state r.state refl)
  | inr (k, e) ↦ elim (Bool-cases (contains k r.state.pending)) [
    | inl p ↦ rw (e, route_reply) (rw p (route_pending-KeepsWf k now r w p printer reply))
    | inr p ↦ rw (e, route_reply) (rw p (w, refl, KeepsResults-same r.state r.state refl))
  ]
]
