-- ===== src/Coordinator/Origins.antt =====
-- Routing a reply leaves the task and the clock reading that it started at (agents/coordinator.py,
-- `_route_reply`).
use mas_research.Base.{
  ◌≡◌, String, String, ℕ, refl, none, Option, Option-cases, Bool-cases, inl, inr, string_key, same,
}
use mas_research.Base.Dict.{contains}
use mas_research.Schemas.{Task}
use mas_research.Values.{get}
use Prim.Native.String.{◌++◌ as concat}
use mas_research.Plan.{plan_get}
use mas_research.Core.Messages.{Message, refuse, performative_key}
use mas_research.Coordinator.State.{mark_replied, mark_informed}
use mas_research.Coordinator.Effects.{Run, Result, and_then, pure}
use mas_research.Coordinator.Handlers.{Printer, schedule_retry_or_fail}
use mas_research.Coordinator.Reply.{PersistJob, route_inform, route_pending, route_reply}
use mas_research.Coordinator.Keeps.{and_then-kept, Keeps-pure}
use mas_research.Coordinator.Starts.{start, KeepsStart, schedule_retry_or_fail-KeepsStart}

-- A call behind which no result is left to persist.
then_none-start :
    (n : ℕ × Task) (x : Result (Unit {0}) × Run)
    → start x.1 ≡ n
    → start (and_then {B = Option PersistJob} x.0 (λ _. pure none) x.1).1 ≡ n
then_none-start n x h = and_then-kept start n (λ _. pure none) x h (λ _. Keeps-pure start none)

route_pending-KeepsStart :
    (printer : Printer) (k : String) (reply : Message) (now : ℕ)
    → KeepsStart (route_pending printer k reply now)
unfolding route_pending route_inform mark_replied mark_informed
route_pending-KeepsStart printer k reply now = record {
  at = λ r.
      let reason = concat "refuse: " (printer.print (get reply.content "reason")) in
      let replied : Run = record r { state = mark_replied k r.state } in
      elim (Bool-cases (same reply.performative refuse)) [
        | inl e ↦ rw e (
            then_none-start (start r) (schedule_retry_or_fail k reason now replied)
              ((schedule_retry_or_fail-KeepsStart k reason now).at replied))
        | inr e ↦ elim (Option-cases (plan_get r.state.plan k)) [
          | inl missing ↦ rw (e, missing) refl
          | inr (x, found) ↦ rw (e, found) refl
        ]
      ];
}

pub route_reply-KeepsStart :
    (printer : Printer) (reply : Message) (now : ℕ) → KeepsStart (route_reply printer reply now)
unfolding route_reply
route_reply-KeepsStart printer reply now = record {
  at = λ r. elim (Option-cases reply.subtask_id) [
    | inl e ↦ rw (e, route_reply) refl
    | inr (k, e) ↦ elim (Bool-cases (contains k r.state.pending)) [
      | inl p ↦ rw (e, route_reply) (rw p ((route_pending-KeepsStart printer k reply now).at r))
      | inr p ↦ rw (e, route_reply) (rw p refl)
    ]
  ];
}
