-- ===== src/Coordinator/Reply.antt =====
-- Routing a reply to its subtask, and finalizing a task (agents/coordinator.py).
use Prim.Native.String.{◌++◌ as concat}
use mas_research.Base.{
  ℕ, ◌-◌, String, true, false, Option, none, some, or_else, if◌then◌else◌, string_key, same,
}
use mas_research.Base.Dict.{lookup, contains}
use mas_research.Schemas.{Operation}
use mas_research.Values.{Fields, get}
use mas_research.Core.Messages.{Message, refuse, performative_key}
use mas_research.Core.Status.{determine_final_status}
use mas_research.Coordinator.Assembly.{assemble_artifact}
use mas_research.Coordinator.State.{mark_replied, mark_informed}
use mas_research.Coordinator.Effects.{
  Run, Action, ok, validation_error, pure, or_throw, ◌>>=◌, ◌>>◌, state, modify, observe, call,
  planned, subtask_outcome, subtask_duration, task_duration, tasks_total, artifact_saved,
  status_set,
}
use mas_research.Coordinator.Handlers.{Config, Printer, schedule_retry_or_fail}

-- A result that `_route_reply` hands on to be persisted: its operation and content.
pub record PersistJob : Type 0 where
  pub task_id : String
  pub operation : Operation
  pub content : Fields

unfoldable pub route_inform : String → Fields → ℕ → Action Run (Option PersistJob)
route_inform subtask_id content now = do
  modify (mark_informed subtask_id content now)
  subtask ← planned subtask_id
  s ← state
  let started = or_else (lookup subtask_id s.first_attempt_at) now
  observe (subtask_duration subtask.operation (now - started))
  observe (subtask_outcome subtask.operation "inform")
  pure (some (record { task_id = s.task.id; operation = subtask.operation; content = content }))

unfoldable pub route_pending : Printer → String → Message → ℕ → Action Run (Option PersistJob)
unfolding route_inform
route_pending printer subtask_id reply now = do
  modify (mark_replied subtask_id)
  elim (same reply.performative refuse) [
    | true ↦
        schedule_retry_or_fail subtask_id
          (concat "refuse: " (printer.print (get reply.content "reason"))) now
        >> pure none
    | false ↦ route_inform subtask_id reply.content now
  ]

-- `_route_reply`: a reply with no subtask, or to one that is not pending, is dropped.
unfoldable pub route_reply : Printer → Message → ℕ → Action Run (Option PersistJob)
unfolding route_pending
route_reply printer reply now r = elim (reply.subtask_id) [
  | none ↦ (ok none, r)
  | some subtask_id ↦
      if contains subtask_id r.state.pending
      then route_pending printer subtask_id reply now r
      else (ok none, r)
]

unfoldable pub finalize : Config → ℕ → Action Run (Unit {0})
unfolding determine_final_status assemble_artifact
finalize config now = do
  s ← state
  let status = determine_final_status s.plan s.results
  observe (task_duration status (now - s.started_at))
  observe (tasks_total status)
  artifact ← or_throw (assemble_artifact config.validators s status now) validation_error
  call (artifact_saved s.task.id artifact)
  call (status_set s.task.id status)
