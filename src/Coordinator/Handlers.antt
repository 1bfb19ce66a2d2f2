-- ===== src/Coordinator/Handlers.antt =====
-- What the dispatch loop does to one subtask: fail it, schedule its retry, publish its request
-- (agents/coordinator.py). `now` is the clock reading of the tick.
use Prim.Native.String.{◌++◌ as concat}
use mas_research.Base.{ℕ, String, Option, none, some, or_else, leb, if◌then◌else◌, string_key}
use mas_research.Base.Dict.{Dict, lookup}
use mas_research.Schemas.{operation_value}
use mas_research.Plan.{AgentName, agent_value, Subtask}
use mas_research.Values.{Value}
use mas_research.Payloads.{build_payload}
use mas_research.Core.Retry.{retry_max, agent_timeouts_sec}
use mas_research.Core.Messages.{Draft, request, performative_key, channel_for_agent}
use mas_research.Coordinator.Assembly.{Validators}
use mas_research.Coordinator.State.{TaskState, retries, mark_failed, mark_retry, mark_published}
use mas_research.Coordinator.Effects.{
  Run, Action, ◌>>=◌, ◌>>◌, state, modify, observe, call, new_message, planned, retries_total,
  subtask_outcome, sent,
}

-- The constructor's arguments that the handlers read.
pub record Config : Type 0 where
  pub timeouts : Dict String ℕ
  pub global_deadline_sec : ℕ
  pub validators : Validators

-- `str(reason)` inside an f-string, for a text; what Python prints for another value is left open.
pub record Printer : Type 0 where
  pub print : Option Value → String

unfoldable pub timeout_for : Config → AgentName → ℕ
unfolding agent_timeouts_sec
timeout_for config agent =
    or_else (lookup (agent_value agent) config.timeouts) (agent_timeouts_sec agent)

unfoldable pub fail_subtask : String → String → ℕ → Action Run (Unit {0})
fail_subtask subtask_id reason now = do
  modify (mark_failed subtask_id reason now)
  subtask ← planned subtask_id
  observe (subtask_outcome subtask.operation "failed")

unfoldable pub schedule_retry : String → String → ℕ → Action Run (Unit {0})
schedule_retry subtask_id reason now = do
  modify (mark_retry subtask_id reason now)
  subtask ← planned subtask_id
  observe (retries_total subtask.operation)

unfoldable pub schedule_retry_or_fail : String → String → ℕ → Action Run (Unit {0})
unfolding fail_subtask schedule_retry
schedule_retry_or_fail subtask_id reason now r =
    if leb retry_max (retries r.state subtask_id)
    then fail_subtask subtask_id reason now r
    else schedule_retry subtask_id reason now r

unfoldable pub request_for : TaskState → Subtask → Draft
unfolding build_payload agent_value operation_value
request_for s subtask = record {
  performative = request;
  sender = "CoordinatorAgent";
  receiver = agent_value subtask.agent;
  task_id = s.task.id;
  conversation_id =
      concat "conv-" (concat s.task.id (concat "-" (operation_value subtask.operation)));
  content = build_payload subtask s.task s.results;
  in_reply_to = none;
  subtask_id = some subtask.id;
}

unfoldable pub publish : Config → Subtask → ℕ → Action Run (Unit {0})
unfolding request_for timeout_for new_message call
publish config subtask now = do
  s ← state
  message ← new_message (request_for s subtask)
  call (sent (channel_for_agent (agent_value subtask.agent)) message)
  modify (mark_published subtask.id (timeout_for config subtask.agent) now)
