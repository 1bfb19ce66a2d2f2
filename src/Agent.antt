-- ===== src/Agent.antt =====
-- The loop that all agents share (agents/base.py): reading requests, handling each once, replying and
-- acknowledging. A subclass's `handle` is a parameter.
pub mod Replies
pub mod Reading
use Prim.Native.String.{◌++◌ as concat}
use mas_research.Base.{
  ℕ, ◌+◌, String, Bool, true, false, Option, none, some, List, [], ◌∷◌, same, string_key,
  if◌then◌else◌,
}
use mas_research.Schemas.{Operation, operation_value}
use mas_research.Values.{Fields, end, field, str}
use mas_research.Core.Messages.{Message, Draft, inform, refuse, make_message}
use mas_research.Core.Idempotency.{IdempotentReceiver, accept}

-- What `handle` does with a request: a reply or none, an adapter's failure (OSError, ConnectionError,
-- TimeoutError, RuntimeError, ImportError) with its class, or any other raise.
pub data Handled : Type 0 where
  replies : Option Message → Handled
  adapter_error : String → Handled
  raises : Handled

-- `AgentBase`, and its environment: the two flags, uuid4 and the clock by the number of messages
-- made, and which publish or ack raises, by its number.
pub record Agent : Type 0 where
  pub name : String
  pub operation : Operation
  pub handle : Message → Handled
  pub force_refuse : String
  pub hang_agent : String
  pub hex : ℕ → String
  pub utc : ℕ → String
  pub fails : ℕ → Bool

pub data Effect : Type 0 where
  published : Message → Effect
  acked : String → Effect
  slept : Effect
  handled : Message → Effect

-- What changes as the agent runs. The log has the newest effect in front.
pub record Desk : Type 0 where
  pub idempotency : IdempotentReceiver
  pub made : ℕ
  pub calls : ℕ
  pub log : List Effect

-- `_is_flagged`
abbrev pub is_flagged : Agent → String → Bool
is_flagged agent flag = same flag (operation_value agent.operation)

-- What `_inform` and `_refuse` give to `make_message`.
unfoldable pub inform_draft : Agent → Message → Fields → Draft
inform_draft agent request content = record {
  performative = inform;
  sender = agent.name;
  receiver = request.sender;
  task_id = request.task_id;
  conversation_id = request.conversation_id;
  content = content;
  in_reply_to = some request.message_id;
  subtask_id = request.subtask_id;
}

unfoldable pub refuse_draft : Agent → Message → String → Draft
refuse_draft agent request reason = record {
  performative = refuse;
  sender = agent.name;
  receiver = request.sender;
  task_id = request.task_id;
  conversation_id = request.conversation_id;
  content = field "reason" (str reason) end;
  in_reply_to = some request.message_id;
  subtask_id = request.subtask_id;
}

-- `_refuse`
unfoldable pub refuse_request : Agent → Message → String → Desk → Message × Desk
unfolding refuse_draft make_message
refuse_request agent request reason d = (
  make_message (agent.hex d.made) (agent.utc d.made) (refuse_draft agent request reason),
  record d { made = d.made + 1 },
)

-- A result of `_safe_handle`: a reply or none, or a raise that goes on to the loop.
pub data Outcome (A : Type 0) : Type 0 where
  done : A → Outcome A
  raised : Outcome A

abbrev note : Effect → Desk → Desk
note e d = record d { log = e ∷ d.log }

abbrev refused_with : Message × Desk → Outcome (Option Message) × Desk
refused_with (reply, d) = (done (some reply), d)

unfoldable pub after_handle : Agent → Message → Handled → Desk → Outcome (Option Message) × Desk
unfolding refuse_request
after_handle agent request (replies reply) d = (done reply, d)
after_handle agent request (adapter_error kind) d =
    refused_with (refuse_request agent request (concat "adapter error: " kind) d)
after_handle agent request raises d = (raised, d)

-- A hanging agent sleeps for a day and then handles the message.
unfoldable pub safe_handle : Agent → Message → Desk → Outcome (Option Message) × Desk
unfolding after_handle operation_value
safe_handle agent request d =
    if is_flagged agent agent.force_refuse
    then refused_with (refuse_request agent request "force_refuse flag enabled" d)
    else let awake = if is_flagged agent agent.hang_agent then note slept d else d in
      after_handle agent request (agent.handle request) (note (handled request) awake)

-- A call of the bus: it raises, or it takes effect.
unfoldable pub bus_call : Agent → Effect → Desk → Outcome (Unit {0}) × Desk
bus_call agent e d =
    if agent.fails d.calls
    then (raised, record d { calls = d.calls + 1 })
    else (done tt, record d { calls = d.calls + 1; log = e ∷ d.log })

abbrev pub then_do :
    {A B : Type 0} → Outcome A × Desk → (A → Desk → Outcome B × Desk) → Outcome B × Desk
then_do (done a, d) f = f a d
then_do (raised, d) f = (raised, d)

unfoldable pub publish_reply : Agent → Option Message → Desk → Outcome (Unit {0}) × Desk
unfolding bus_call
publish_reply agent none d = (done tt, d)
publish_reply agent (some reply) d = bus_call agent (published reply) d

-- One entry of the channel.
unfoldable pub read_entry : Agent → String → Message → Desk → Outcome (Unit {0}) × Desk
unfolding safe_handle publish_reply
read_entry agent entry_id message d =
    let (idempotency, fresh) = accept d.idempotency message.message_id in
    let seen = record d { idempotency = idempotency } in
    if fresh
    then then_do (safe_handle agent message seen) (λ reply d'.
      then_do (publish_reply agent reply d') (λ _ d''. bus_call agent (acked entry_id) d''))
    else bus_call agent (acked entry_id) seen

-- `_read_once`: a raise ends it, with the entry not acknowledged.
unfoldable pub read_once : Agent → List (String × Message) → Desk → Outcome (Unit {0}) × Desk
unfolding read_entry
read_once agent [] d = (done tt, d)
read_once agent ((entry_id, message) ∷ entries) d =
    then_do (read_entry agent entry_id message d) (λ _ d'. read_once agent entries d')
