-- ===== src/Core/Messages.antt =====
-- Bus messages (core/messages.py) and channel names (core/bus.py).
use Prim.Native.String.{◌++◌ as concat}
use mas_research.Base.{String, true, false, Option, Key, string_key, same}
use mas_research.Values.{Fields}

pub data Performative : Type 0 where
  request inform refuse query_ref : Performative

unfoldable pub Performative-discrete : Discrete Performative
Performative-discrete = hlevel

instance abbrev pub performative_key : Key Performative
performative_key = record { dec = Performative-discrete }

pub record Message : Type 0 where
  pub message_id : String
  pub performative : Performative
  pub sender : String
  pub receiver : String
  pub task_id : String
  pub conversation_id : String
  pub content : Fields
  pub reply_to : String
  pub timestamp : String
  pub in_reply_to : Option String
  pub subtask_id : Option String

-- What the caller of `make_message` gives.
pub record Draft : Type 0 where
  pub performative : Performative
  pub sender : String
  pub receiver : String
  pub task_id : String
  pub conversation_id : String
  pub content : Fields
  pub in_reply_to : Option String
  pub subtask_id : Option String

-- `hex` is `uuid.uuid4().hex[:8]`, and `now` the time in ISO format.
unfoldable pub make_message : String → String → Draft → Message
make_message hex now d = record {
  message_id = concat "msg-" hex;
  performative = d.performative;
  sender = d.sender;
  receiver = d.receiver;
  task_id = d.task_id;
  conversation_id = d.conversation_id;
  content = d.content;
  reply_to = "agent.coordinator.inbox";
  timestamp = now;
  in_reply_to = d.in_reply_to;
  subtask_id = d.subtask_id;
}

unfoldable pub channel_for_agent : String → String
channel_for_agent agent = elim (same agent "coordinator") [
  | true ↦ "agent.coordinator.inbox"
  | false ↦ concat "agent." agent
]
