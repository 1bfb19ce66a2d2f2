-- ===== src/Tests/Requests.antt =====
-- A request, its reply and the Coordinator at a concrete input (agents/base.py, agents/coordinator.py).
use mas_research.Base.{true, false, ◌≡◌, refl, [], ◌∷◌, string_key, string_dec}
use mas_research.Base.Dict.{contains, add}
use mas_research.Values.{end}
use mas_research.Schemas.{Task, f3_summarize, planning, operation_value, Operation-discrete}
use mas_research.Plan.{
  Subtask, build_plan, summarizer, any_of, subtask_id_for, subtask_for, eligible_operations,
  is_eligible, dependencies, dependency_map,
}
use mas_research.Core.Messages.{make_message}
use mas_research.Coordinator.State.{TaskState, submitted, id_set}
use mas_research.Coordinator.Effects.{Run}
use mas_research.Coordinator.Handlers.{Printer, request_for}
use mas_research.Coordinator.Reply.{route_reply}
use mas_research.Coordinator.Routing.{Returns}
use mas_research.Coordinator.Replies.{Resolved}
use mas_research.Coordinator.Start.{submitted-IsWf}
use mas_research.Agent.{Agent, raises, inform_draft}
use mas_research.Agent.Replies.{inform-Resolved}

abbrev task : Task
task = record {
  id = "t1";
  user_id = "demo-user";
  status = planning;
  requested_outputs = f3_summarize ∷ [];
  conversation_id = "conv-t1";
  documents = [];
}

abbrev state : TaskState
state = submitted task (build_plan task) 0

abbrev run : Run
run = record {
  state = state;
  world = record {
    hex = λ n. "hex";
    utc = λ n. "utc";
    made = 0;
    fails = λ n. false;
    calls = 0;
    log = [];
  };
}

abbrev agent : Agent
agent = record {
  name = "SummarizerAgent";
  operation = f3_summarize;
  handle = λ m. raises;
  force_refuse = "";
  hang_agent = "";
  hex = λ n. "hex";
  utc = λ n. "utc";
  fails = λ n. false;
}

abbrev printer : Printer
printer = record { print = λ v. "reason" }

abbrev subtask : Subtask
subtask = record {
  id = "st-t1-F3";
  agent = summarizer;
  operation = f3_summarize;
  payload = end;
  depends_on = [];
  required = false;
  join = any_of;
}

still_pending : contains "st-t1-F3" run.state.pending ≡ true
unfolding contains add id_set submitted string_dec subtask_id_for operation_value build_plan
    subtask_for eligible_operations is_eligible dependency_map dependencies Operation-discrete
still_pending = refl

inform-Resolved_example :
    let reply =
      make_message "b" "utc"
        (inform_draft agent (make_message "a" "utc" (request_for state subtask)) end) in
    Returns (Resolved "st-t1-F3" reply) (route_reply printer reply 3 run)
inform-Resolved_example =
    inform-Resolved agent end subtask printer 3 "a" "utc" "b" "utc" state run
      (submitted-IsWf task (build_plan task) 0) still_pending
