-- ===== src/Coordinator/Samples.antt =====
-- A small task, its coordinator and some of its runs, for the tests (agents/coordinator.py).
use mas_research.Base.{
  ap, ◌≢◌, same, true, false, String, ◌≡◌, refl, none, some, [], ◌∷◌, string_key, string_dec,
}
use mas_research.Base.Dict.{lookup, insert, erase, contains, add, discard}
use mas_research.Schemas.{
  FailedOperation, Operation, failed, ResultArtifact, Task, f3_summarize, f4_test, planning,
  operation_value, Operation-discrete,
}
use mas_research.Plan.{
  build_plan, subtask_id_for, dependency_map, agent_value, dependencies, eligible_operations,
  is_any_join, is_eligible, is_required, operation_to_agent, subtask_for, plan_get, by_id_from,
}
use mas_research.Values.{end, field, str, get}
use mas_research.Core.Messages.{
  performative_key, Performative-discrete, Message, inform, refuse, channel_for_agent, make_message,
}
use mas_research.Core.Retry.{agent_timeouts_sec}
use mas_research.Core.Status.{result_of}
use mas_research.Payloads.{
  build_by_operation, build_payload, build_summarizer, build_test_generator, chunks, chunks_of,
  content_of,
}
use mas_research.Core.Retry.{compute_backoff}
use mas_research.Base.Int.{pos}
use mas_research.Coordinator.State.{
  retries, TaskState, submitted, mark_retry, mark_published, id_set, mark_failed,
}
use mas_research.Coordinator.Effects.{World, Run, Result, ok, raise, call, call_world, new_message}
use mas_research.Core.Status.{determine_final_status}
use mas_research.Plan.{agent_class_name}
use mas_research.Coordinator.Assembly.{
  assemble_artifact, assemble_payload, assemble_from, failed_operation, elapsed, assemble_artifact,
}
use mas_research.Coordinator.Handlers.{
  Config, Printer, publish, request_for, timeout_for, fail_subtask, schedule_retry,
  schedule_retry_or_fail,
}
use mas_research.Coordinator.Advance.{
  advance, advance_loop, advance_fuel, advance_round, dispatch_ready, expire_timeouts,
  republish_due, for_changed, visit_subtask, visit_deadline, visit_retry, start_subtask, expire,
  republish,
}
use mas_research.Coordinator.Loop.{Coordinator}
use mas_research.Coordinator.Progress.{Ensures}
use mas_research.Coordinator.Start.{submitted-IsWf}
use mas_research.Coordinator.Rounds.{Settled, advance-Settled}
use mas_research.Coordinator.Sweep.{AllTaskOk}
use mas_research.Coordinator.Ticks.{insert-AllTaskOk}

abbrev pub sample_task : Task
sample_task = record {
  id = "t1";
  user_id = "demo-user";
  status = planning;
  requested_outputs = f3_summarize ∷ f4_test ∷ [];
  conversation_id = "conv-t1";
  documents = [];
}

abbrev pub sample_state : TaskState
sample_state = submitted sample_task (build_plan sample_task) 0

abbrev pub sample_world : World
sample_world = record {
  hex = λ n. "hex";
  utc = λ n. "utc";
  made = 0;
  fails = λ n. false;
  calls = 0;
  log = [];
}

abbrev pub sample_config : Config
sample_config = record {
  timeouts = [];
  global_deadline_sec = 1_800_000;
  validators = record {
    summary = λ c. none;
    term = λ v. none;
    question = λ v. none;
    citation = λ v. none;
  };
}

abbrev pub sample_run : Run
sample_run = record { state = sample_state; world = sample_world }

abbrev pub sample_printer : Printer
sample_printer = record { print = λ v. "reason" }

abbrev pub sample_coordinator : Coordinator
sample_coordinator = record {
  config = sample_config;
  printer = sample_printer;
  tasks = ("t1", sample_state) ∷ [];
  idempotency = record { cache_size = 1000; seen = [] };
  world = sample_world;
}

abbrev pub sample_reply : Message
sample_reply = record {
  message_id = "msg-1";
  timestamp = "utc";
  performative = inform;
  sender = "SummarizerAgent";
  receiver = "CoordinatorAgent";
  task_id = "t1";
  conversation_id = "conv-t1-F3";
  content = field "summary_id" (str "s1") end;
  reply_to = "agent.coordinator.inbox";
  in_reply_to = some "msg-0";
  subtask_id = some "st-t1-F3";
}

-- The summary is requested at once, and its deadline is set.
pub advance_returns :
    ((advance sample_config 0 sample_run).0 ≡ ok tt)
    × (lookup "st-t1-F3" (advance sample_config 0 sample_run).1.state.deadlines ≡ some 90_000)
    × (contains "st-t1-F4" (advance sample_config 0 sample_run).1.state.pending ≡ true)
unfolding advance build_plan submitted lookup insert erase contains add discard advance_loop
    advance_fuel advance_round dispatch_ready expire_timeouts republish_due for_changed
    visit_subtask visit_deadline visit_retry start_subtask string_dec subtask_id_for operation_value
    dependency_map Operation-discrete publish mark_published call call_world new_message request_for
    timeout_for id_set channel_for_agent make_message agent_timeouts_sec result_of
    build_by_operation build_payload build_summarizer build_test_generator chunks chunks_of
    content_of agent_value dependencies eligible_operations is_any_join is_eligible is_required
    operation_to_agent subtask_for expire republish fail_subtask schedule_retry
    schedule_retry_or_fail mark_failed mark_retry plan_get by_id_from get
advance_returns = (refl, refl, refl)

pub settled : Settled sample_config 0 sample_run tt (advance sample_config 0 sample_run).1
settled = returned (advance sample_config 0 sample_run) advance_returns.0 (
    advance-Settled sample_config 0 sample_run
      (submitted-IsWf sample_task (build_plan sample_task) 0))
  where
    returned :
        (x : Result (Unit {0}) × Run)
        → x.0 ≡ ok tt
        → Ensures (Settled sample_config 0 sample_run) x
        → Settled sample_config 0 sample_run tt x.1
    returned (ok a, r) e h = h
    returned (raise error, r) e h = absurd (cc e)

pub sample_AllTaskOk : AllTaskOk sample_coordinator
unfolding insert AllTaskOk lookup submitted
sample_AllTaskOk =
    insert-AllTaskOk "t1" sample_state (record sample_coordinator { tasks = [] }) sample_coordinator
      refl
      (record { wf = submitted-IsWf sample_task (build_plan sample_task) 0; built = built_plan })
      (λ k s e. absurd (cc e))
  where
    built_plan : sample_state.plan ≡ build_plan sample_task
    built_plan = refl

abbrev pub first_round : Run
first_round = (advance sample_config 0 sample_run).1

pub first_round_plan : first_round.state.plan ≡ build_plan sample_task
unfolding submitted
first_round_plan = settled.1

pub sample_pending : contains "st-t1-F3" sample_run.state.pending ≡ true
unfolding lookup contains add id_set submitted string_dec subtask_id_for operation_value build_plan
    subtask_for eligible_operations is_eligible dependency_map dependencies Operation-discrete
sample_pending = refl

pub sample_informs : same sample_reply.performative refuse ≡ false
unfolding Performative-discrete
sample_informs = refl

abbrev pub no_reply : Operation → String → FailedOperation
no_reply op agent = record {
  op = op;
  agent = agent;
  reason = "no_reply";
  retries = 0;
  elapsed_sec = 0;
}

abbrev pub sample_artifact : ResultArtifact
sample_artifact = record {
  task_id = "t1";
  status = failed;
  operations = [];
  result = record { summary = none; terms = []; quiz = []; citations = [] };
  degraded = f3_summarize ∷ f4_test ∷ [];
  stats = record {
    duration_sec = 4;
    agents_called = 3;
    messages_exchanged = 0;
    failed_operations =
        no_reply f3_summarize "SummarizerAgent" ∷ no_reply f4_test "TestGeneratorAgent" ∷ [];
  };
}

pub sample_assembled :
    assemble_artifact sample_config.validators sample_state
      (determine_final_status sample_state.plan sample_state.results)
      4
    ≡ some sample_artifact
unfolding assemble_artifact determine_final_status assemble_payload assemble_from result_of
    failed_operation elapsed agent_class_name add lookup contains id_set submitted string_dec
    subtask_id_for operation_value build_plan subtask_for eligible_operations is_eligible
    dependency_map dependencies Operation-discrete operation_to_agent agent_value is_required
    is_any_join
sample_assembled = refl

pub first_backoff : compute_backoff (pos (retries sample_state "st-t1-F3")) ≡ some 1_000
unfolding compute_backoff submitted lookup
first_backoff = refl

pub other_task : ◌≢◌ {A = String} "t1" "t2"
unfolding string_dec
other_task e = let apart : true ≡ false = ap (λ k. same "t1" k) e in absurd (cc apart)
