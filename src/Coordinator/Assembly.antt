-- ===== src/Coordinator/Assembly.antt =====
-- The artifact of a finished task (agents/assembly.py). The pydantic validators of the result models
-- are a parameter: `none` is a ValidationError.
use mas_research.Base.{
  ℕ, ◌+◌, ◌-◌, String, Bool, not, Option, none, some, is_some, or_else, List, [], ◌∷◌, map, select,
  length, string_key,
}
use mas_research.Base.Dict.{lookup, add}
use mas_research.Schemas.{
  Operation, f3_summarize, f4_test, f5_terms, f6_recommend, TaskStatus, Summary, Term, QuizQuestion,
  Citation, FailedOperation, ResultPayload, ResultArtifact,
}
use mas_research.Plan.{Subtask, Plan, agent_class_name, agent_value}
use mas_research.Values.{Value, Fields, get, as_list}
use mas_research.Core.Status.{Results, result_of}
use mas_research.Coordinator.State.{TaskState, retries}

-- `model_validate` of the four models.
pub record Validators : Type 0 where
  pub summary : Fields → Option Summary
  pub term : Value → Option Term
  pub question : Value → Option QuizQuestion
  pub citation : Value → Option Citation

-- `[Model.model_validate(item) for item in items]`
unfoldable pub validate_all {ℓ} : {A : Type ℓ} → (Value → Option A) → List Value → Option (List A)
validate_all validate [] = some []
validate_all validate (v ∷ vs) = elim (validate v) [
  | none ↦ none
  | some a ↦ elim (validate_all validate vs) [ none ↦ none | some rest ↦ some (a ∷ rest) ]
]

-- `_as_list(content.get(key))`
abbrev items : Fields → String → List Value
items content key = or_else (as_list (get content key)) []

abbrev with_field {ℓ} : {A : Type ℓ} → Option A → (A → ResultPayload) → Option ResultPayload
with_field none f = none
with_field (some a) f = some (f a)

-- One round of the loop of `assemble_payload`.
unfoldable pub place : Validators → Operation → Fields → ResultPayload → Option ResultPayload
unfolding validate_all
place v f3_summarize content p = with_field (v.summary content) (λ a. record p { summary = some a })
place v f5_terms content p =
    with_field (validate_all v.term (items content "terms")) (λ a. record p { terms = a })
place v f4_test content p =
    with_field (validate_all v.question (items content "questions")) (λ a. record p { quiz = a })
place v f6_recommend content p =
    with_field (validate_all v.citation (items content "citations"))
      (λ a. record p { citations = a })
place v _ content p = some p

abbrev pub empty_payload : ResultPayload
empty_payload = record { summary = none; terms = []; quiz = []; citations = [] }

unfoldable pub assemble_from :
    Validators → Results → ResultPayload → List Subtask → Option ResultPayload
unfolding place
assemble_from v results p [] = some p
assemble_from v results p (s ∷ ss) = elim (result_of results s.id) [
  | none ↦ assemble_from v results p ss
  | some content ↦ elim (place v s.operation content p) [
    | none ↦ none
    | some q ↦ assemble_from v results q ss
  ]
]

unfoldable pub assemble_payload : Validators → Plan → Results → Option ResultPayload
unfolding assemble_from
assemble_payload v plan results = assemble_from v results empty_payload plan.subtasks

-- `_elapsed`: the clock is in milliseconds, so `round(…, 3)` changes nothing.
unfoldable pub elapsed : TaskState → String → ℕ → ℕ
elapsed s subtask_id now = elim (lookup subtask_id s.first_attempt_at) [
  | none ↦ 0
  | some started ↦ or_else (lookup subtask_id s.resolved_at) now - started
]

unfoldable pub failed_operation : TaskState → ℕ → Subtask → FailedOperation
unfolding elapsed agent_class_name
failed_operation s now subtask = record {
  op = subtask.operation;
  agent = agent_class_name subtask.agent;
  reason = or_else (lookup subtask.id s.fail_reason) "no_reply";
  retries = retries s subtask.id;
  elapsed_sec = elapsed s subtask.id now;
}

-- The subtasks with a result, and those without.
abbrev pub has_result : TaskState → Subtask → Bool
has_result s subtask = is_some (result_of s.results subtask.id)

abbrev pub lacks_result : TaskState → Subtask → Bool
lacks_result s subtask = not (is_some (result_of s.results subtask.id))

abbrev agent_set : List Subtask → List String
agent_set [] = []
agent_set (s ∷ ss) = add (agent_value s.agent) (agent_set ss)

unfoldable pub assemble_artifact : Validators → TaskState → TaskStatus → ℕ → Option ResultArtifact
unfolding assemble_payload failed_operation
assemble_artifact v s status now = elim (assemble_payload v s.plan s.results) [
  | none ↦ none
  | some payload ↦ some (record {
    task_id = s.task.id;
    status = status;
    operations = map (λ t. t.operation) (select (has_result s) s.plan.subtasks);
    result = payload;
    degraded = map (λ t. t.operation) (select (lacks_result s) s.plan.subtasks);
    stats = record {
      duration_sec = now - s.started_at;
      agents_called = length (agent_set s.plan.subtasks) + 1;
      messages_exchanged = s.messages_exchanged;
      failed_operations = map (failed_operation s now) (select (lacks_result s) s.plan.subtasks);
    };
  })
]
