-- ===== src/Plan.antt =====
-- The plan of a task, a graph of subtasks (plan.py).
pub mod Ids
pub mod Dag
pub mod Find
use mas_research.Base.{
  ℕ, String, Bool, true, false, ◌||◌, Option, none, some, List, [], ◌∷◌, map, any, select, Key,
  string_key, same,
}
use mas_research.Base.Dict.{Dict, lookup, insert, contains}
use mas_research.Schemas.{
  Operation, f1_transcribe, f2_ocr, f3_summarize, f4_test, f5_terms, f6_recommend, operation_value,
  operation_key, DocumentType, audio, image, pdf, document_type_key, Task,
}
use mas_research.Values.{Fields, end}
use Prim.Native.String.{◌++◌ as concat}

pub data AgentName : Type 0 where
  transcriber ocr summarizer test_generator terminology recommender : AgentName

pub data JoinPolicy : Type 0 where
  all_of any_of : JoinPolicy

unfoldable pub agent_value : AgentName → String
agent_value transcriber = "transcriber"
agent_value ocr = "ocr"
agent_value summarizer = "summarizer"
agent_value test_generator = "test_generator"
agent_value terminology = "terminology"
agent_value recommender = "recommender"

-- `agent in REQUIRED_AGENTS`
unfoldable pub is_required : AgentName → Bool
is_required transcriber = true
is_required ocr = true
is_required _ = false

unfoldable pub operation_to_agent : Operation → AgentName
operation_to_agent f1_transcribe = transcriber
operation_to_agent f2_ocr = ocr
operation_to_agent f3_summarize = summarizer
operation_to_agent f4_test = test_generator
operation_to_agent f5_terms = terminology
operation_to_agent f6_recommend = recommender

-- `operation in ANY_JOIN_OPERATIONS`
unfoldable pub is_any_join : Operation → Bool
is_any_join f3_summarize = true
is_any_join f5_terms = true
is_any_join f6_recommend = true
is_any_join _ = false

pub record Subtask : Type 0 where
  pub id : String
  pub agent : AgentName
  pub operation : Operation
  pub payload : Fields
  pub depends_on : List String
  pub required : Bool
  pub join : JoinPolicy

pub record Plan : Type 0 where
  pub task_id : String
  pub subtasks : List Subtask

-- The dict comprehension of `_by_id`: of two subtasks with one id the later stays.
unfoldable pub by_id_from : Dict String Subtask → List Subtask → Dict String Subtask
by_id_from index [] = index
by_id_from index (s ∷ ss) = by_id_from (insert s.id s index) ss

-- `Plan.get`; `none` is its KeyError.
unfoldable pub plan_get : Plan → String → Option Subtask
unfolding by_id_from
plan_get plan subtask_id = lookup subtask_id (by_id_from [] plan.subtasks)

unfoldable pub dependency_map : Operation → List Operation
dependency_map f3_summarize = f1_transcribe ∷ f2_ocr ∷ []
dependency_map f5_terms = f1_transcribe ∷ f2_ocr ∷ []
dependency_map f4_test = f3_summarize ∷ []
dependency_map f6_recommend = f3_summarize ∷ f5_terms ∷ []
dependency_map _ = []

unfoldable pub agent_class_name : AgentName → String
agent_class_name transcriber = "TranscriberAgent"
agent_class_name ocr = "OCRAgent"
agent_class_name summarizer = "SummarizerAgent"
agent_class_name test_generator = "TestGeneratorAgent"
agent_class_name terminology = "TerminologyAgent"
agent_class_name recommender = "RecommenderAgent"

unfoldable pub subtask_id_for : String → Operation → String
subtask_id_for task_id operation =
    concat "st-" (concat task_id (concat "-" (operation_value operation)))

-- One round of the loop of `_eligible_operations`: false is its `continue`.
unfoldable pub is_eligible : Task → Operation → Bool
is_eligible task f1_transcribe = any (λ d. same d.document_type audio) task.documents
is_eligible task f2_ocr =
    any (λ d. same d.document_type pdf || same d.document_type image) task.documents
is_eligible task _ = true

unfoldable pub eligible_operations : Task → List Operation
unfolding is_eligible
eligible_operations task = select (is_eligible task) task.requested_outputs

unfoldable pub dependencies : Operation → List Operation → String → List String
dependencies operation eligible task_id =
    map (subtask_id_for task_id)
      (select (λ upstream. contains upstream eligible) (dependency_map operation))

unfoldable pub subtask_for : Task → List Operation → Operation → Subtask
unfolding dependencies operation_to_agent is_required is_any_join
subtask_for task eligible operation = record {
  id = subtask_id_for task.id operation;
  agent = operation_to_agent operation;
  operation = operation;
  payload = end;
  depends_on = dependencies operation eligible task.id;
  required = is_required (operation_to_agent operation);
  join = elim (is_any_join operation) [ true ↦ any_of | false ↦ all_of ];
}

unfoldable pub build_plan : Task → Plan
unfolding eligible_operations subtask_for
build_plan task =
    let eligible = eligible_operations task in
    record { task_id = task.id; subtasks = map (subtask_for task eligible) eligible }
