-- ===== src/Schemas.antt =====
-- The domain entities (core/schemas.py): enumerations with their wire values, and records with the
-- fields of the pydantic models. A missing value (`None`) is `none`.
use mas_research.Base.{
  if◌then◌else◌, ℕ, String, true, false, ◌≡◌, refl, Option, none, some, List, Key, string_key,
  string_dec, same,
}
use mas_research.Base.Int.{ℤ}
use mas_research.Values.{Fields, Float}

pub data Operation : Type 0 where
  f1_transcribe f2_ocr f3_summarize f4_test f5_terms f6_recommend : Operation

unfoldable pub operation_value : Operation → String
operation_value f1_transcribe = "F1"
operation_value f2_ocr = "F2"
operation_value f3_summarize = "F3"
operation_value f4_test = "F4"
operation_value f5_terms = "F5"
operation_value f6_recommend = "F6"

-- `Operation(value)`; `none` is its ValueError.
unfoldable pub operation_of : String → Option Operation
operation_of v = elim (same v "F1") [
  | true ↦ some f1_transcribe
  | false ↦ elim (same v "F2") [
    | true ↦ some f2_ocr
    | false ↦ elim (same v "F3") [
      | true ↦ some f3_summarize
      | false ↦ elim (same v "F4") [
        | true ↦ some f4_test
        | false ↦ elim (same v "F5") [
          | true ↦ some f5_terms
          | false ↦ elim (same v "F6") [ true ↦ some f6_recommend | false ↦ none ]
        ]
      ]
    ]
  ]
]

-- `Operation(value)` reads back the value of every operation.
pub operation_of-operation_value : (o : Operation) → operation_of (operation_value o) ≡ some o
unfolding operation_of operation_value string_dec
operation_of-operation_value f1_transcribe = refl
operation_of-operation_value f2_ocr = refl
operation_of-operation_value f3_summarize = refl
operation_of-operation_value f4_test = refl
operation_of-operation_value f5_terms = refl
operation_of-operation_value f6_recommend = refl

unfoldable pub Operation-discrete : Discrete Operation
Operation-discrete = hlevel

instance abbrev pub operation_key : Key Operation
operation_key = record { dec = Operation-discrete }

pub data DocumentType : Type 0 where
  audio image pdf text : DocumentType

unfoldable pub document_type_value : DocumentType → String
document_type_value audio = "audio"
document_type_value image = "image"
document_type_value pdf = "pdf"
document_type_value text = "text"

unfoldable pub DocumentType-discrete : Discrete DocumentType
DocumentType-discrete = hlevel

instance abbrev pub document_type_key : Key DocumentType
document_type_key = record { dec = DocumentType-discrete }

pub data TaskStatus : Type 0 where
  planning running partial_ready completed failed : TaskStatus

unfoldable pub task_status_value : TaskStatus → String
task_status_value planning = "planning"
task_status_value running = "running"
task_status_value partial_ready = "partial_ready"
task_status_value completed = "completed"
task_status_value failed = "failed"

pub record Document : Type 0 where
  pub id : String
  pub task_id : String
  pub document_type : DocumentType
  pub file_path : String
  pub original_name : Option String
  pub metadata : Fields

pub record TextChunk : Type 0 where
  pub id : String
  pub task_id : String
  pub document_id : String
  pub source_type : String
  pub content : String
  pub chunk_index : ℤ
  pub confidence : Option Float
  pub meta : Fields

-- `DocumentType(value)` and `TaskStatus(value)`; `none` is the ValueError.
unfoldable pub document_type_of : String → Option DocumentType
document_type_of v =
    if same v "audio"
    then some audio
    else if same v "image"
    then some image
    else if same v "pdf"
    then some pdf
    else if same v "text"
    then some text
    else none

unfoldable pub task_status_of : String → Option TaskStatus
task_status_of v =
    if same v "planning"
    then some planning
    else if same v "running"
    then some running
    else if same v "partial_ready"
    then some partial_ready
    else if same v "completed"
    then some completed
    else if same v "failed"
    then some failed
    else none

pub data SectionType : Type 0 where
  introduction thesis conclusion : SectionType

pub record SummarySection : Type 0 where
  pub type : SectionType
  pub text : String

pub record Summary : Type 0 where
  pub summary_id : String
  pub sections : List SummarySection
  pub source_chunk_ids : List String

pub record Term : Type 0 where
  pub term : String
  pub lemma : String
  pub frequency : ℤ
  pub category : String
  pub context : Option String
  pub source_chunk_id : Option String

pub data QuestionType : Type 0 where
  single_choice multi_choice open_answer : QuestionType

-- The stem and the choices are lists of code points, since the program walks them.
pub record QuizQuestion : Type 0 where
  pub question : List ℕ
  pub type : QuestionType
  pub choices : List (List ℕ)
  pub answer_idx : Option ℤ
  pub answer_indices : Option (List ℤ)
  pub source_chunk_id : Option String

pub record Citation : Type 0 where
  pub title : String
  pub authors : Option String
  pub year : Option ℤ
  pub url : Option String
  pub relevance_score : Float

pub record Task : Type 0 where
  pub id : String
  pub user_id : String
  pub status : TaskStatus
  pub requested_outputs : List Operation
  pub conversation_id : String
  pub documents : List Document

-- Times are milliseconds, here and in the Coordinator.
pub record FailedOperation : Type 0 where
  pub op : Operation
  pub agent : String
  pub reason : String
  pub retries : ℕ
  pub elapsed_sec : ℕ

pub record ResultStats : Type 0 where
  pub duration_sec : ℕ
  pub agents_called : ℕ
  pub messages_exchanged : ℕ
  pub failed_operations : List FailedOperation

pub record ResultPayload : Type 0 where
  pub summary : Option Summary
  pub terms : List Term
  pub quiz : List QuizQuestion
  pub citations : List Citation

pub record ResultArtifact : Type 0 where
  pub task_id : String
  pub status : TaskStatus
  pub operations : List Operation
  pub result : ResultPayload
  pub degraded : List Operation
  pub stats : ResultStats
