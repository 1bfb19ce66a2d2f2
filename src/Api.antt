-- ===== src/Api.antt =====
-- The routes that take tasks and give out results (api/routes.py). What the upload of a file and the
-- queries return is given: its type and its path (Api.Files has these), the sizes of its parts, and the
-- row of a task. Storing a task and a file is I/O.
pub mod Accepted
pub mod Files
pub mod Names
use Prim.Native.String.{◌++◌ as concat}
use mas_research.Base.{
  ◌==◌, ℕ, ◌+◌, ◌*◌, String, Bool, true, false, not, Option, none, some, List, [], ◌∷◌, all, any,
  is_empty, ltb, same, string_key, if◌then◌else◌,
}
use mas_research.Base.Decimal.{show}
use mas_research.Values.{Fields, end}
use mas_research.Schemas.{
  Operation, operation_of, DocumentType, text, document_type_key, Document, Task, planning,
}
use mas_research.Db.Rows.{TaskRow}
use mas_research.Db.Recovery.{all_of_them}

-- An uploaded file: its name, the detected type, where it is written (none: the name is refused), and
-- the sizes of the parts that are read from it.
pub record Upload : Type 0 where
  pub filename : Option String
  pub kind : DocumentType
  pub destination : Option String
  pub parts : List ℕ

-- 200 * 1024 * 1024
abbrev pub max_upload_bytes : ℕ
max_upload_bytes = 209_715_200

-- The loop of `_save_upload`: false is its 413. An empty part is the end of the file.
unfoldable pub save_from : ℕ → List ℕ → Bool
save_from bytes_written [] = true
save_from bytes_written (n ∷ parts) =
    let rest = save_from (bytes_written + n) parts in
    if n == 0 then true else if ltb max_upload_bytes (bytes_written + n) then false else rest

unfoldable pub save_upload : Upload → Bool
unfolding save_from
save_upload upload = save_from 0 upload.parts

-- An HTTP error with its code, or the answer.
pub data Response (A : Type 0) : Type 0 where
  http_error : ℕ → Response A
  answer : A → Response A

-- The document of a file at its index.
unfoldable pub document_of : String → ℕ → String → Upload → Document
unfolding show
document_of task_id index path upload = record {
  id = concat "doc-" (concat task_id (concat "-" (show index)));
  task_id = task_id;
  document_type = upload.kind;
  file_path = path;
  original_name = upload.filename;
  metadata = end;
}

abbrev pub and_then : {A B : Type 0} → Response A → (A → B) → Response B
and_then (http_error code) f = http_error code
and_then (answer x) f = answer (f x)

unfoldable pub written : String → ℕ → Upload → Option String → Response Document
unfolding save_upload document_of
written task_id index upload none = http_error 400
written task_id index upload (some path) =
    if save_upload upload then answer (document_of task_id index path upload) else http_error 413

abbrev pub followed_by : Response Document → Response (List Document) → Response (List Document)
followed_by (http_error code) rest = http_error code
followed_by (answer document) rest = and_then rest (λ documents. document ∷ documents)

-- The loop over the files.
unfoldable pub documents_from : String → ℕ → List Upload → Response (List Document)
unfolding written
documents_from task_id index [] = answer []
documents_from task_id index (upload ∷ uploads) =
    followed_by (written task_id index upload upload.destination)
      (documents_from task_id (index + 1) uploads)

unfoldable pub task_of : String → List Operation → List Document → Task
task_of task_id operations documents = record {
  id = task_id;
  user_id = "demo-user";
  status = planning;
  requested_outputs = operations;
  conversation_id = concat "conv-" task_id;
  documents = documents;
}

abbrev pub is_text : Upload → Bool
is_text upload = same upload.kind text

abbrev pub checked : String → List Upload → Option (List Operation) → Response Task
checked task_id uploads none = http_error 400
checked task_id uploads (some operations) =
    if any is_text uploads
    then http_error 400
    else and_then (documents_from task_id 0 uploads) (task_of task_id operations)

-- `create_task`: the task that is submitted.
unfoldable pub create_task : String → List Upload → List String → Response Task
unfolding all_of_them operation_of documents_from task_of
create_task task_id uploads ops =
    if is_empty uploads
    then http_error 400
    else checked task_id uploads (all_of_them operation_of ops)

unfoldable pub get_task_status : Option TaskRow → Response String
get_task_status none = http_error 404
get_task_status (some row) = answer row.status

abbrev artifact_or_early : Option Fields → Response Fields
artifact_or_early none = http_error 425
artifact_or_early (some artifact) = answer artifact

unfoldable pub get_task_result : Option TaskRow → Response Fields
get_task_result none = http_error 404
get_task_result (some row) =
    if same row.status "planning"
    then http_error 425
    else if same row.status "running"
    then http_error 425
    else artifact_or_early row.final_artifact
