-- ===== src/Api/Accepted.antt =====
-- The tasks that are accepted (api/routes.py).
use mas_research.Base.{
  ℕ, ◌+◌, ◌≤◌, String, true, false, not, ◌≡◌, refl, sym, ap, Option, none, some, List, [], ◌∷◌, map,
  any, is_empty, ltb, leb, arith, Bool-cases, inl, inr, all, ◌==◌,
}
use mas_research.Schemas.{Operation, operation_of, DocumentType, document_type_key, Document, Task}
use mas_research.Db.Recovery.{all_of_them}
use mas_research.Api.{
  Upload, max_upload_bytes, save_from, save_upload, Response, http_error, answer, document_of,
  documents_from, written, followed_by, and_then, checked, task_of, is_text, create_task,
}

unfoldable pub total : List ℕ → ℕ
total [] = 0
total (n ∷ parts) = n + total parts

save_from-total :
    (written : ℕ) (parts : List ℕ)
    → all (λ n. not (n == 0)) parts ≡ true
    → written ≤ max_upload_bytes
    → save_from written parts ≡ leb (written + total parts) max_upload_bytes
unfolding save_from total
save_from-total written [] h w = ground arith
save_from-total written (n ∷ parts) h w = elim (Bool-cases (ltb max_upload_bytes (written + n))) [
  | inl e ↦ rw (e, save_from) (ground arith)
  | inr e ↦ rw (e, save_from) (ground (arith, save_from-total (written + n) parts))
]

-- A file, none of whose parts is empty, is saved if and only if its parts are together not longer
-- than the limit of an upload.
pub save_upload-total :
    (upload : Upload)
    → all (λ n. not (n == 0)) upload.parts ≡ true
    → save_upload upload ≡ leb (total upload.parts) max_upload_bytes
unfolding save_upload
save_upload-total upload h =
    rw (save_from-total 0 upload.parts h (omega arith))
      (ap (λ n. leb n max_upload_bytes) (omega arith))

abbrev pub kind_of : Upload → DocumentType
kind_of upload = upload.kind

abbrev pub type_of : Document → DocumentType
type_of document = document.document_type

answer_of : {A : Type 0} → A → Response A → A
answer_of d (http_error _) = d
answer_of d (answer x) = x

answer-injective : {A : Type 0} {x y : A} → answer x ≡ answer y → x ≡ y
unfolding answer_of
answer-injective {x} e = ap (answer_of x) e

-- What a loop over the files that ends has made.
written-kind :
    (task_id : String) (index : ℕ) (upload : Upload) (path : Option String) (document : Document)
    → written task_id index upload path ≡ answer document
    → type_of document ≡ kind_of upload
unfolding written document_of
written-kind task_id index upload none document e = absurd (cc e)
written-kind task_id index upload (some path) document e = elim (Bool-cases (save_upload upload)) [
  | inl h ↦ sym (ap type_of (answer-injective (rw h at e)))
  | inr h ↦ absurd (cc (rw h at e))
]

followed-kinds :
    (u : Upload) (us : List Upload) (first : Response Document) (rest : Response (List Document))
    (documents : List Document)
    → ((d : Document) → first ≡ answer d → type_of d ≡ kind_of u)
    → ((ds : List Document) → rest ≡ answer ds → map type_of ds ≡ map kind_of us)
    → followed_by first rest ≡ answer documents
    → map type_of documents ≡ map kind_of (u ∷ us)
followed-kinds u us (http_error c) rest documents f g e = absurd (cc e)
followed-kinds u us (answer d) (http_error c) documents f g e = absurd (cc e)
followed-kinds u us (answer d) (answer ds) documents f g e =
    let s : d ∷ ds ≡ documents = answer-injective e in rw (← s) (rw (f d refl, g ds refl) refl)

documents_from-kinds :
    (task_id : String) (index : ℕ) (uploads : List Upload) (documents : List Document)
    → documents_from task_id index uploads ≡ answer documents
    → map type_of documents ≡ map kind_of uploads
unfolding documents_from
documents_from-kinds task_id index [] documents e = ap (map type_of) (sym (answer-injective e))
documents_from-kinds task_id index (u ∷ us) documents e =
    followed-kinds u us (written task_id index u u.destination)
      (documents_from task_id (index + 1) us) documents (written-kind task_id index u u.destination)
      (documents_from-kinds task_id (index + 1) us) e

made :
    (task_id : String) (uploads : List Upload) (operations : List Operation) (task : Task)
    (documents : Response (List Document))
    → any is_text uploads ≡ false
    → ((ds : List Document) → documents ≡ answer ds → map type_of ds ≡ map kind_of uploads)
    → and_then documents (task_of task_id operations) ≡ answer task
    → (some operations ≡ some task.requested_outputs)
      × (any is_text uploads ≡ false)
      × (map type_of task.documents ≡ map kind_of uploads)
unfolding task_of
made task_id uploads operations task (http_error c) h f e = absurd (cc e)
made task_id uploads operations task (answer ds) h f e =
    let s : task_of task_id operations ds ≡ task = answer-injective e in
    (ap (λ t. some t.requested_outputs) s, h, rw (← s) (f ds refl))

checked-Accepted :
    (task_id : String) (uploads : List Upload) (operations : Option (List Operation)) (task : Task)
    → checked task_id uploads operations ≡ answer task
    → (operations ≡ some task.requested_outputs)
      × (any is_text uploads ≡ false)
      × (map type_of task.documents ≡ map kind_of uploads)
unfolding task_of
checked-Accepted task_id uploads none task e = absurd (cc e)
checked-Accepted task_id uploads (some operations) task e =
    elim (Bool-cases (any is_text uploads)) [
      | inl h ↦ absurd (cc (rw h at e))
      | inr h ↦
          made task_id uploads operations task (documents_from task_id 0 uploads) h
            (documents_from-kinds task_id 0 uploads) (rw h at e)
    ]

-- A task that `create_task` submits asks for the operations that were given, each read by name, and has
-- one document for every file, in the order of the files and of the type that was detected, and no
-- file is a text. There is one file at least.
pub create_task-accepts :
    (task_id : String) (uploads : List Upload) (ops : List String) (task : Task)
    → create_task task_id uploads ops ≡ answer task
    → (is_empty uploads ≡ false)
      × (all_of_them operation_of ops ≡ some task.requested_outputs)
      × (any is_text uploads ≡ false)
      × (map type_of task.documents ≡ map kind_of uploads)
unfolding create_task
create_task-accepts task_id [] ops task e = absurd (cc e)
create_task-accepts task_id (u ∷ us) ops task e =
    let (a, b, c) = checked-Accepted task_id (u ∷ us) (all_of_them operation_of ops) task e in
    (refl, a, b, c)
