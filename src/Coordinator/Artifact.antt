-- ===== src/Coordinator/Artifact.antt =====
-- What the artifact of a finished task says of its subtasks (agents/assembly.py,
-- core/status_fsm.py).
use mas_research.Base.{
  ◌⊎◌, ℕ, Bool, not, ◌≡◌, refl, ap, some, List, [], ◌∷◌, map, any, select, is_empty, Bool-cases,
  Option-cases, none, string_key, inl, inr, if◌then◌else◌,
}
use mathlib.Core.Path.{subst}
use mathlib.Core.Option.{some-injective}
use mas_research.Schemas.{Operation, TaskStatus, completed, failed, partial_ready, ResultArtifact}
use mas_research.Plan.{Subtask}
use mas_research.Base.Dict.{lookup}
use mas_research.Values.{Fields}
use mas_research.Core.Status.{Results, result_of, determine_final_status}
use mas_research.Coordinator.State.{TaskState}
use mas_research.Coordinator.Assembly.{
  Validators, has_result, lacks_result, assemble_payload, assemble_artifact, failed_operation,
}

-- The status that belongs to the operations that are done and those that are not.
pub status_of : List Operation → List Operation → TaskStatus
status_of [] [] = completed
status_of [] (_ ∷ _) = failed
status_of (_ ∷ _) [] = completed
status_of (_ ∷ _) (_ ∷ _) = partial_ready

module _ {A : Type 0} (p : A → Bool) where
  any-select : (xs : List A) → any p xs ≡ not (is_empty (select p xs))
  any-select [] = refl
  any-select (x ∷ xs) = elim (Bool-cases (p x)) [ inl e ↦ rw e refl | inr e ↦ rw e (any-select xs) ]

  none-selected : (xs : List A) → select p xs ≡ [] → select (λ x. not (p x)) xs ≡ [] → xs ≡ []
  none-selected [] e f = refl
  none-selected (x ∷ xs) e f = elim (Bool-cases (p x)) [
    | inl h ↦ absurd (cc (rw h at e))
    | inr h ↦ absurd (cc (rw h at f))
  ]

abbrev operations_of : List Subtask → List Operation
operations_of = map (λ t. t.operation)

uncons : {A : Type 0} (xs : List A) → (xs ≡ []) ⊎ ((y : A) × (ys : List A) × (xs ≡ y ∷ ys))
uncons [] = inl refl
uncons (x ∷ xs) = inr (x, xs, refl)

module _ (p : Subtask → Bool) where
  abbrev fails : Subtask → Bool
  fails t = not (p t)

  status_by : List Subtask → TaskStatus
  status_by xs =
      if is_empty xs
      then completed
      else if not (any p xs)
      then failed
      else if any fails xs
      then partial_ready
      else completed

  status_by-select :
      (xs : List Subtask)
      → status_by xs ≡ status_of (operations_of (select p xs)) (operations_of (select fails xs))
  unfolding status_by status_of
  status_by-select [] = refl
  status_by-select (x ∷ xs) = elim (uncons (select p (x ∷ xs))) [
    | inl e ↦ elim (uncons (select fails (x ∷ xs))) [
      | inl f ↦ absurd (cc (none-selected p (x ∷ xs) e f))
      | inr (y, ys, f) ↦ rw (any-select p (x ∷ xs), e, f) refl
    ]
    | inr (y, ys, e) ↦ elim (uncons (select fails (x ∷ xs))) [
      | inl f ↦ rw (any-select p (x ∷ xs), any-select fails (x ∷ xs), e, f) refl
      | inr (z, zs, f) ↦ rw (any-select p (x ∷ xs), any-select fails (x ∷ xs), e, f) refl
    ]
  ]

-- The operations of the subtasks, parted in the order of the plan: those whose subtask has a content
-- among the results, and those whose subtask has none, since it failed or never got one.
pub data Parted (results : Results) : List Subtask → List Operation → List Operation → Type 0 where
  nothing : Parted results [] [] []
  succeeds :
      {t : Subtask} {ts : List Subtask} {os ds : List Operation} (content : Fields)
      → lookup t.id results ≡ some (some content)
      → Parted results ts os ds
      → Parted results (t ∷ ts) (t.operation ∷ os) ds
  has_failed :
      {t : Subtask} {ts : List Subtask} {os ds : List Operation}
      → lookup t.id results ≡ some none
      → Parted results ts os ds
      → Parted results (t ∷ ts) os (t.operation ∷ ds)
  has_none :
      {t : Subtask} {ts : List Subtask} {os ds : List Operation}
      → lookup t.id results ≡ none
      → Parted results ts os ds
      → Parted results (t ∷ ts) os (t.operation ∷ ds)

select-Parted :
    (s : TaskState) (xs : List Subtask)
    → Parted s.results xs
        (operations_of (select (has_result s) xs))
        (operations_of (select (lacks_result s) xs))
unfolding result_of
select-Parted s [] = nothing
select-Parted s (x ∷ xs) = elim (Option-cases (lookup x.id s.results)) [
  | inl e ↦ rw e (has_none e (select-Parted s xs))
  | inr (found, e) ↦ elim (Option-cases found) [
    | inl f ↦
        let g : lookup x.id s.results ≡ some none = cc (e, f) in
        rw g (has_failed g (select-Parted s xs))
    | inr (content, f) ↦
        let g : lookup x.id s.results ≡ some (some content) = cc (e, f) in
        rw g (succeeds content g (select-Parted s xs))
  ]
]

-- The artifact's lists against the plan, and its status against its lists.
pub record IsConsistent (s : TaskState) (a : ResultArtifact) : Type 0 where
  pub status_matches : a.status ≡ status_of a.operations a.degraded
  pub parted : Parted s.results s.plan.subtasks a.operations a.degraded
  pub failures : map (λ f. f.op) a.stats.failed_operations ≡ a.degraded
  pub of_task : a.task_id ≡ s.task.id

map-failed_operation :
    (s : TaskState) (now : ℕ) (xs : List Subtask)
    → map (λ f. f.op) (map (failed_operation s now) xs) ≡ operations_of xs
unfolding failed_operation
map-failed_operation s now [] = refl
map-failed_operation s now (x ∷ xs) = ap (◌∷◌ x.operation) (map-failed_operation s now xs)

-- The artifact that `_finalize` builds is consistent: it is COMPLETED, FAILED or PARTIAL_READY as its
-- lists of done and of degraded operations say; the two lists part the operations of the plan's
-- subtasks, in its order, into those whose subtask has a content among the results and all others;
-- the failed operations of its statistics are the degraded ones, in the same order.
pub assemble_artifact-IsConsistent :
    (v : Validators) (s : TaskState) (now : ℕ) (a : ResultArtifact)
    → assemble_artifact v s (determine_final_status s.plan s.results) now ≡ some a
    → IsConsistent s a
unfolding assemble_artifact determine_final_status status_by
assemble_artifact-IsConsistent v s now a e =
    elim (Option-cases (assemble_payload v s.plan s.results)) [
      | inl invalid ↦ absurd (cc (rw (invalid, assemble_artifact) at e))
      | inr (payload, valid) ↦
          subst (IsConsistent s) (some-injective _ a (rw (valid, assemble_artifact) at e)) record {
            status_matches = status_by-select (has_result s) s.plan.subtasks;
            parted = select-Parted s s.plan.subtasks;
            failures = map-failed_operation s now (select (lacks_result s) s.plan.subtasks);
            of_task = refl;
          }
    ]
