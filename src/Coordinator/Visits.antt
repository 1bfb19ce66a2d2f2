-- ===== src/Coordinator/Visits.antt =====
-- One visit of each of the three loops of `_advance`: it leaves the task alone, or it keeps the
-- invariant and lowers what is left to do (agents/coordinator.py).
use mas_research.Base.{
  none, ℕ, ◌+◌, ◌≤◌, String, Bool, true, false, ◌&&◌, ◌≡◌, refl, some, arith, leb, ltb, Bool-cases,
  Option-cases, inl, inr, string_key, is_empty, length, not,
}
use mas_research.Base.Dict.{lookup, contains}
use mathlib.Core.List.{Memᴰ}
use mas_research.Plan.{Subtask, plan_get}
use mas_research.Plan.Find.{plan_get-id}
use mas_research.Core.Retry.{retry_max}
use mas_research.Coordinator.State.{TaskState, retries, mark_failed, mark_retry, mark_published}
use mas_research.Coordinator.Effects.{Run, Result, pure, and_then}
use mas_research.Coordinator.Handlers.{Config, timeout_for, fail_subtask, publish}
use mas_research.Coordinator.Advance.{
  is_all_join, succeeded, is_waiting, is_ready, start_subtask, visit_subtask, drop_deadline,
  drop_retry, expire, visit_deadline, republish, visit_retry,
}
use mas_research.Coordinator.Invariant.{
  IsWfAt, KeepsResults, insert-KeepsResults, KeepsResults-same, IsWf, IsWfBut, IsWf-IsWfBut,
  drop_deadline-IsWfBut, drop_retry-IsWfBut, mark_failed-IsWf, mark_retry-IsWf, mark_published-IsWf,
}
use mas_research.Coordinator.Measure.{
  measure, mark_failed-measure-le, mark_retry-measure-le, mark_published-measure-le,
  drop_deadline-measure-lt, drop_retry-measure-lt, mark_failed-measure-lt,
  mark_published-measure-lt,
}
use mas_research.Coordinator.Progress.{
  Ensures, Ensures-and_then, Ensures-mono, scheduled, fail_subtask-Becomes,
  schedule_retry_or_fail-Becomes, publish-Becomes,
}

pub record Progress (now : ℕ) (s t : TaskState) (n : ℕ) : Type 0 where
  pub wf : IsWf t
  pub same_plan : t.plan ≡ s.plan
  pub falls : measure now t + n ≤ measure now s
  pub keeps : KeepsResults s t

pub scheduled-IsWf :
    {s : TaskState} (k reason : String) (now : ℕ)
    → IsWfBut k s
    → contains k s.pending ≡ true
    → IsWf (scheduled k reason now s)
scheduled-IsWf {s} k reason now w p = elim (Bool-cases (leb retry_max (retries s k))) [
  | inl spent ↦ rw spent (mark_failed-IsWf k w reason now)
  | inr left ↦ rw left (mark_retry-IsWf k w reason now p (ground arith))
]

pub scheduled-same_plan :
    (s : TaskState) (k reason : String) (now : ℕ) → (scheduled k reason now s).plan ≡ s.plan
unfolding mark_failed mark_retry
scheduled-same_plan s k reason now = ground arith

pub scheduled-KeepsResults :
    {free : Bool} (s : TaskState) (k reason : String) (now : ℕ)
    → IsWfAt s free k
    → contains k s.pending ≡ true
    → KeepsResults s (scheduled k reason now s)
unfolding mark_failed mark_retry
scheduled-KeepsResults s k reason now w p = elim (Bool-cases (leb retry_max (retries s k))) [
  | inl spent ↦ rw spent (insert-KeepsResults s (mark_failed k reason now s) k none w p refl)
  | inr left ↦ rw left (KeepsResults-same s (mark_retry k reason now s) refl)
]

scheduled-measure-le :
    (now : ℕ) (s : TaskState) (k reason : String)
    → measure now (scheduled k reason now s) ≤ measure now s
scheduled-measure-le now s k reason =
    ground (arith, mark_failed-measure-le now s k reason, mark_retry-measure-le now s k reason)

-- What a visit does: with `changed` it moves the task on, without it finds `Idle` and does nothing.
abbrev pub Moved : ℕ → Run → Type 0 → Bool → Run → Type 0
Moved now r Idle true r' = Progress now r.state r'.state 1
Moved now r Idle false r' = (r' ≡ r) × Idle

abbrev pub NotReady : TaskState → Subtask → Type 0
NotReady s x = (is_waiting s x && is_ready s x) ≡ false

abbrev pub NotPast : ℕ → TaskState → String → Type 0
NotPast now s k = (t : ℕ) → lookup k s.deadlines ≡ some t → ltb t now ≡ false

abbrev pub NotDue : ℕ → TaskState → String → Type 0
NotDue now s k = (t : ℕ) → lookup k s.retry_at ≡ some t → leb t now ≡ false

Changed : ℕ → Run → Unit {0} → Run → Type 0
Changed now r _ r' = Progress now r.state r'.state 1

start_subtask-Changed :
    (config : Config) (x : Subtask) (now : ℕ) (r : Run)
    → IsWf r.state
    → Memᴰ x r.state.plan.subtasks
    → is_waiting r.state x ≡ true
    → Ensures (Changed now r) (start_subtask config x now r)
unfolding start_subtask Changed mark_published mark_failed
start_subtask-Changed config x now r w m waits = elim (Bool-cases first) [
  | inl e ↦ rw e (fails "skipped: all upstream failed")
  | inr e ↦ rw e (elim (Bool-cases second) [
    | inl f ↦ rw f (fails "skipped: upstream failed")
    | inr f ↦ rw f (
        Ensures-mono (publish config x now r) (publish-Becomes config x now r) λ _ r' same.
          rw same (record {
            wf =
                mark_published-IsWf x.id (IsWf-IsWfBut x.id w) (timeout_for config x.agent) now
                  (ground arith);
            same_plan = published_plan;
            falls = mark_published-measure-lt now r.state x m waits (timeout_for config x.agent);
            keeps = KeepsResults-same r.state (mark_published x.id _ now r.state) refl;
          }))
  ])
]
  where
    first : Bool
    first = not (is_empty x.depends_on) && is_empty (succeeded r.state x)

    second : Bool
    second = is_all_join x.join && ltb (length (succeeded r.state x)) (length x.depends_on)

    published_plan :
        (mark_published x.id (timeout_for config x.agent) now r.state).plan ≡ r.state.plan
    published_plan = refl

    fails : (reason : String) → Ensures (Changed now r) (fail_subtask x.id reason now r)
    fails reason =
        Ensures-mono (fail_subtask x.id reason now r) (fail_subtask-Becomes x.id reason now r)
          λ _ r' same. rw same (record {
            wf = mark_failed-IsWf x.id (IsWf-IsWfBut x.id w) reason now;
            same_plan = refl;
            falls = mark_failed-measure-lt now r.state x m waits reason;
            keeps =
                insert-KeepsResults r.state (mark_failed x.id reason now r.state) x.id none (w x.id)
                  (ground arith) refl;
          })

then_true-Moved :
    (now : ℕ) (r : Run) (Idle : Type 0) (x : Result (Unit {0}) × Run)
    → Ensures (Changed now r) x
    → Ensures (Moved now r Idle) (and_then x.0 (λ _. pure true) x.1)
unfolding Changed
then_true-Moved now r Idle x h =
    Ensures-and_then (Moved now r Idle) (λ _. pure true) x h (λ _ r' p. p)

pub visit_subtask-Moved :
    (config : Config) (now : ℕ) (x : Subtask) (r : Run)
    → IsWf r.state
    → Memᴰ x r.state.plan.subtasks
    → Ensures (Moved now r (NotReady r.state x)) (visit_subtask config x now r)
unfolding visit_subtask
visit_subtask-Moved config now x r w m =
    elim (Bool-cases (is_waiting r.state x && is_ready r.state x)) [
      | inl e ↦ rw e (
          then_true-Moved now r _ (start_subtask config x now r)
            (start_subtask-Changed config x now r w m (ground arith)))
      | inr e ↦ rw e (refl, refl)
    ]

expire-Changed :
    (now : ℕ) (k : String) (r : Run) {t : ℕ}
    → IsWf r.state
    → lookup k r.state.deadlines ≡ some t
    → ltb t now ≡ true
    → Ensures (Changed now r) (expire now k r)
unfolding expire Changed KeepsResults
expire-Changed now k r {t} w e past =
    Ensures-mono (expire now k r)
      (schedule_retry_or_fail-Becomes k "timeout" now (record r { state = dropped }))
      λ _ r' same. rw same (record {
        wf =
            scheduled-IsWf k "timeout" now (drop_deadline-IsWfBut k w)
              ((w k).deadline_pending (rw e));
        same_plan = scheduled-same_plan dropped k "timeout" now;
        falls = omega (
          arith,
          scheduled-measure-le now dropped k "timeout",
          drop_deadline-measure-lt now r.state k e past,
        );
        keeps =
            scheduled-KeepsResults dropped k "timeout" now (drop_deadline-IsWfBut k w k)
              ((w k).deadline_pending (rw e));
      })
  where
    dropped : TaskState
    dropped = drop_deadline k r.state

pub visit_deadline-Moved :
    (now : ℕ) (k : String) (r : Run)
    → IsWf r.state
    → Ensures (Moved now r (NotPast now r.state k)) (visit_deadline now k r)
unfolding visit_deadline
visit_deadline-Moved now k r w = elim (Option-cases (lookup k r.state.deadlines)) [
  | inl gone ↦ rw (gone, visit_deadline) (λ e. cc e)
  | inr (t, e) ↦ elim (Bool-cases (ltb t now)) [
    | inl past ↦
        rw (e, visit_deadline)
          (rw past (then_true-Moved now r _ (expire now k r) (expire-Changed now k r w e past)))
    | inr early ↦ rw (e, visit_deadline) (rw early (refl, λ t' q. ground arith))
  ]
]

republish-Changed :
    (config : Config) (now : ℕ) (k : String) (r : Run) {t : ℕ}
    → IsWf r.state
    → lookup k r.state.retry_at ≡ some t
    → leb t now ≡ true
    → Ensures (Changed now r) (republish config now k r)
unfolding republish Changed mark_published
republish-Changed config now k r {t} w e past = elim (Option-cases (plan_get r.state.plan k)) [
  | inl missing ↦ rw missing (λ q. cc q)
  | inr (x, found) ↦ rw found (
      Ensures-mono (publish config x now dropped) (publish-Becomes config x now dropped)
        λ _ r' same. rw same (record {
          wf =
              mark_published-IsWf x.id
                (rw (plan_get-id r.state.plan k x found) (drop_retry-IsWfBut k w))
                (timeout_for config x.agent) now
                (rw (plan_get-id r.state.plan k x found) ((w k).retry_pending (rw e)));
          same_plan = refl;
          falls = omega (
            arith,
            mark_published-measure-le now dropped.state x.id (timeout_for config x.agent),
            drop_retry-measure-lt now r.state k e past,
          );
          keeps =
              KeepsResults-same r.state
                (mark_published x.id (timeout_for config x.agent) now dropped.state) refl;
        }))
]
  where
    dropped : Run
    dropped = record r { state = drop_retry k r.state }

pub visit_retry-Moved :
    (config : Config) (now : ℕ) (k : String) (r : Run)
    → IsWf r.state
    → Ensures (Moved now r (NotDue now r.state k)) (visit_retry config now k r)
unfolding visit_retry
visit_retry-Moved config now k r w = elim (Option-cases (lookup k r.state.retry_at)) [
  | inl gone ↦ rw (gone, visit_retry) (λ e. cc e)
  | inr (t, e) ↦ elim (Bool-cases (leb t now)) [
    | inl past ↦
        rw (e, visit_retry)
          (rw past (
            then_true-Moved now r _ (republish config now k r)
              (republish-Changed config now k r w e past)))
    | inr early ↦ rw (e, visit_retry) (rw early (refl, λ t' q. ground arith))
  ]
]
