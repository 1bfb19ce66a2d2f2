-- ===== src/Coordinator/Tracking.antt =====
-- Every task that a tick leaves in the table is well-formed and has a timer running
-- (agents/coordinator.py, `_tick`).
use mas_research.Base.{
  or_else, ap, ℕ, ◌-◌, String, false, ◌≡◌, ◌∙◌, sym, none, some, arith, Bool-cases, Option-cases,
  inl, inr, string_key, ltb, if◌then◌else◌, is_empty,
}
use mas_research.Base.Dict.{insert, has, lookup, lookup-insert, lookup-erase}
use mathlib.Core.Path.{subst}
use mas_research.Base.Members.{some_member}
use mas_research.Schemas.{failed}
use mas_research.Coordinator.Starts.{advance-KeepsStart}
use mas_research.Plan.{build_plan}
use mas_research.Coordinator.State.{TaskState}
use mas_research.Coordinator.Effects.{Run, Result, ok, raise, and_then, Action, ◌>>◌, status_set}
use mas_research.Coordinator.Advance.{advance}
use mas_research.Coordinator.Reply.{finalize}
use mas_research.Coordinator.Loop.{
  current, Coordinator, on_task, remove_task, finalize_task, maybe_finalize, drive,
}
use mas_research.Coordinator.Tick.{except_with, try_except, abandon, check_deadline, drive_one}
use mas_research.Coordinator.Invariant.{IsWf}
use mas_research.Coordinator.Progress.{Ensures}
use mas_research.Coordinator.Rounds.{IsQuiet, Settled, advance-Settled}
use mas_research.Coordinator.Liveness.{HasTimer, pending-HasTimer}
use mas_research.Coordinator.Table.{call_out-kept}

-- A well-formed state over the plan that `build_plan` makes of its task.
pub record IsTaskOk (s : TaskState) : Type 0 where
  pub wf : IsWf s
  pub built : s.plan ≡ build_plan s.task

-- The plan is still the task's where neither has changed.
pub built-same :
    (s t : TaskState)
    → t.plan ≡ s.plan
    → t.task ≡ s.task
    → s.plan ≡ build_plan s.task
    → t.plan ≡ build_plan t.task
built-same s t p q e = p ∙ (rw q e)

pub record IsLive (now : ℕ) (s : TaskState) : Type 0 where
  pub task_ok : IsTaskOk s
  pub timer : HasTimer now s

abbrev pub OnReturn : {A : Type 0} → (Coordinator → Type 0) → Result A × Coordinator → Type 0
OnReturn P (ok a, c) = P c
OnReturn P (raise e, c) = Unit

pub OnReturn-and_then :
    {A B : Type 0} {P : Coordinator → Type 0} (Q : Coordinator → Type 0)
    (f : A → Action Coordinator B) (x : Result A × Coordinator)
    → OnReturn P x
    → ((a : A) (c : Coordinator) → P c → OnReturn Q (f a c))
    → OnReturn Q (and_then x.0 f x.1)
OnReturn-and_then Q f (ok a, c) h g = g a c h
OnReturn-and_then Q f (raise e, c) h g = tt

module _ (k : String) (now : ℕ) where
  unfoldable pub Gone : Coordinator → Type 0
  Gone c = lookup k c.tasks ≡ none

  -- The entry of `k`, if there is one, is live.
  unfoldable pub LiveAt : Coordinator → Type 0
  LiveAt c = (t : TaskState) → lookup k c.tasks ≡ some t → IsLive now t

  Gone-LiveAt : (c : Coordinator) → Gone c → LiveAt c
  unfolding Gone LiveAt
  Gone-LiveAt c h t e = absurd (cc (h, e))

  pub finalize_task-Gone :
      (s : TaskState) (c : Coordinator) → OnReturn Gone (finalize_task k s now c)
  unfolding finalize_task remove_task Gone
  finalize_task-Gone s c =
      OnReturn-and_then {P = λ _. Unit} Gone _ (on_task k s (finalize c.config now) c) (any _)
        (λ _ d _. ground (arith, lookup-erase k k d.tasks))
    where
      any : (x : Result (Unit {0}) × Coordinator) → OnReturn (λ _. Unit) x
      any (ok a, d) = tt
      any (raise e, d) = tt

  pub abandon-Gone : (c : Coordinator) → Gone (abandon k c).1
  unfolding abandon remove_task try_except Gone
  abandon-Gone c = elim (Bool-cases (has k c.tasks)) [
    | inl e ↦ rw e (
        call_out-kept k (status_set k failed) (remove_task k c).1
        ∙ ground (arith, lookup-erase k k c.tasks))
    | inr e ↦ rw e (call_out-kept k (status_set k failed) c ∙ ground arith)
  ]

  pub any-OnReturn :
      {A : Type 0} (P : Coordinator → Type 0) (x : Result A × Coordinator) → P x.1 → OnReturn P x
  any-OnReturn P (ok a, c) h = h
  any-OnReturn P (raise e, c) h = tt

  Gone-OnReturn : (x : Result (Unit {0}) × Coordinator) → OnReturn Gone x → OnReturn LiveAt x
  Gone-OnReturn (ok a, c) h = Gone-LiveAt c h
  Gone-OnReturn (raise e, c) h = tt

  -- Behind `except Exception`, all that can be left is a live entry or none.
  caught-LiveAt :
      (x : Result (Unit {0}) × Coordinator)
      → OnReturn LiveAt x
      → OnReturn LiveAt (except_with (abandon k) x)
  unfolding except_with
  caught-LiveAt (ok a, c) h = h
  caught-LiveAt (raise e, c) h = any-OnReturn LiveAt (abandon k c) (Gone-LiveAt _ (abandon-Gone c))

  -- The entry of `k` is well-formed, with nothing left to do at `now`.
  record QuietAt (c : Coordinator) : Type 0 where
    entry : TaskState
    found : lookup k c.tasks ≡ some entry
    task_ok : IsTaskOk entry
    quiet : IsQuiet now entry

  quiet-LiveAt : (c : Coordinator) (q : QuietAt c) → is_empty q.entry.pending ≡ false → LiveAt c
  unfolding LiveAt
  quiet-LiveAt c q h t e =
      let (j, p) = some_member q.entry.pending h in
      let same_entry : q.entry ≡ t = cc (q.found, e) in
      rw (← same_entry) record {
        task_ok = q.task_ok;
        timer = pending-HasTimer q.entry.task now q.entry q.task_ok.built q.task_ok.wf q.quiet j p;
      }

  maybe_finalize-LiveAt :
      (c : Coordinator) (q : QuietAt c) → OnReturn LiveAt (maybe_finalize k q.entry now c)
  unfolding maybe_finalize
  maybe_finalize-LiveAt c q = elim (Bool-cases (is_empty q.entry.pending)) [
    | inl done ↦
        rw done (Gone-OnReturn (finalize_task k q.entry now c) (finalize_task-Gone q.entry c))
    | inr left ↦ rw left (quiet-LiveAt c q left)
  ]

  -- `_advance` on the entry of `k`.
  advance-QuietAt :
      (s : TaskState) (c : Coordinator)
      → lookup k c.tasks ≡ some s
      → IsTaskOk s
      → OnReturn QuietAt (on_task k s (advance c.config now) c)
  unfolding on_task
  advance-QuietAt s c e t =
      written (advance c.config now r) (ap (λ p. p.1) ((advance-KeepsStart c.config now).at r))
        (advance-Settled c.config now r t.wf)
    where
      r : Run
      r = record { state = s; world = c.world }

      written :
          (x : Result (Unit {0}) × Run)
          → x.1.state.task ≡ s.task
          → Ensures (Settled c.config now r) x
          → OnReturn QuietAt (
            x.0,
            record c {
              tasks = if has k c.tasks then insert k x.1.state c.tasks else c.tasks;
              world = x.1.world;
            },
          )
      written (ok a, r') q h = record {
        entry = r'.state;
        found = ground (arith, lookup-insert k k r'.state c.tasks);
        task_ok = record { wf = h.0; built = built-same s r'.state h.1 q t.built };
        quiet = h.2;
      }
      written (raise error, r') q h = tt

  pub drive-LiveAt :
      (s : TaskState) (c : Coordinator)
      → lookup k c.tasks ≡ some s
      → IsTaskOk s
      → OnReturn LiveAt (drive k s now c)
  unfolding drive
  drive-LiveAt s c e t =
      OnReturn-and_then LiveAt _ (on_task k s (advance c.config now) c) (advance-QuietAt s c e t)
        λ _ d q.
          let same_entry : current d k s ≡ q.entry = ap (λ o. or_else o s) q.found in
          subst (λ t. OnReturn LiveAt (maybe_finalize k t now d)) (sym same_entry)
            (maybe_finalize-LiveAt d q)

  check_deadline-LiveAt :
      (s : TaskState) (c : Coordinator) → LiveAt c → OnReturn LiveAt (check_deadline k s now c)
  unfolding check_deadline
  check_deadline-LiveAt s c h = elim (Option-cases (lookup k c.tasks)) [
    | inl gone ↦ rw (gone, check_deadline) h
    | inr (t, e) ↦ elim (Bool-cases (ltb c.config.global_deadline_sec (now - s.started_at))) [
      | inl late ↦
          rw (e, check_deadline)
            (rw late (Gone-OnReturn (finalize_task k t now c) (finalize_task-Gone t c)))
      | inr early ↦ rw (e, check_deadline) (rw early h)
    ]
  ]

  -- One task of a tick: afterwards it is live, or it is not in the table.
  pub drive_one-LiveAt :
      (c : Coordinator)
      → ((s : TaskState) → lookup k c.tasks ≡ some s → IsTaskOk s)
      → OnReturn LiveAt (drive_one k now c)
  unfolding drive_one try_except LiveAt Gone
  drive_one-LiveAt c oks = elim (Option-cases (lookup k c.tasks)) [
    | inl gone ↦ rw (gone, drive_one) (Gone-LiveAt c gone)
    | inr (s, e) ↦
        rw (e, drive_one)
          (caught-LiveAt ((drive k s now >> check_deadline k s now) c) (
            OnReturn-and_then LiveAt _ (drive k s now c) (drive-LiveAt s c e (oks s e))
              (λ _ d h. check_deadline-LiveAt s d h)))
  ]
