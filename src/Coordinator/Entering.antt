-- ===== src/Coordinator/Entering.antt =====
-- The tasks that enter the table are well-formed (agents/coordinator.py, `submit` and `_resume`).
use mas_research.Base.{
  ap, ◌∷◌, List, ℕ, String, ◌≡◌, sym, refl, some, is_empty, Bool-cases, inl, inr, string_key, arith,
  Option-cases, [],
}
use mas_research.Base.Dict.{lookup-erase, has, erase, lookup}
use mas_research.Schemas.{Task, running}
use mas_research.Plan.{build_plan}
use mas_research.Coordinator.State.{TaskState, submitted}
use mas_research.Coordinator.Effects.{
  and_then, Action, call, Event, Run, log_metric, recovered_total, Result, ok, raise, status_set,
  artifact_saved,
}
use mas_research.Coordinator.Handlers.{Config}
use mas_research.Core.Status.{determine_final_status}
use mas_research.Coordinator.Assembly.{assemble_artifact}
use mas_research.Coordinator.Keeps.{Keeps, and_then-kept}
use mas_research.Coordinator.Loop.{
  current, finalize_task, on_task, remove_task, maybe_finalize, recover, Coordinator, on_world,
  call_out, add_task, drive, enter, submit, RecoveredTask, resumed, resume,
}
use mas_research.Coordinator.Fresh.{IsFresh, advance-IsFresh}
use mas_research.Coordinator.Advance.{advance}
use mathlib.Core.Path.{subst}
use mas_research.Coordinator.Reply.{finalize}
use mas_research.Coordinator.Start.{submitted-IsWf, resumed-IsWf}
use mas_research.Coordinator.Tracking.{IsTaskOk, built-same}
use mas_research.Coordinator.Starts.{advance-KeepsStart}
use mas_research.Coordinator.Sweep.{AllTaskOk}
use mas_research.Coordinator.Ticks.{insert-AllTaskOk}

abbrev held : Run → TaskState
held r = r.state

call-KeepsState : (e : Event) → Keeps held (call e)
unfolding call
call-KeepsState e = record { at = λ r. refl }

-- `_finalize` reads the task's state and leaves it alone.
finalize-KeepsState : (config : Config) (now : ℕ) → Keeps held (finalize config now)
unfolding finalize
finalize-KeepsState config now = record {
  at = λ r.
      elim (Option-cases (
        assemble_artifact config.validators r.state
          (determine_final_status r.state.plan r.state.results) now)) [
            | inl invalid ↦ rw invalid refl
            | inr (artifact, e) ↦ rw e (
                and_then-kept held r.state _ (call (artifact_saved r.state.task.id artifact) _)
                  ((call-KeepsState (artifact_saved r.state.task.id artifact)).at _)
                  (λ _. call-KeepsState _))
          ];
}

erase-AllTaskOk :
    (id : String) (c d : Coordinator) → d.tasks ≡ erase id c.tasks → AllTaskOk c → AllTaskOk d
unfolding AllTaskOk
erase-AllTaskOk id c d e h k s found =
    let found_old : lookup k (erase id c.tasks) ≡ some s = rw (← e) found in
    h k s (ground (arith, lookup-erase k id c.tasks))

-- Behind a call, whether it returns or raises.
then-AllTaskOk :
    {A B : Type 0} (f : A → Action Coordinator B) (x : Result A × Coordinator)
    → AllTaskOk x.1
    → ((a : A) (d : Coordinator) → AllTaskOk d → AllTaskOk (f a d).1)
    → AllTaskOk (and_then x.0 f x.1).1
then-AllTaskOk f (ok a, d) h k = k a d h
then-AllTaskOk f (raise e, d) h k = h

-- Where a handler on the entry `k` leaves a well-formed state.
on_task-AllTaskOk :
    {A : Type 0} (k : String) (s : TaskState) (m : Action Run A) (c : Coordinator)
    → IsTaskOk (m (record { state = s; world = c.world })).1.state
    → AllTaskOk c
    → AllTaskOk (on_task k s m c).1
unfolding on_task AllTaskOk
on_task-AllTaskOk k s m c t h = elim (Bool-cases (has k c.tasks)) [
  | inl e ↦
      insert-AllTaskOk k (m (record { state = s; world = c.world })).1.state c (on_task k s m c).1
        (rw e refl) t h
  | inr e ↦ same_table (on_task k s m c).1 (rw e refl)
]
  where
    same_table : (d : Coordinator) → d.tasks ≡ c.tasks → AllTaskOk d
    same_table d e k' s' found = h k' s' (rw (← e) found)

module _ (k : String) (now : ℕ) (s : TaskState) where
  finalize_task-AllTaskOk :
      (c : Coordinator) → IsTaskOk s → AllTaskOk c → AllTaskOk (finalize_task k s now c).1
  unfolding finalize_task remove_task
  finalize_task-AllTaskOk c t h =
      then-AllTaskOk _ (on_task k s (finalize c.config now) c)
        (on_task-AllTaskOk k s (finalize c.config now) c
          (subst IsTaskOk
            (sym ((finalize-KeepsState c.config now).at (record { state = s; world = c.world }))) t)
          h)
        (λ _ d g. erase-AllTaskOk k d (remove_task k d).1 refl g)

  maybe_finalize-AllTaskOk :
      (c : Coordinator) → IsTaskOk s → AllTaskOk c → AllTaskOk (maybe_finalize k s now c).1
  unfolding maybe_finalize
  maybe_finalize-AllTaskOk c t h = elim (Bool-cases (is_empty s.pending)) [
    | inl done ↦ rw done (finalize_task-AllTaskOk c t h)
    | inr left ↦ rw left h
  ]

-- A state that `submit` or `_resume` has built for a task's plan.
record Entry (now : ℕ) (s : TaskState) : Type 0 where
  built : s.plan ≡ build_plan s.task
  fresh : IsFresh s.plan now s

Entry-IsTaskOk : (now : ℕ) (s : TaskState) → Entry now s → IsTaskOk s
Entry-IsTaskOk now s w = record { wf = w.fresh.wf; built = w.built }

module _ (k : String) (now : ℕ) (s : TaskState) (w : Entry now s) where
  advance-AllTaskOk :
      (c : Coordinator) → AllTaskOk c → AllTaskOk (on_task k s (advance c.config now) c).1
  advance-AllTaskOk c h =
      let r : Run = record { state = s; world = c.world } in
      let moved : IsFresh s.plan now (advance c.config now r).1.state =
        advance-IsFresh s.plan now c.config r w.fresh in
      let same_task : (advance c.config now r).1.state.task ≡ s.task =
        ap (λ p. p.1) ((advance-KeepsStart c.config now).at r) in
      on_task-AllTaskOk k s (advance c.config now) c
        (record {
          wf = moved.wf;
          built = built-same s (advance c.config now r).1.state moved.same_plan same_task w.built;
        })
        h

  drive-AllTaskOk : (c : Coordinator) → AllTaskOk c → AllTaskOk (drive k s now c).1
  unfolding drive AllTaskOk
  drive-AllTaskOk c h =
      then-AllTaskOk _ (on_task k s (advance c.config now) c) (advance-AllTaskOk c h)
        λ _ d g. maybe_finalize-AllTaskOk k now (current d k s) d (current-IsTaskOk d g) g
    where
      current-IsTaskOk : (d : Coordinator) → AllTaskOk d → IsTaskOk (current d k s)
      current-IsTaskOk d g = elim (Option-cases (lookup k d.tasks)) [
        | inl gone ↦ rw gone (Entry-IsTaskOk now s w)
        | inr (t, e) ↦ rw e (g k t e)
      ]

  enter-AllTaskOk : (c : Coordinator) → AllTaskOk c → AllTaskOk (enter k s now c).1
  unfolding enter add_task on_world AllTaskOk
  enter-AllTaskOk c h = elim (Bool-cases (is_empty s.pending)) [
    | inl done ↦ rw done h
    | inr left ↦ rw left (
        drive-AllTaskOk (add_task k s c).1
          (insert-AllTaskOk k s c (add_task k s c).1 refl (Entry-IsTaskOk now s w) h))
  ]

-- Submitting a task leaves every entry of the table well-formed over its task's plan, the new one too,
-- if they were before, also where the store or the bus raises on the way, with the new entry in the
-- table and some of its requests published.
pub submit-AllTaskOk :
    (task : Task) (now : ℕ) (c : Coordinator) → AllTaskOk c → AllTaskOk (submit task now c).1
unfolding submit call_out AllTaskOk submitted lookup
submit-AllTaskOk task now c h =
    then-AllTaskOk _ (call_out (status_set task.id running) c) h λ _ d g.
      enter-AllTaskOk task.id now (submitted task (build_plan task) now)
        (record {
          built = refl;
          fresh = record {
            wf = submitted-IsWf task (build_plan task) now;
            same_plan = refl;
            no_retry = refl;
            ahead = λ k t e. absurd (cc e);
          };
        })
        d g

-- Resuming a task leaves every entry of the table well-formed over its task's plan, the resumed one
-- too, if they were before, also where the bus or the store raises on the way.
pub resume-AllTaskOk :
    (item : RecoveredTask) (now : ℕ) (c : Coordinator)
    → AllTaskOk c
    → AllTaskOk (resume item now c).1
unfolding resume AllTaskOk resumed submitted lookup
resume-AllTaskOk item now c h =
    enter-AllTaskOk item.task.id now (resumed item.task (build_plan item.task) item.results now)
      (record {
        built = refl;
        fresh = record {
          wf = resumed-IsWf item.task (build_plan item.task) item.results now;
          same_plan = refl;
          no_retry = refl;
          ahead = λ k t e. absurd (cc e);
        };
      })
      (record c { world = log_metric recovered_total c.world }) h

-- The same for a whole recovery, which a raise ends.
pub recover-AllTaskOk :
    (items : List RecoveredTask) (now : ℕ) (c : Coordinator)
    → AllTaskOk c
    → AllTaskOk (recover items now c).1
unfolding recover
recover-AllTaskOk [] now c h = h
recover-AllTaskOk (item ∷ items) now c h =
    then-AllTaskOk _ (resume item now c) (resume-AllTaskOk item now c h)
      (λ _ d g. recover-AllTaskOk items now d g)
