-- ===== src/Coordinator/Loop.antt =====
-- The dispatch loop over all tasks (agents/coordinator.py, `Coordinator`): submitting, resuming,
-- the tick and what it does with a task that raises.
use mas_research.Base.{
  or_else, ℕ, String, not, Option, some, List, [], ◌∷◌, select, is_empty, if◌then◌else◌, string_key,
}
use mas_research.Base.Dict.{Dict, lookup, insert, erase, has, keys, contains}
use mas_research.Schemas.{Task, running}
use mas_research.Plan.{Plan, build_plan}
use mas_research.Values.{Fields}
use mas_research.Core.Idempotency.{IdempotentReceiver}
use mas_research.Coordinator.State.{TaskState, id_set, submitted}
use mas_research.Coordinator.Effects.{
  World, Run, Action, ok, pure, ◌>>◌, Event, status_set, Metric, inflight_inc, inflight_dec,
  recovered_total, log_metric, call_world,
}
use mas_research.Coordinator.Handlers.{Config, Printer}
use mas_research.Coordinator.Advance.{advance}
use mas_research.Coordinator.Reply.{finalize}

pub record Coordinator : Type 0 where
  pub config : Config
  pub printer : Printer
  pub tasks : Dict String TaskState
  pub idempotency : IdempotentReceiver
  pub world : World

-- `self._tasks[task_id]` and the handler's `state` are one object: what the handler has assigned
-- shows in the table, also after a raise, as long as the task stands there.
abbrev write_back : String → TaskState → Dict String TaskState → Dict String TaskState
write_back task_id s tasks = if has task_id tasks then insert task_id s tasks else tasks

unfoldable pub on_task : {A : Type 0} → String → TaskState → Action Run A → Action Coordinator A
on_task task_id s m c =
    let (a, r) = m (record { state = s; world = c.world }) in
    (a, record c { tasks = write_back task_id r.state c.tasks; world = r.world })

-- A handler on a state that is not in the table.
unfoldable pub on_world : {A : Type 0} → TaskState → Action Run A → Action Coordinator A
on_world s m c =
    let (a, r) = m (record { state = s; world = c.world }) in (a, record c { world = r.world })

abbrev pub current : Coordinator → String → TaskState → TaskState
current c task_id s = or_else (lookup task_id c.tasks) s

abbrev pub count_metric : Metric → Action Coordinator (Unit {0})
count_metric m c = (ok tt, record c { world = log_metric m c.world })

unfoldable pub call_out : Event → Action Coordinator (Unit {0})
unfolding call_world
call_out e c = let (a, w) = call_world e c.world in (a, record c { world = w })

-- `self._tasks.pop(task_id, None)` and `INFLIGHT_TASKS.dec()`
unfoldable pub remove_task : String → Action Coordinator (Unit {0})
remove_task task_id c =
    (ok tt, record c { tasks = erase task_id c.tasks; world = log_metric inflight_dec c.world })

unfoldable pub add_task : String → TaskState → Action Coordinator (Unit {0})
add_task task_id s c =
    (ok tt, record c { tasks = insert task_id s c.tasks; world = log_metric inflight_inc c.world })

-- `_finalize` and the bookkeeping behind it, as `_maybe_finalize` and `_deadline_finalize` share it.
unfoldable pub finalize_task : String → TaskState → ℕ → Action Coordinator (Unit {0})
unfolding on_task remove_task
finalize_task task_id s now c = (on_task task_id s (finalize c.config now) >> remove_task task_id) c

unfoldable pub maybe_finalize : String → TaskState → ℕ → Action Coordinator (Unit {0})
unfolding finalize_task
maybe_finalize task_id s now = if is_empty s.pending then finalize_task task_id s now else pure tt

-- `_advance`, then `_maybe_finalize` on the state that it has left.
unfoldable pub drive : String → TaskState → ℕ → Action Coordinator (Unit {0})
unfolding on_task maybe_finalize
drive task_id s now c =
    (do
      on_task task_id s (advance c.config now)
      λ c'. maybe_finalize task_id (current c' task_id s) now c')
      c

-- A fresh or resumed state: finalized at once if nothing is pending, else entered and driven.
unfoldable pub enter : String → TaskState → ℕ → Action Coordinator (Unit {0})
unfolding on_world add_task drive
enter task_id s now c =
    if is_empty s.pending
    then on_world s (finalize c.config now) c
    else (add_task task_id s >> drive task_id s now) c

unfoldable pub submit : Task → ℕ → Action Coordinator (Unit {0})
unfolding call_out enter submitted build_plan
submit task now = do
  call_out (status_set task.id running)
  enter task.id (submitted task (build_plan task) now) now

-- A task to resume, with its reloaded results (agents/recovery.py, `RecoveredTask`).
pub record RecoveredTask : Type 0 where
  pub task : Task
  pub results : Dict String Fields

-- `{sid: content for sid, content in results.items() if sid in valid_ids}`
unfoldable pub valid_results : List String → Dict String Fields → Dict String (Option Fields)
valid_results ids [] = []
valid_results ids ((sid, content) ∷ rest) =
    if contains sid ids
    then (sid, some content) ∷ valid_results ids rest
    else valid_results ids rest

abbrev all_at : ℕ → List String → Dict String ℕ
all_at now [] = []
all_at now (sid ∷ rest) = (sid, now) ∷ all_at now rest

-- The state that `_resume` builds: the reloaded subtasks count as published and resolved.
unfoldable pub resumed : Task → Plan → Dict String Fields → ℕ → TaskState
unfolding valid_results
resumed task plan results now =
    let loaded = valid_results (id_set plan.subtasks) results in
    record (submitted task plan now) {
      pending = id_set (select (λ t. not (has t.id loaded)) plan.subtasks);
      published = keys loaded;
      results = loaded;
      resolved_at = all_at now (keys loaded);
    }

unfoldable pub resume : RecoveredTask → ℕ → Action Coordinator (Unit {0})
unfolding enter resumed build_plan
resume item now = do
  count_metric recovered_total
  enter item.task.id (resumed item.task (build_plan item.task) item.results now) now

-- `_recover`, given what `load_in_flight` returned. A raise ends it.
unfoldable pub recover : List RecoveredTask → ℕ → Action Coordinator (Unit {0})
unfolding resume
recover [] now = pure tt
recover (item ∷ items) now = resume item now >> recover items now
