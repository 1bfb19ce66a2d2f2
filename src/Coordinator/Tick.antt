-- ===== src/Coordinator/Tick.antt =====
-- One tick of the loop (agents/coordinator.py, `_tick`): reading replies, routing them, driving every
-- task, and persisting results.
use mas_research.Base.{
  ℕ, zero, suc, ◌-◌, String, Option, none, some, List, [], ◌∷◌, ltb, if◌then◌else◌, string_key,
}
use mas_research.Base.Dict.{lookup, has, keys}
use mas_research.Schemas.{failed}
use mas_research.Core.Messages.{Message}
use mas_research.Core.Idempotency.{accept}
use mas_research.Coordinator.State.{TaskState}
use mas_research.Coordinator.Effects.{
  Result, Action, ok, raise, pure, ◌>>=◌, ◌>>◌, acked, status_set, result_saved,
}
use mas_research.Coordinator.Reply.{PersistJob, route_reply}
use mas_research.Coordinator.Loop.{
  Coordinator, on_task, call_out, remove_task, finalize_task, drive,
}

-- `try: m` / `except Exception: handler`
unfoldable pub except_with :
    Action Coordinator (Unit {0})
    → Result (Unit {0}) × Coordinator
    → Result (Unit {0}) × Coordinator
except_with handler (ok _, c) = (ok tt, c)
except_with handler (raise e, c) = handler c

unfoldable pub try_except :
    Action Coordinator (Unit {0}) → Action Coordinator (Unit {0}) → Action Coordinator (Unit {0})
unfolding except_with
try_except m handler c = except_with handler (m c)

-- Reading the inbox: an entry is acknowledged, and kept if its id is new.
unfoldable pub collect : List (String × Message) → Action Coordinator (List Message)
unfolding call_out
collect [] = pure []
collect ((entry_id, reply) ∷ entries) = do
  call_out (acked entry_id)
  fresh ← λ c. (
    ok ((accept c.idempotency reply.message_id).1),
    record c { idempotency = (accept c.idempotency reply.message_id).0 },
  )
  replies ← collect entries
  pure (if fresh then reply ∷ replies else replies)

abbrev append_job : Option PersistJob → List PersistJob → List PersistJob
append_job none jobs = jobs
append_job (some job) jobs = job ∷ jobs

-- A reply of a task that is not in the table is dropped.
unfoldable pub route_one : Message → ℕ → Action Coordinator (Option PersistJob)
unfolding on_task
route_one reply now c = elim (lookup reply.task_id c.tasks) [
  | none ↦ (ok none, c)
  | some s ↦ on_task reply.task_id s (route_reply c.printer reply now) c
]

unfoldable pub route_all : List Message → ℕ → Action Coordinator (List PersistJob)
unfolding route_one
route_all [] now = pure []
route_all (reply ∷ replies) now = do
  job ← route_one reply now
  jobs ← route_all replies now
  pure (append_job job jobs)

-- `_abandon`: the task is dropped, and marked failed if the store allows it.
unfoldable pub abandon : String → Action Coordinator (Unit {0})
unfolding try_except call_out remove_task
abandon task_id c =
    ((if has task_id c.tasks then remove_task task_id else pure tt)
        >> try_except (call_out (status_set task_id failed)) (pure tt))
      c

-- The global deadline, for a task that is still in the table.
unfoldable pub check_deadline : String → TaskState → ℕ → Action Coordinator (Unit {0})
unfolding finalize_task
check_deadline task_id s now c = elim (lookup task_id c.tasks) [
  | none ↦ (ok tt, c)
  | some t ↦
      if ltb c.config.global_deadline_sec (now - s.started_at)
      then finalize_task task_id t now c
      else (ok tt, c)
]

unfoldable pub drive_one : String → ℕ → Action Coordinator (Unit {0})
unfolding try_except abandon check_deadline
drive_one task_id now c = elim (lookup task_id c.tasks) [
  | none ↦ (ok tt, c)
  | some s ↦ try_except (drive task_id s now >> check_deadline task_id s now) (abandon task_id) c
]

unfoldable pub drive_all : List String → ℕ → Action Coordinator (Unit {0})
unfolding drive_one
drive_all [] now = pure tt
drive_all (task_id ∷ rest) now = drive_one task_id now >> drive_all rest now

unfoldable pub drive_tasks : ℕ → Action Coordinator (Unit {0})
unfolding drive_all
drive_tasks now c = drive_all (keys c.tasks) now c

-- `_persist_result`: at most `tries` calls of the store, and no raise.
unfoldable pub persist_result : ℕ → PersistJob → Action Coordinator (Unit {0})
unfolding try_except call_out
persist_result zero job = pure tt
persist_result (suc tries) job =
    try_except (call_out (result_saved job.task_id job.operation job.content))
      (persist_result tries job)

abbrev pub persist_retries : ℕ
persist_retries = 3

unfoldable pub persist_all : List PersistJob → Action Coordinator (Unit {0})
unfolding persist_result
persist_all [] = pure tt
persist_all (job ∷ jobs) = persist_result persist_retries job >> persist_all jobs

-- `entries` is what the inbox gives, and `now` the clock inside the lock.
unfoldable pub tick : List (String × Message) → ℕ → Action Coordinator (Unit {0})
unfolding collect route_all drive_tasks persist_all
tick entries now = do
  replies ← collect entries
  jobs ← route_all replies now
  drive_tasks now
  persist_all jobs
