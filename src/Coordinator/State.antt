-- ===== src/Coordinator/State.antt =====
-- The state of one task, and the assignments that the handlers make to it (agents/coordinator.py,
-- `TaskState`). Times are milliseconds of the monotonic clock.
use mas_research.Base.{ℕ, ◌+◌, String, none, some, or_else, List, [], ◌∷◌, get_elem?, string_key}
use mas_research.Base.Dict.{Dict, lookup, insert, erase, add, discard}
use mas_research.Schemas.{Task}
use mas_research.Plan.{Plan, Subtask}
use mas_research.Values.{Fields}
use mas_research.Core.Retry.{backoff_seconds}
use mas_research.Core.Status.{Results}

pub record TaskState : Type 0 where
  pub task : Task
  pub plan : Plan
  pub pending : List String
  pub started_at : ℕ
  pub published : List String
  pub results : Results
  pub retry_counts : Dict String ℕ
  pub deadlines : Dict String ℕ
  pub retry_at : Dict String ℕ
  pub first_attempt_at : Dict String ℕ
  pub resolved_at : Dict String ℕ
  pub fail_reason : Dict String String
  pub messages_exchanged : ℕ

-- `{subtask.id for subtask in plan.subtasks}`
unfoldable pub id_set : List Subtask → List String
id_set [] = []
id_set (s ∷ ss) = add s.id (id_set ss)

-- The state that `submit` builds.
unfoldable pub submitted : Task → Plan → ℕ → TaskState
unfolding id_set
submitted task plan now = record {
  task = task;
  plan = plan;
  pending = id_set plan.subtasks;
  started_at = now;
  published = [];
  results = [];
  retry_counts = [];
  deadlines = [];
  retry_at = [];
  first_attempt_at = [];
  resolved_at = [];
  fail_reason = [];
  messages_exchanged = 0;
}

-- `state.retry_counts.get(subtask_id, 0)`
abbrev pub retries : TaskState → String → ℕ
retries s subtask_id = or_else (lookup subtask_id s.retry_counts) 0

-- The assignments of `_fail_subtask`.
unfoldable pub mark_failed : String → String → ℕ → TaskState → TaskState
mark_failed subtask_id reason now s = record s {
  results = insert subtask_id none s.results;
  fail_reason = insert subtask_id reason s.fail_reason;
  resolved_at = insert subtask_id now s.resolved_at;
  deadlines = erase subtask_id s.deadlines;
  retry_at = erase subtask_id s.retry_at;
  published = add subtask_id s.published;
  pending = discard subtask_id s.pending;
}

-- The assignments of `_schedule_retry_or_fail` where a retry is left: the count goes up first, and
-- `BACKOFF_SECONDS` is read at the old count.
unfoldable pub mark_retry : String → String → ℕ → TaskState → TaskState
mark_retry subtask_id reason now s = record s {
  retry_counts = insert subtask_id (retries s subtask_id + 1) s.retry_counts;
  retry_at =
      insert subtask_id (now + or_else (get_elem? backoff_seconds (retries s subtask_id)) 0)
        s.retry_at;
  fail_reason = insert subtask_id reason s.fail_reason;
}

-- The assignments of `_publish` after the message is on the bus. `setdefault` keeps an old time.
unfoldable pub mark_published : String → ℕ → ℕ → TaskState → TaskState
mark_published subtask_id timeout now s = record s {
  published = add subtask_id s.published;
  messages_exchanged = s.messages_exchanged + 1;
  deadlines = insert subtask_id (now + timeout) s.deadlines;
  first_attempt_at =
      insert subtask_id (or_else (lookup subtask_id s.first_attempt_at) now) s.first_attempt_at;
}

-- The first assignments of `_route_reply`, on every reply to a pending subtask.
unfoldable pub mark_replied : String → TaskState → TaskState
mark_replied subtask_id s = record s {
  messages_exchanged = s.messages_exchanged + 1;
  deadlines = erase subtask_id s.deadlines;
}

-- The assignments of `_route_reply` for an inform.
unfoldable pub mark_informed : String → Fields → ℕ → TaskState → TaskState
mark_informed subtask_id content now s = record s {
  results = insert subtask_id (some content) s.results;
  resolved_at = insert subtask_id now s.resolved_at;
  retry_at = erase subtask_id s.retry_at;
  pending = discard subtask_id s.pending;
}
