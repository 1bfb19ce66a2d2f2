-- ===== src/Coordinator/Invariant.antt =====
-- The invariant of a task's state, subtask by subtask, under each group of assignments
-- (agents/coordinator.py).
use mas_research.Base.{
  Option, get_elem?, or_else, ℕ, ◌+◌, ◌≤◌, ◌<◌, String, Bool, true, false, not, ◌&&◌, ◌||◌, ◌≡◌,
  none, some, is_some, arith, string_key, same,
}
use mas_research.Base.Dict.{
  lookup, insert, has, contains, lookup-insert, lookup-erase, contains-add, contains-discard,
}
use mas_research.Plan.{plan_get}
use mas_research.Values.{Fields}
use mas_research.Core.Retry.{retry_max, backoff_seconds}
use mas_research.Coordinator.State.{
  TaskState, retries, mark_failed, mark_retry, mark_published, mark_replied, mark_informed,
}
use mas_research.Coordinator.Advance.{drop_deadline, drop_retry}

-- What holds of the subtask `j`, whose clock may be off (`free`) in the middle of a handler:
-- it is pending exactly while it has no result, only a pending subtask has a deadline or a retry
-- scheduled, and a published pending subtask has one of these.
pub record IsWfAt (s : TaskState) (free : Bool) (j : String) : Type 0 where
  pub planned : contains j s.pending ≡ true → is_some (plan_get s.plan j) ≡ true
  pub settled : is_some (plan_get s.plan j) ≡ true → has j s.results ≡ not (contains j s.pending)
  pub deadline_pending : has j s.deadlines ≡ true → contains j s.pending ≡ true
  pub retry_pending : has j s.retry_at ≡ true → contains j s.pending ≡ true
  pub tracked :
      free ≡ false
      → (contains j s.published && contains j s.pending) ≡ true
      → (has j s.deadlines || has j s.retry_at) ≡ true
  pub bounded : retries s j ≤ retry_max

abbrev pub IsWf : TaskState → Type 0
IsWf s = (j : String) → IsWfAt s false j

-- The invariant but for the clock of `k`.
abbrev pub IsWfBut : String → TaskState → Type 0
IsWfBut k s = (j : String) → IsWfAt s (same j k) j

pub mark_replied-cleared : (k : String) (s : TaskState) → has k (mark_replied k s).deadlines ≡ false
unfolding mark_replied
mark_replied-cleared k s = ground (arith, lookup-erase k k s.deadlines)

module _ {s : TaskState} (k : String) where
  pub drop_deadline-IsWfBut : IsWf s → IsWfBut k (drop_deadline k s)
  drop_deadline-IsWfBut w j = ground (arith, w j, lookup-erase j k s.deadlines)

  pub drop_retry-IsWfBut : IsWf s → IsWfBut k (drop_retry k s)
  drop_retry-IsWfBut w j = ground (arith, w j, lookup-erase j k s.retry_at)

  pub mark_replied-IsWfBut : IsWf s → IsWfBut k (mark_replied k s)
  unfolding mark_replied
  mark_replied-IsWfBut w j = ground (arith, w j, lookup-erase j k s.deadlines)

  pub IsWf-IsWfBut : IsWf s → IsWfBut k s
  IsWf-IsWfBut w j = ground (arith, w j)

  module _ (w : IsWfBut k s) (reason : String) (now : ℕ) where
    pub mark_failed-IsWf : IsWf (mark_failed k reason now s)
    unfolding mark_failed
    mark_failed-IsWf j = ground (
      arith,
      w j,
      lookup-erase j k s.deadlines,
      lookup-erase j k s.retry_at,
      lookup-insert j k none s.results,
      contains-add j k s.published,
      contains-discard j k s.pending,
    )

    pub mark_retry-IsWf :
        contains k s.pending ≡ true → retries s k < retry_max → IsWf (mark_retry k reason now s)
    unfolding mark_retry
    mark_retry-IsWf p h j = ground (
      arith,
      w j,
      lookup-insert j k (retries s k + 1) s.retry_counts,
      lookup-insert j k (now + or_else (get_elem? backoff_seconds (retries s k)) 0) s.retry_at,
    )

    pub mark_informed-IsWf :
        (content : Fields) → has k s.deadlines ≡ false → IsWf (mark_informed k content now s)
    unfolding mark_informed
    mark_informed-IsWf content e j = ground (
      arith,
      w j,
      lookup-erase j k s.retry_at,
      lookup-insert j k (some content) s.results,
      contains-discard j k s.pending,
    )

  pub mark_published-IsWf :
      IsWfBut k s
      → (timeout now : ℕ) → contains k s.pending ≡ true
      → IsWf (mark_published k timeout now s)
  unfolding mark_published
  mark_published-IsWf w timeout now p j =
      ground
        (arith, w j, lookup-insert j k (now + timeout) s.deadlines, contains-add j k s.published)

-- Every result of `s` is still that of its subtask in `t`: none is lost or replaced.
unfoldable pub KeepsResults : TaskState → TaskState → Type 0
KeepsResults s t =
    (k : String) (result : Option Fields)
    → lookup k s.results ≡ some result
    → lookup k t.results ≡ some result

-- Only a pending subtask, which has no result, gets one.
pub insert-KeepsResults :
    {free : Bool} (s t : TaskState) (k : String) (result : Option Fields)
    → IsWfAt s free k
    → contains k s.pending ≡ true
    → t.results ≡ insert k result s.results
    → KeepsResults s t
unfolding KeepsResults
insert-KeepsResults s t k result w p e j old found =
    rw e (ground (arith, w, lookup-insert j k result s.results))

pub KeepsResults-same : (s t : TaskState) → t.results ≡ s.results → KeepsResults s t
unfolding KeepsResults
KeepsResults-same s t e j old found = rw e found

pub KeepsResults-trans :
    (s t u : TaskState) → KeepsResults s t → KeepsResults t u → KeepsResults s u
unfolding KeepsResults
KeepsResults-trans s t u h g j old found = g j old (h j old found)
