-- ===== src/Coordinator/Measure.antt =====
-- What is left to do at one clock reading: subtasks to start, deadlines that have passed and retries
-- that are due. No assignment of the handlers adds to it (agents/coordinator.py, `_advance`).
use mas_research.Base.{
  zero, suc, ℕ, ◌+◌, ◌≤◌, ◌<◌, String, Bool, true, false, ◌≡◌, some, arith, ltb, leb, string_key,
  get_elem?, or_else,
}
use mas_research.Base.Dict.{lookup, contains-add, contains-discard}
use mas_research.Base.Counting.{
  count_if, count_if-le-length, count_if_mono, count_if_strict, count_if-insert-le,
  count_if-erase-le, count_if-erase-lt,
}
use mathlib.Core.List.{Memᴰ}
use mas_research.Plan.{Subtask}
use mas_research.Core.Retry.{retry_max, backoff_seconds}
use mas_research.Coordinator.State.{TaskState, retries, mark_failed, mark_retry, mark_published}
use mas_research.Coordinator.Advance.{advance_fuel, is_waiting, drop_deadline, drop_retry}

abbrev pub is_past : ℕ → ℕ → Bool
is_past now t = ltb t now

abbrev pub is_due : ℕ → ℕ → Bool
is_due now t = leb t now

pub waiting : TaskState → ℕ
waiting s = count_if (is_waiting s) s.plan.subtasks

pub expired : ℕ → TaskState → ℕ
expired now s = count_if (λ (e : String × ℕ). is_past now e.1) s.deadlines

pub due : ℕ → TaskState → ℕ
due now s = count_if (λ (e : String × ℕ). is_due now e.1) s.retry_at

pub measure : ℕ → TaskState → ℕ
measure now s = waiting s + expired now s + due now s

module _ (now : ℕ) (s : TaskState) (k : String) (reason : String) where
  failed_waiting :
      (t : Subtask) → is_waiting (mark_failed k reason now s) t ≡ true → is_waiting s t ≡ true
  unfolding mark_failed
  failed_waiting t h =
      ground (arith, contains-add t.id k s.published, contains-discard t.id k s.pending)

  pub mark_failed-measure-le : measure now (mark_failed k reason now s) ≤ measure now s
  unfolding measure waiting expired due mark_failed
  mark_failed-measure-le = omega (
    arith,
    count_if_mono _ (is_waiting s) failed_waiting s.plan.subtasks,
    count_if-erase-le (is_past now) k s.deadlines,
    count_if-erase-le (is_due now) k s.retry_at,
  )

  -- The retry is put off by one of the two delays, so it is not due at once.
  pub mark_retry-measure-le :
      retries s k < retry_max → measure now (mark_retry k reason now s) ≤ measure now s
  unfolding measure waiting expired due mark_retry
  mark_retry-measure-le h = omega (
    arith,
    count_if-insert-le (is_due now) k (now + or_else (get_elem? backoff_seconds (retries s k)) 0)
        s.retry_at (not_due (retries s k) h),
  )
    where
      not_due :
          (n : ℕ)
          → n < retry_max
          → is_due now (now + or_else (get_elem? backoff_seconds n) 0) ≡ false
      not_due zero q = ground arith
      not_due (suc zero) q = ground arith
      not_due (suc (suc n)) q = absurd (omega arith)

module _ (now : ℕ) (s : TaskState) (k : String) where
  module _ (timeout : ℕ) where
    published_waiting :
        (t : Subtask) → is_waiting (mark_published k timeout now s) t ≡ true → is_waiting s t ≡ true
    unfolding mark_published
    published_waiting t h = ground (arith, contains-add t.id k s.published)

    pub mark_published-measure-le : measure now (mark_published k timeout now s) ≤ measure now s
    unfolding measure waiting expired due mark_published
    mark_published-measure-le = omega (
      arith,
      count_if_mono _ (is_waiting s) published_waiting s.plan.subtasks,
      count_if-insert-le (is_past now) k (now + timeout) s.deadlines (ground arith),
    )

  pub drop_deadline-measure-lt :
      {t : ℕ}
      → lookup k s.deadlines ≡ some t
      → ltb t now ≡ true
      → measure now (drop_deadline k s) + 1 ≤ measure now s
  unfolding measure waiting expired due
  drop_deadline-measure-lt {t} e h =
      omega (arith, count_if-erase-lt (is_past now) k t s.deadlines e h)

  pub drop_retry-measure-lt :
      {t : ℕ}
      → lookup k s.retry_at ≡ some t
      → leb t now ≡ true
      → measure now (drop_retry k s) + 1 ≤ measure now s
  unfolding measure waiting expired due
  drop_retry-measure-lt {t} e h = omega (arith, count_if-erase-lt (is_due now) k t s.retry_at e h)

-- A waiting subtask of the plan that is failed or published waits no more.
module _ (now : ℕ) (s : TaskState) (x : Subtask) (m : Memᴰ x s.plan.subtasks)
    (w : is_waiting s x ≡ true) where
  pub mark_failed-measure-lt :
      (reason : String) → measure now (mark_failed x.id reason now s) + 1 ≤ measure now s
  unfolding measure waiting expired due mark_failed
  mark_failed-measure-lt reason = omega (
    arith,
    count_if_strict (is_waiting (mark_failed x.id reason now s)) (is_waiting s)
        (failed_waiting now s x.id reason) x s.plan.subtasks m
        (ground (arith, contains-add x.id x.id s.published)) w,
    count_if-erase-le (is_past now) x.id s.deadlines,
    count_if-erase-le (is_due now) x.id s.retry_at,
  )

  pub mark_published-measure-lt :
      (timeout : ℕ) → measure now (mark_published x.id timeout now s) + 1 ≤ measure now s
  unfolding measure waiting expired due mark_published
  mark_published-measure-lt timeout = omega (
    arith,
    count_if_strict (is_waiting (mark_published x.id timeout now s)) (is_waiting s)
        (published_waiting now s x.id timeout) x s.plan.subtasks m
        (ground (arith, contains-add x.id x.id s.published)) w,
    count_if-insert-le (is_past now) x.id (now + timeout) s.deadlines (ground arith),
  )

-- The rounds that `_advance` is given are enough for what is left to do.
pub measure-lt-advance_fuel : (now : ℕ) (s : TaskState) → measure now s < advance_fuel s
unfolding measure waiting expired due advance_fuel
measure-lt-advance_fuel now s = omega (
  arith,
  count_if-le-length (is_waiting s) s.plan.subtasks,
  count_if-le-length (λ (e : String × ℕ). is_past now e.1) s.deadlines,
  count_if-le-length (λ (e : String × ℕ). is_due now e.1) s.retry_at,
)
