-- ===== src/Coordinator/Advance.antt =====
-- The `while` loop that moves a task on at one clock reading (agents/coordinator.py, `_advance`).
use mas_research.Base.{
  ℕ, zero, suc, ◌+◌, String, Bool, true, false, not, ◌&&◌, ◌||◌, none, some, is_some, List, [], ◌∷◌,
  length, all, select, is_empty, ltb, leb, if◌then◌else◌, string_key,
}
use mas_research.Base.Dict.{lookup, erase, has, keys, contains}
use mas_research.Plan.{JoinPolicy, all_of, any_of, Subtask}
use mas_research.Core.Messages.{performative_key}
use mas_research.Core.Status.{result_of}
use mas_research.Coordinator.State.{TaskState}
use mas_research.Coordinator.Effects.{
  Run, Action, ok, raise, key_error, out_of_fuel, pure, throw, ◌>>=◌, ◌>>◌, modify, planned,
}
use mas_research.Coordinator.Handlers.{Config, fail_subtask, schedule_retry_or_fail, publish}

-- `[dep for dep in subtask.depends_on if state.results.get(dep) is not None]`
abbrev pub succeeded : TaskState → Subtask → List String
succeeded s subtask = select (λ dep. is_some (result_of s.results dep)) subtask.depends_on

-- `all(dep in state.results for dep in subtask.depends_on)`
abbrev pub is_ready : TaskState → Subtask → Bool
is_ready s subtask = all (λ dep. has dep s.results) subtask.depends_on

-- Not yet published, and still pending.
abbrev pub is_waiting : TaskState → Subtask → Bool
is_waiting s subtask = not (contains subtask.id s.published) && contains subtask.id s.pending

abbrev pub is_all_join : JoinPolicy → Bool
is_all_join all_of = true
is_all_join any_of = false

-- What the `for` loop of `_advance` does with a subtask that is ready.
unfoldable pub start_subtask : Config → Subtask → ℕ → Action Run (Unit {0})
start_subtask config subtask now r =
    if not (is_empty subtask.depends_on) && is_empty (succeeded r.state subtask)
    then fail_subtask subtask.id "skipped: all upstream failed" now r
    else if is_all_join subtask.join
        && ltb (length (succeeded r.state subtask)) (length subtask.depends_on)
    then fail_subtask subtask.id "skipped: upstream failed" now r
    else publish config subtask now r

-- One round of that loop; the result is whether it set `changed`.
unfoldable pub visit_subtask : Config → Subtask → ℕ → Action Run Bool
visit_subtask config subtask now r =
    if is_waiting r.state subtask && is_ready r.state subtask
    then (start_subtask config subtask now >> pure true) r
    else (ok false, r)

-- The three loops of `_advance` and of its helpers: every item is visited, and the result is whether
-- some round set `changed`.
unfoldable pub for_changed : {X : Type 0} → (X → Action Run Bool) → List X → Action Run Bool
for_changed visit [] = pure false
for_changed visit (x ∷ xs) = do
  changed ← visit x
  more ← for_changed visit xs
  pure (changed || more)

unfoldable pub dispatch_ready : Config → ℕ → List Subtask → Action Run Bool
dispatch_ready config now = for_changed (λ subtask. visit_subtask config subtask now)

abbrev pub drop_deadline : String → TaskState → TaskState
drop_deadline subtask_id s = record s { deadlines = erase subtask_id s.deadlines }

abbrev pub drop_retry : String → TaskState → TaskState
drop_retry subtask_id s = record s { retry_at = erase subtask_id s.retry_at }

unfoldable pub expire : ℕ → String → Action Run (Unit {0})
expire now subtask_id = do
  modify (drop_deadline subtask_id)
  schedule_retry_or_fail subtask_id "timeout" now

unfoldable pub visit_deadline : ℕ → String → Action Run Bool
visit_deadline now subtask_id r = elim (lookup subtask_id r.state.deadlines) [
  | none ↦ (raise key_error, r)
  | some deadline ↦
      if ltb deadline now then (expire now subtask_id >> pure true) r else (ok false, r)
]

-- `_expire_timeouts` goes through a copy of the keys.
unfoldable pub expire_timeouts : ℕ → Action Run Bool
expire_timeouts now r = for_changed (visit_deadline now) (keys r.state.deadlines) r

unfoldable pub republish : Config → ℕ → String → Action Run (Unit {0})
republish config now subtask_id = do
  modify (drop_retry subtask_id)
  subtask ← planned subtask_id
  publish config subtask now

unfoldable pub visit_retry : Config → ℕ → String → Action Run Bool
visit_retry config now subtask_id r = elim (lookup subtask_id r.state.retry_at) [
  | none ↦ (raise key_error, r)
  | some due ↦
      if leb due now then (republish config now subtask_id >> pure true) r else (ok false, r)
]

unfoldable pub republish_due : Config → ℕ → Action Run Bool
republish_due config now r = for_changed (visit_retry config now) (keys r.state.retry_at) r

-- The body of the `while` loop of `_advance`.
unfoldable pub advance_round : Config → ℕ → Action Run Bool
advance_round config now r =
    (do
      dispatched ← dispatch_ready config now r.state.plan.subtasks
      expired ← expire_timeouts now
      republished ← republish_due config now
      pure (dispatched || (expired || republished)))
      r

-- The test of `while changed`, and another round.
unfoldable pub advance_loop : Config → ℕ → ℕ → Action Run (Unit {0})
advance_loop config now zero = throw out_of_fuel
advance_loop config now (suc fuel) = do
  changed ← advance_round config now
  λ r. elim changed [ true ↦ advance_loop config now fuel r | false ↦ (ok tt, r) ]

-- Rounds that are enough for `_advance` at one clock reading.
unfoldable pub advance_fuel : TaskState → ℕ
advance_fuel s = length s.plan.subtasks + length s.deadlines + length s.retry_at + 1

unfoldable pub advance : Config → ℕ → Action Run (Unit {0})
unfolding advance_loop advance_fuel
advance config now r = advance_loop config now (advance_fuel r.state) r
