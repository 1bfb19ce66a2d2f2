-- ===== src/Coordinator/Table.antt =====
-- What a tick does to the table of tasks: one task's trouble stays with that task, and every task
-- that stays has a timer running (agents/coordinator.py, `_tick`).
use mas_research.Base.{
  ◌∙◌, ℕ, ◌-◌, String, ◌≡◌, ◌≢◌, refl, Option, arith, Bool-cases, Option-cases, inl, inr,
  string_key, ltb, if◌then◌else◌, is_empty,
}
use mas_research.Base.Dict.{has, lookup, lookup-insert, lookup-erase}
use mas_research.Schemas.{failed}
use mas_research.Coordinator.State.{TaskState}
use mas_research.Coordinator.Effects.{
  Event, Run, Result, ok, raise, pure, and_then, Action, ◌>>◌, status_set,
}
use mas_research.Coordinator.Advance.{advance}
use mas_research.Coordinator.Reply.{finalize}
use mas_research.Coordinator.Loop.{
  Coordinator, on_task, call_out, remove_task, finalize_task, maybe_finalize, drive,
}
use mas_research.Coordinator.Tick.{except_with, try_except, abandon, check_deadline, drive_one}

-- A call for the task `k` leaves every other entry of the table alone, also if it raises.
unfoldable pub IsFramed : {A : Type 0} → String → Action Coordinator A → Type 0
IsFramed k m = (c : Coordinator) (j : String) → j ≢ k → lookup j (m c).1.tasks ≡ lookup j c.tasks

bind-kept :
    {A B : Type 0} (j : String) (o : Option TaskState) (f : A → Action Coordinator B)
    (x : Result A × Coordinator)
    → lookup j x.1.tasks ≡ o
    → ((a : A) (c : Coordinator) → lookup j (f a c).1.tasks ≡ lookup j c.tasks)
    → lookup j (and_then x.0 f x.1).1.tasks ≡ o
bind-kept j o f (ok a, c) h g = g a c ∙ h
bind-kept j o f (raise e, c) h g = h

except-kept :
    (j : String) (o : Option TaskState) (handler : Action Coordinator (Unit {0}))
    (x : Result (Unit {0}) × Coordinator)
    → lookup j x.1.tasks ≡ o
    → ((d : Coordinator) → lookup j (handler d).1.tasks ≡ lookup j d.tasks)
    → lookup j (except_with handler x).1.tasks ≡ o
unfolding except_with
except-kept j o handler (ok a, d) h g = h
except-kept j o handler (raise e, d) h g = g d ∙ h

-- `try: await self._store.set_status(...)` / `except` leaves the table alone.
pub call_out-kept :
    (j : String) (e : Event) (c : Coordinator)
    → lookup j (try_except (call_out e) (pure tt) c).1.tasks ≡ lookup j c.tasks
unfolding try_except call_out
call_out-kept j e c = except-kept j _ (pure tt) (call_out e c) refl (λ _. refl)

module _ (k : String) where
  on_task-IsFramed : {A : Type 0} (s : TaskState) (m : Action Run A) → IsFramed k (on_task k s m)
  unfolding on_task IsFramed
  on_task-IsFramed s m c j ne =
      ground (arith, lookup-insert j k (m (record { state = s; world = c.world })).1.state c.tasks)

  remove_task-IsFramed : IsFramed k (remove_task k)
  unfolding remove_task IsFramed
  remove_task-IsFramed c j ne = ground (arith, lookup-erase j k c.tasks)

  call_out-IsFramed : (e : Event) → IsFramed k (call_out e)
  unfolding call_out IsFramed
  call_out-IsFramed e c j ne = refl

  finalize_task-IsFramed : (s : TaskState) (now : ℕ) → IsFramed k (finalize_task k s now)
  unfolding finalize_task IsFramed
  finalize_task-IsFramed s now c j ne =
      bind-kept j _ _ (on_task k s (finalize c.config now) c)
        (on_task-IsFramed s (finalize c.config now) c j ne) (λ _ d. remove_task-IsFramed d j ne)

  maybe_finalize-IsFramed : (s : TaskState) (now : ℕ) → IsFramed k (maybe_finalize k s now)
  unfolding maybe_finalize IsFramed
  maybe_finalize-IsFramed s now c j ne = elim (Bool-cases (is_empty s.pending)) [
    | inl e ↦ rw e (finalize_task-IsFramed s now c j ne)
    | inr e ↦ rw e refl
  ]

  pub drive-IsFramed : (s : TaskState) (now : ℕ) → IsFramed k (drive k s now)
  unfolding drive IsFramed
  drive-IsFramed s now c j ne =
      bind-kept j _ _ (on_task k s (advance c.config now) c)
        (on_task-IsFramed s (advance c.config now) c j ne)
        (λ _ d. maybe_finalize-IsFramed _ now d j ne)

  check_deadline-IsFramed : (s : TaskState) (now : ℕ) → IsFramed k (check_deadline k s now)
  unfolding check_deadline IsFramed
  check_deadline-IsFramed s now c j ne = elim (Option-cases (lookup k c.tasks)) [
    | inl gone ↦ rw (gone, check_deadline) refl
    | inr (t, e) ↦ elim (Bool-cases (ltb c.config.global_deadline_sec (now - s.started_at))) [
      | inl late ↦ rw (e, check_deadline) (rw late (finalize_task-IsFramed t now c j ne))
      | inr early ↦ rw (e, check_deadline) (rw early refl)
    ]
  ]

  abandon-IsFramed : IsFramed k (abandon k)
  unfolding abandon try_except IsFramed
  abandon-IsFramed c j ne =
      bind-kept j _ _ ((if has k c.tasks then remove_task k else pure tt) c)
        (elim (Bool-cases (has k c.tasks)) [
          | inl e ↦ rw e (remove_task-IsFramed c j ne)
          | inr e ↦ rw e refl
        ])
        (λ _ d.
          except-kept j _ (pure tt) (call_out (status_set k failed) d)
            (call_out-IsFramed (status_set k failed) d j ne) (λ _. refl))

  pub drive_one-IsFramed : (now : ℕ) → IsFramed k (drive_one k now)
  unfolding drive_one try_except IsFramed
  drive_one-IsFramed now c j ne = elim (Option-cases (lookup k c.tasks)) [
    | inl gone ↦ rw (gone, drive_one) refl
    | inr (s, e) ↦
        rw (e, drive_one)
          (except-kept j _ (abandon k) ((drive k s now >> check_deadline k s now) c)
            (bind-kept j _ _ (drive k s now c) (drive-IsFramed s now c j ne)
              (λ _ d. check_deadline-IsFramed s now d j ne))
            (λ d. abandon-IsFramed d j ne))
  ]

-- Driving the task `k` in a tick leaves every other task's entry as it is, whatever raises on the way:
-- an advance, a finalization, the deadline check and the dropping of a task.
pub drive_one-keeps_others :
    (k j : String) (now : ℕ) (c : Coordinator)
    → j ≢ k
    → lookup j (drive_one k now c).1.tasks ≡ lookup j c.tasks
unfolding IsFramed
drive_one-keeps_others k j now c ne = drive_one-IsFramed k now c j ne
