-- ===== src/Coordinator/Deadlines.antt =====
-- The global deadline: no task that a tick leaves in the table has run for longer
-- (agents/coordinator.py, `_tick` and `_deadline_finalize`).
use mas_research.Base.{
  ℕ, ◌-◌, ◌≤◌, String, ◌≡◌, ◌∙◌, refl, some, arith, Bool-cases, Option-cases, inl, inr, string_key,
  ltb, is_empty, List, ap,
}
use mas_research.Base.Dict.{lookup, lookup-insert}
use mas_research.Coordinator.State.{TaskState}
use mas_research.Coordinator.Effects.{Run, Result, ok, raise, ◌>>◌}
use mas_research.Coordinator.Advance.{advance}
use mas_research.Coordinator.Loop.{
  Coordinator, current, on_task, finalize_task, maybe_finalize, drive,
}
use mas_research.Coordinator.Tick.{
  except_with, try_except, abandon, check_deadline, drive_one, drive_tasks, collect, route_all,
  persist_all, tick,
}
use mas_research.Coordinator.Starts.{advance-KeepsStart}
use mas_research.Coordinator.Tracking.{
  OnReturn, OnReturn-and_then, Gone, any-OnReturn, finalize_task-Gone, abandon-Gone,
}
use mathlib.Core.Path.{subst}
use mas_research.Coordinator.Routing.{Returns, Returns-mono}
use mas_research.Coordinator.Sweep.{drive_tasks-sweep}
use mas_research.Core.Messages.{Message}
use mas_research.Coordinator.Reply.{PersistJob}
use mas_research.Coordinator.Ticks.{persist_all-tasks}
use mas_research.Coordinator.Settings.{
  collect-KeepsConfig, route_all-KeepsConfig, drive-KeepsConfig, settings, drive_one-KeepsConfig,
}

-- The task has run for no longer than `limit`.
unfoldable pub InTime : ℕ → ℕ → TaskState → Type 0
InTime limit now s = now - s.started_at ≤ limit

module _ (k : String) (now : ℕ) where
  -- The entry of `k`, if there is one, started at `n`.
  StartedAt : ℕ → Coordinator → Type 0
  StartedAt n c = (t : TaskState) → lookup k c.tasks ≡ some t → t.started_at ≡ n

  Gone-any :
      (P : TaskState → Type 0) (c : Coordinator)
      → Gone k now c
      → (t : TaskState) → lookup k c.tasks ≡ some t
      → P t
  unfolding Gone
  Gone-any P c h t e = absurd (cc (h, e))

  Gone-OnReturn :
      (P : TaskState → Type 0) (x : Result (Unit {0}) × Coordinator)
      → OnReturn (Gone k now) x
      → OnReturn (λ c. (t : TaskState) → lookup k c.tasks ≡ some t → P t) x
  Gone-OnReturn P (ok a, c) h = Gone-any P c h
  Gone-OnReturn P (raise e, c) h = tt

  advance-StartedAt :
      (s : TaskState) (c : Coordinator)
      → lookup k c.tasks ≡ some s
      → StartedAt s.started_at (on_task k s (advance c.config now) c).1
  unfolding on_task StartedAt
  advance-StartedAt s c e t found =
      let r : Run = record { state = s; world = c.world } in
      let s' = (advance c.config now r).1.state in
      let same_state : s' ≡ t = ground (arith, lookup-insert k k s' c.tasks) in
      rw (← same_state) (ap (λ p. p.0) ((advance-KeepsStart c.config now).at r))

  drive-StartedAt :
      (s : TaskState) (c : Coordinator)
      → lookup k c.tasks ≡ some s
      → OnReturn (StartedAt s.started_at) (drive k s now c)
  unfolding drive maybe_finalize StartedAt
  drive-StartedAt s c e =
      OnReturn-and_then {P = StartedAt s.started_at} (StartedAt s.started_at) _
        (on_task k s (advance c.config now) c)
        (any-OnReturn k now (StartedAt s.started_at) (on_task k s (advance c.config now) c)
          (advance-StartedAt s c e))
        λ _ d h. elim (Bool-cases (is_empty (current d k s).pending)) [
          | inl done ↦ rw done (
              Gone-OnReturn _ (finalize_task k (current d k s) now d)
                (finalize_task-Gone k now (current d k s) d))
          | inr left ↦ rw left h
        ]

  -- Behind the check, what is left has not run for too long.
  check_deadline-InTime :
      (s : TaskState) (c : Coordinator)
      → StartedAt s.started_at c
      → OnReturn
          (λ d.
            (t : TaskState) → lookup k d.tasks ≡ some t → InTime c.config.global_deadline_sec now t)
          (check_deadline k s now c)
  unfolding check_deadline StartedAt InTime
  check_deadline-InTime s c h = elim (Option-cases (lookup k c.tasks)) [
    | inl gone ↦ rw (gone, check_deadline) (λ t e. cc e)
    | inr (t, e) ↦ elim (Bool-cases (ltb c.config.global_deadline_sec (now - s.started_at))) [
      | inl late ↦
          rw (e, check_deadline)
            (rw late (Gone-OnReturn _ (finalize_task k t now c) (finalize_task-Gone k now t c)))
      | inr early ↦ rw (e, check_deadline) (rw early (λ t' found. ground (arith, h t' found)))
    ]
  ]

  abbrev AllowedAt : ℕ → Coordinator → Type 0
  AllowedAt limit d = (t : TaskState) → lookup k d.tasks ≡ some t → InTime limit now t

  started-config :
      (s : TaskState) (c : Coordinator) (x : Result (Unit {0}) × Coordinator)
      → OnReturn (StartedAt s.started_at) x
      → settings x.1 ≡ c.config
      → OnReturn (λ d. StartedAt s.started_at d × (settings d ≡ c.config)) x
  started-config s c (ok a, d) h e = (h, e)
  started-config s c (raise error, d) h e = tt

  checked-AllowedAt :
      (s : TaskState) (c : Coordinator)
      → lookup k c.tasks ≡ some s
      → OnReturn
          (AllowedAt c.config.global_deadline_sec)
          ((drive k s now >> check_deadline k s now) c)
  checked-AllowedAt s c e =
      OnReturn-and_then (AllowedAt c.config.global_deadline_sec) _ (drive k s now c)
        (started-config s c (drive k s now c) (drive-StartedAt s c e)
          ((drive-KeepsConfig k s now).at c))
        λ _ d h.
          subst
            (λ config. OnReturn (AllowedAt config.global_deadline_sec) (check_deadline k s now d))
            h.1 (check_deadline-InTime s d h.0)

  caught-AllowedAt :
      (limit : ℕ) (x : Result (Unit {0}) × Coordinator)
      → OnReturn (AllowedAt limit) x
      → AllowedAt limit (except_with (abandon k) x).1
  unfolding except_with
  caught-AllowedAt limit (ok a, d) h = h
  caught-AllowedAt limit (raise e, d) h = Gone-any _ _ (abandon-Gone k now d)

  -- One task of a tick: afterwards it has not run for too long, or it is not in the table.
  drive_one-AllowedAt :
      (c : Coordinator) → AllowedAt c.config.global_deadline_sec (drive_one k now c).1
  unfolding drive_one try_except
  drive_one-AllowedAt c = elim (Option-cases (lookup k c.tasks)) [
    | inl gone ↦ rw (gone, drive_one) (λ t e. absurd (cc (gone, e)))
    | inr (s, e) ↦
        rw (e, drive_one)
          (caught-AllowedAt c.config.global_deadline_sec _ (checked-AllowedAt s c e))
  ]

-- Every task of the table has run for no longer than `limit`.
unfoldable pub AllInTime : ℕ → ℕ → Coordinator → Type 0
AllInTime limit now c =
    (k : String) (s : TaskState) → lookup k c.tasks ≡ some s → InTime limit now s

drive_tasks-AllInTime :
    (now : ℕ) (c : Coordinator)
    → Returns (λ _. AllInTime c.config.global_deadline_sec now) (drive_tasks now c)
unfolding AllInTime
drive_tasks-AllInTime now c =
    Returns-mono (drive_tasks now c)
      (drive_tasks-sweep now (λ d. d.config ≡ c.config) (InTime c.config.global_deadline_sec now)
        (λ id d e. (
          (drive_one-KeepsConfig id now).at d ∙ e,
          subst (λ config. AllowedAt id now config.global_deadline_sec (drive_one id now d).1) e
              (drive_one-AllowedAt id now d),
        ))
        c refl)
      (λ _ d w. w.1)

-- After the calls of the store at a tick's end the table is as it was.
persisted-AllInTime :
    (limit now : ℕ) (jobs : List PersistJob) (c : Coordinator)
    → AllInTime limit now c
    → OnReturn (AllInTime limit now) (persist_all jobs c)
unfolding AllInTime
persisted-AllInTime limit now jobs c h = kept (persist_all jobs c) (persist_all-tasks jobs c)
  where
    kept :
        (x : Result (Unit {0}) × Coordinator)
        → Returns (λ _ d. d.tasks ≡ c.tasks) x
        → OnReturn (AllInTime limit now) x
    kept (ok a, d) e = λ k s found. h k s (rw (← e) found)
    kept (raise error, d) e = absurd e

swept-AllInTime :
    (limit now : ℕ) (c : Coordinator)
    → c.config.global_deadline_sec ≡ limit
    → OnReturn (AllInTime limit now) (drive_tasks now c)
swept-AllInTime limit now c e = swept (drive_tasks now c) (drive_tasks-AllInTime now c)
  where
    swept :
        (x : Result (Unit {0}) × Coordinator)
        → Returns (λ _. AllInTime c.config.global_deadline_sec now) x
        → OnReturn (AllInTime limit now) x
    swept (ok a, d) h = rw (← e) h
    swept (raise error, d) h = tt

limited :
    {A : Type 0} (limit : ℕ) (x : Result A × Coordinator)
    → (settings x.1).global_deadline_sec ≡ limit
    → OnReturn (λ d. d.config.global_deadline_sec ≡ limit) x
limited limit (ok a, d) e = e
limited limit (raise error, d) e = tt

-- After a tick that returns, no task that is left in the table has run for longer than the global
-- deadline at the tick's clock reading, whatever the table was before, whatever the replies are and
-- whatever calls of the bus, the store and the validators fail on the way.
pub tick-AllInTime :
    (entries : List (String × Message)) (now : ℕ) (c : Coordinator)
    → OnReturn (AllInTime c.config.global_deadline_sec now) (tick entries now c)
unfolding tick
tick-AllInTime entries now c =
    let limit = c.config.global_deadline_sec in
    OnReturn-and_then (AllInTime limit now) _ (collect entries c)
      (limited limit (collect entries c)
        (ap (λ config. config.global_deadline_sec) ((collect-KeepsConfig entries).at c)))
      λ replies d e.
        OnReturn-and_then (AllInTime limit now) _ (route_all replies now d)
          (limited limit (route_all replies now d) (
            ap (λ config. config.global_deadline_sec) ((route_all-KeepsConfig replies now).at d)
            ∙ e))
          λ jobs d' e'.
            OnReturn-and_then (AllInTime limit now) _ (drive_tasks now d')
              (swept-AllInTime limit now d' e')
              (λ _ d'' h. persisted-AllInTime limit now jobs d'' h)
