-- ===== src/Coordinator/Driven.antt =====
-- The results of a task where a tick drives it (agents/coordinator.py, `_tick`).
use mas_research.Base.{
  ℕ, ◌-◌, String, ◌≡◌, ◌∙◌, sym, some, arith, Bool-cases, Option-cases, inl, inr, string_key,
  string_dec, ltb, is_empty,
}
use mathlib.Core.Path.{subst}
use mas_research.Base.Dict.{lookup, lookup-insert}
use mas_research.Coordinator.State.{TaskState}
use mas_research.Coordinator.Effects.{Run, Result, ok, raise, ◌>>◌}
use mas_research.Coordinator.Advance.{advance}
use mas_research.Coordinator.Loop.{
  Coordinator, current, on_task, finalize_task, maybe_finalize, drive,
}
use mas_research.Coordinator.Tick.{except_with, try_except, abandon, check_deadline, drive_one}
use mas_research.Coordinator.Invariant.{KeepsResults, KeepsResults-trans}
use mas_research.Coordinator.Progress.{Ensures}
use mas_research.Coordinator.Rounds.{Settled, advance-Settled}
use mas_research.Coordinator.Table.{IsFramed, drive_one-IsFramed}
use mas_research.Coordinator.Tracking.{
  IsTaskOk, OnReturn, OnReturn-and_then, Gone, finalize_task-Gone, abandon-Gone,
}
use mas_research.Coordinator.Sweep.{AllTaskOk}

module _ (k : String) (s : TaskState) (now : ℕ) where
  -- The entry of `k`, if there is one, has every result of `s`.
  unfoldable pub Kept : Coordinator → Type 0
  Kept d = (t : TaskState) → lookup k d.tasks ≡ some t → KeepsResults s t

  Gone-Kept : (d : Coordinator) → Gone k now d → Kept d
  unfolding Gone Kept
  Gone-Kept d gone t e = absurd (cc (gone, e))

  Gone-OnReturn : (x : Result (Unit {0}) × Coordinator) → OnReturn (Gone k now) x → OnReturn Kept x
  Gone-OnReturn (ok a, d) h = Gone-Kept d h
  Gone-OnReturn (raise e, d) h = tt

  advance-Kept :
      (t : TaskState) (d : Coordinator)
      → lookup k d.tasks ≡ some t
      → IsTaskOk t
      → KeepsResults s t
      → OnReturn Kept (on_task k t (advance d.config now) d)
  unfolding on_task Kept
  advance-Kept t d e task_ok kept =
      written (advance d.config now r) (advance-Settled d.config now r task_ok.wf)
    where
      r : Run
      r = record { state = t; world = d.world }

      written :
          (x : Result (Unit {0}) × Run)
          → Ensures (Settled d.config now r) x
          → OnReturn Kept (on_task k t (λ _. x) d)
      written (ok a, r') h = λ t' found.
          let same_state : r'.state ≡ t' = ground (arith, lookup-insert k k r'.state d.tasks) in
          rw (← same_state) (KeepsResults-trans s t r'.state kept h.3)
      written (raise error, r') h = tt

  drive-Kept :
      (t : TaskState) (d : Coordinator)
      → lookup k d.tasks ≡ some t
      → IsTaskOk t
      → KeepsResults s t
      → OnReturn Kept (drive k t now d)
  unfolding drive maybe_finalize
  drive-Kept t d e task_ok kept =
      OnReturn-and_then {P = Kept} Kept _ (on_task k t (advance d.config now) d)
        (advance-Kept t d e task_ok kept)
        λ _ d' h. elim (Bool-cases (is_empty (current d' k t).pending)) [
          | inl done ↦ rw done (
              Gone-OnReturn (finalize_task k (current d' k t) now d')
                (finalize_task-Gone k now (current d' k t) d'))
          | inr left ↦ rw left h
        ]

  check_deadline-Kept :
      (t : TaskState) (d : Coordinator) → Kept d → OnReturn Kept (check_deadline k t now d)
  unfolding check_deadline
  check_deadline-Kept t d h = elim (Option-cases (lookup k d.tasks)) [
    | inl gone ↦ rw (gone, check_deadline) h
    | inr (u, e) ↦ elim (Bool-cases (ltb d.config.global_deadline_sec (now - t.started_at))) [
      | inl late ↦
          rw (e, check_deadline)
            (rw late (Gone-OnReturn (finalize_task k u now d) (finalize_task-Gone k now u d)))
      | inr early ↦ rw (e, check_deadline) (rw early h)
    ]
  ]

  caught-Kept :
      (x : Result (Unit {0}) × Coordinator) → OnReturn Kept x → Kept (except_with (abandon k) x).1
  unfolding except_with
  caught-Kept (ok a, d) h = h
  caught-Kept (raise e, d) h = Gone-Kept _ (abandon-Gone k now d)

  drive_one-here : (d : Coordinator) → AllTaskOk d → Kept d → Kept (drive_one k now d).1
  unfolding drive_one try_except AllTaskOk Kept Gone
  drive_one-here d oks h = elim (Option-cases (lookup k d.tasks)) [
    | inl gone ↦ rw (gone, drive_one) (Gone-Kept d gone)
    | inr (t, e) ↦
        rw (e, drive_one)
          (caught-Kept ((drive k t now >> check_deadline k t now) d) (
            OnReturn-and_then Kept _ (drive k t now d) (drive-Kept t d e (oks k t e) (h t e))
              (λ _ d' g. check_deadline-Kept t d' g)))
  ]

  pub drive_one-Kept :
      (id : String) (d : Coordinator) → AllTaskOk d → Kept d → Kept (drive_one id now d).1
  unfolding Kept IsFramed
  drive_one-Kept id d oks h = elim (string_dec k id) [
    | yes p ↦ subst (λ j. Kept (drive_one j now d).1) p (drive_one-here d oks h)
    | no ne ↦ λ t e. h t (sym (drive_one-IsFramed id now d k ne) ∙ e)
  ]
