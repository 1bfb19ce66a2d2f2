-- ===== src/Coordinator/Results.antt =====
-- The results of a task over a whole tick (agents/coordinator.py, `_tick`).
use mas_research.Base.{
  ap, refl, ℕ, String, ◌≡◌, some, List, [], ◌∷◌, arith, Option-cases, inl, inr, string_key,
  string_dec,
}
use mas_research.Base.Dict.{lookup, lookup-insert}
use mas_research.Core.Messages.{Message}
use mas_research.Coordinator.State.{TaskState}
use mas_research.Coordinator.Effects.{Run, Result, ok, raise, and_then, ◌>>◌, ◌>>=◌}
use mas_research.Coordinator.Reply.{PersistJob, route_reply}
use mas_research.Coordinator.Loop.{Coordinator, on_task}
use mas_research.Coordinator.Tick.{drive_tasks, collect, route_one, route_all, persist_all, tick}
use mas_research.Coordinator.Invariant.{KeepsResults, KeepsResults-trans, KeepsResults-same}
use mas_research.Coordinator.Routing.{
  Returns-mono, Returns, Returns-and_then, KeepsWf, route_reply-KeepsWf,
}
use mas_research.Coordinator.Tracking.{OnReturn, OnReturn-and_then}
use mas_research.Coordinator.Sweep.{AllTaskOk, drive_one-AllTaskOk, drive_tasks-sweep}
use mas_research.Coordinator.Ticks.{route_one-AllTaskOk, collect-tasks, persist_all-tasks}
use mas_research.Coordinator.Driven.{Kept, drive_one-Kept}

module _ (k : String) (s : TaskState) (now : ℕ) where
  abbrev Has : Coordinator → Type 0
  Has d = Kept k s now d

  -- Routing a reply, to the task itself or to another.
  route_one-Kept :
      (reply : Message) (d : Coordinator)
      → AllTaskOk d
      → Has d
      → Returns (λ _. Has) (route_one reply now d)
  unfolding route_one on_task AllTaskOk Kept
  route_one-Kept reply d oks h = elim (Option-cases (lookup reply.task_id d.tasks)) [
    | inl gone ↦ rw (gone, route_one) h
    | inr (t, e) ↦
        rw (e, route_one)
          (written t e (route_reply d.printer reply now (record { state = t; world = d.world })) (
            route_reply-KeepsWf d.printer reply now (record { state = t; world = d.world })
              (oks reply.task_id t e).wf))
  ]
    where
      written :
          {A : Type 0} (t : TaskState)
          → lookup reply.task_id d.tasks ≡ some t
          → (x : Result A × Run) → Returns (KeepsWf t) x
          → Returns (λ _. Has) (on_task reply.task_id t (λ _. x) d)
      written t e (ok a, r) w = λ u found. elim (string_dec k reply.task_id) [
        | yes p ↦
            let same_state : r.state ≡ u =
              ground (arith, lookup-insert k reply.task_id r.state d.tasks) in
            let before : lookup k d.tasks ≡ some t = rw p e in
            rw (← same_state) (KeepsResults-trans s t r.state (h t before) w.2)
        | no ne ↦ h u (ground (arith, lookup-insert k reply.task_id r.state d.tasks))
      ]
      written t e (raise error, r) w = w

  route_all-Kept :
      (replies : List Message) (d : Coordinator)
      → AllTaskOk d
      → Has d
      → Returns (λ _ d'. AllTaskOk d' × Has d') (route_all replies now d)
  unfolding route_all
  route_all-Kept [] d oks h = (oks, h)
  route_all-Kept (reply ∷ replies) d oks h =
      Returns-and_then (λ _ d'. AllTaskOk d' × Has d') _ (route_one reply now d)
        (both (route_one reply now d) (route_one-AllTaskOk reply now d oks)
          (route_one-Kept reply d oks h))
        λ _ d' g.
          Returns-and_then (λ _ d''. AllTaskOk d'' × Has d'') _ (route_all replies now d')
            (route_all-Kept replies d' g.0 g.1) (λ _ _ u. u)
    where
      both :
          {A : Type 0} (x : Result A × Coordinator)
          → Returns (λ _. AllTaskOk) x
          → Returns (λ _. Has) x
          → Returns (λ _ d'. AllTaskOk d' × Has d') x
      both (ok a, d') p q = (p, q)
      both (raise e, d') p q = p

  drive_tasks-Kept :
      (d : Coordinator) → AllTaskOk d → Has d → Returns (λ _. Has) (drive_tasks now d)
  drive_tasks-Kept d oks h =
      Returns-mono (drive_tasks now d)
        (drive_tasks-sweep now (λ d'. AllTaskOk d' × Has d') (λ _. Unit {0})
          (λ id d' g. (
            ((drive_one-AllTaskOk now id d' g.0).0, drive_one-Kept k s now id d' g.0 g.1),
            λ _ _. tt,
          ))
          d (oks, h))
        (λ _ d' w. w.0.1)

  persist_all-Kept :
      (jobs : List PersistJob) (d : Coordinator) → Has d → OnReturn Has (persist_all jobs d)
  unfolding Kept
  persist_all-Kept jobs d h = kept (persist_all jobs d) (persist_all-tasks jobs d)
    where
      kept :
          (x : Result (Unit {0}) × Coordinator)
          → Returns (λ _ d'. d'.tasks ≡ d.tasks) x
          → OnReturn Has x
      kept (ok a, d') e = λ t found. h t (rw (← e) found)
      kept (raise error, d') e = absurd e

  Returns-OnReturn :
      {A : Type 0} (P : Coordinator → Type 0) (x : Result A × Coordinator)
      → Returns (λ _. P) x
      → OnReturn P x
  Returns-OnReturn P (ok a, d) h = h
  Returns-OnReturn P (raise e, d) h = tt

  -- A tick that returns leaves a task that stays in the table with every result that it had: no
  -- reply, late or repeated, and no failure replaces one. The entries were well-formed before.
  pub tick-KeepsResults :
      (entries : List (String × Message)) (c : Coordinator)
      → AllTaskOk c
      → lookup k c.tasks ≡ some s
      → OnReturn
          (λ d. (t : TaskState) → lookup k d.tasks ≡ some t → KeepsResults s t)
          (tick entries now c)
  unfolding tick AllTaskOk Kept
  tick-KeepsResults entries c oks e = read (collect entries c) (collect-tasks entries c)
    where
      read :
          (x : Result (List Message) × Coordinator)
          → x.1.tasks ≡ c.tasks
          → OnReturn Has (
              and_then x.0
                (λ replies. route_all replies now >>= λ jobs. drive_tasks now >> persist_all jobs)
                x.1)
      read (raise error, d) p = tt
      read (ok replies, d) p =
          OnReturn-and_then Has _ (route_all replies now d)
            (Returns-OnReturn (λ d'. AllTaskOk d' × Has d') (route_all replies now d)
              (route_all-Kept replies d (λ j t found. oks j t (rw (← p) found))
                λ t found.
                  let same_state : s ≡ t = cc (e, ap (lookup k) p, found) in
                  rw same_state (KeepsResults-same t t refl)))
            λ jobs d' g.
              OnReturn-and_then Has _ (drive_tasks now d')
                (Returns-OnReturn Has (drive_tasks now d') (drive_tasks-Kept d' g.0 g.1))
                (λ _ d'' h. persist_all-Kept jobs d'' h)
