-- ===== src/Coordinator/Ticks.antt =====
-- A whole tick (agents/coordinator.py, `_tick`), and the tasks that enter the table.
use mas_research.Coordinator.Reply.{PersistJob, route_reply}
use Prim.Native.Nat.{zero, suc}
use mas_research.Core.Idempotency.{accept}
use mathlib.Core.List.{List, [], ◌∷◌}
use mas_research.Base.{
  ap, arith, suc, string_dec, inr, inl, Option-cases, ◌∷◌, List, ℕ, String, ◌≡◌, ◌∙◌, refl, some,
  string_key,
}
use mas_research.Base.Dict.{lookup-insert, Dict, insert, lookup}
use mas_research.Core.Messages.{Message}
use mas_research.Coordinator.State.{TaskState}
use mas_research.Coordinator.Effects.{
  ◌>>=◌, result_saved, and_then, ◌>>◌, acked, Run, Result, ok, raise, Action,
}
use mas_research.Coordinator.Loop.{Coordinator, on_task, call_out}
use mas_research.Coordinator.Tick.{
  persist_retries, except_with, try_except, collect, route_one, route_all, drive_tasks,
  persist_result, persist_all, tick,
}
use mas_research.Coordinator.Routing.{Returns-and_then, Returns, KeepsWf, route_reply-KeepsWf}
use mas_research.Coordinator.Tracking.{IsTaskOk, built-same}
use mas_research.Coordinator.Origins.{route_reply-KeepsStart}
use mas_research.Coordinator.Sweep.{AllTaskOk, AllLive, drive_tasks-AllLive}

pub insert-AllTaskOk :
    (id : String) (t : TaskState) (c d : Coordinator)
    → d.tasks ≡ insert id t c.tasks
    → IsTaskOk t
    → AllTaskOk c
    → AllTaskOk d
unfolding AllTaskOk
insert-AllTaskOk id t c d e ok_new ok_old k s found =
    let found_new : lookup k (insert id t c.tasks) ≡ some s = rw (← e) found in
    elim (string_dec k id) [
      | yes p ↦
          let found_here : lookup k (insert id t c.tasks) ≡ some t =
            ground (arith, lookup-insert k id t c.tasks) in
          let same_state : s ≡ t = cc (found_new, found_here) in rw same_state ok_new
      | no ne ↦ ok_old k s (ground (arith, lookup-insert k id t c.tasks))
    ]

-- Routing one reply leaves the table's entries well-formed.
pub route_one-AllTaskOk :
    (reply : Message) (now : ℕ) (c : Coordinator)
    → AllTaskOk c
    → Returns (λ _. AllTaskOk) (route_one reply now c)
unfolding route_one on_task AllTaskOk
route_one-AllTaskOk reply now c h = elim (Option-cases (lookup reply.task_id c.tasks)) [
  | inl gone ↦ rw (gone, route_one) h
  | inr (s, e) ↦
      rw (e, route_one)
        (written s e (route_reply c.printer reply now (record { state = s; world = c.world }))
          (route_reply-KeepsWf c.printer reply now (record { state = s; world = c.world })
            (h reply.task_id s e).wf)
          (ap (λ p. p.1)
            ((route_reply-KeepsStart c.printer reply now).at
              (record { state = s; world = c.world }))))
]
  where
    written :
        {A : Type 0} (s : TaskState)
        → lookup reply.task_id c.tasks ≡ some s
        → (x : Result A × Run) → Returns (KeepsWf s) x
        → x.1.state.task ≡ s.task
        → Returns (λ _. AllTaskOk) (on_task reply.task_id s (λ _. x) c)
    written s e (ok a, r) w q =
        let before = h reply.task_id s e in
        insert-AllTaskOk reply.task_id r.state c (on_task reply.task_id s (λ _. (ok a, r)) c).1
          (ground arith) (record { wf = w.0; built = built-same s r.state w.1 q before.built }) h
    written s e (raise error, r) w q = w

route_all-AllTaskOk :
    (replies : List Message) (now : ℕ) (c : Coordinator)
    → AllTaskOk c
    → Returns (λ _. AllTaskOk) (route_all replies now c)
unfolding route_all
route_all-AllTaskOk [] now c h = h
route_all-AllTaskOk (reply ∷ replies) now c h =
    Returns-and_then (λ _. AllTaskOk) _ (route_one reply now c) (route_one-AllTaskOk reply now c h)
      λ job d g.
        Returns-and_then (λ _. AllTaskOk) _ (route_all replies now d)
          (route_all-AllTaskOk replies now d g) (λ _ _ k. k)

except-tasks :
    (ts : Dict String TaskState) (handler : Action Coordinator (Unit {0}))
    (x : Result (Unit {0}) × Coordinator)
    → x.1.tasks ≡ ts
    → ((d : Coordinator) → Returns (λ _ e. e.tasks ≡ d.tasks) (handler d))
    → Returns (λ _ d. d.tasks ≡ ts) (except_with handler x)
unfolding except_with
except-tasks ts handler (ok a, d) h k = h
except-tasks ts handler (raise e, d) h k = rw (← h) (k d)

-- The store calls of a tick's end never raise out of it, and leave the table alone.
persist_result-tasks :
    (tries : ℕ) (job : PersistJob) (c : Coordinator)
    → Returns (λ _ d. d.tasks ≡ c.tasks) (persist_result tries job c)
unfolding persist_result try_except call_out
persist_result-tasks zero job c = refl
persist_result-tasks (suc tries) job c =
    except-tasks c.tasks (persist_result tries job)
      (call_out (result_saved job.task_id job.operation job.content) c) refl
      (persist_result-tasks tries job)

pub persist_all-tasks :
    (jobs : List PersistJob) (c : Coordinator)
    → Returns (λ _ d. d.tasks ≡ c.tasks) (persist_all jobs c)
unfolding persist_all
persist_all-tasks [] c = refl
persist_all-tasks (job ∷ jobs) c =
    Returns-and_then (λ _ d. d.tasks ≡ c.tasks) _ (persist_result persist_retries job c)
      (persist_result-tasks persist_retries job c) λ _ d e. rw (← e) (persist_all-tasks jobs d)

and_then-tasks :
    {A B : Type 0} (ts : Dict String TaskState) (f : A → Action Coordinator B)
    (x : Result A × Coordinator)
    → x.1.tasks ≡ ts
    → ((a : A) (d : Coordinator) → d.tasks ≡ ts → (f a d).1.tasks ≡ ts)
    → (and_then x.0 f x.1).1.tasks ≡ ts
and_then-tasks ts f (ok a, d) h k = k a d h
and_then-tasks ts f (raise e, d) h k = h

pub collect-tasks :
    (entries : List (String × Message)) (c : Coordinator) → (collect entries c).1.tasks ≡ c.tasks
unfolding collect call_out
collect-tasks [] c = refl
collect-tasks ((entry_id, reply) ∷ entries) c =
    and_then-tasks c.tasks _ (call_out (acked entry_id) c) refl λ _ d e.
      let seen = accept d.idempotency reply.message_id in
      let d' = record d { idempotency = seen.0 } in
      and_then-tasks c.tasks _ (collect entries d') (collect-tasks entries d' ∙ e) (λ _ _ h. h)

-- What a tick leaves: if it returns, every task of the table is live; if it raises, it is with the
-- error and in the state that the reading of the inbox alone ends with, and the table is as it was.
unfoldable pub Ticked :
    List (String × Message) → ℕ → Coordinator → Result (Unit {0}) × Coordinator → Type 0
unfolding collect
Ticked entries now c (ok _, d) = AllLive now d
Ticked entries now c (raise e, d) = (collect entries c ≡ (raise e, d)) × (d.tasks ≡ c.tasks)

Ticked-and_then :
    {A : Type 0} (P : Coordinator → Type 0) (entries : List (String × Message)) (now : ℕ)
    (c : Coordinator) (f : A → Action Coordinator (Unit {0})) (x : Result A × Coordinator)
    → Returns (λ _. P) x
    → ((a : A) (d : Coordinator) → P d → Ticked entries now c (f a d))
    → Ticked entries now c (and_then x.0 f x.1)
Ticked-and_then P entries now c f (ok a, d) h k = k a d h
Ticked-and_then P entries now c f (raise e, d) h k = absurd h

Ticked-persist :
    (entries : List (String × Message)) (now : ℕ) (c d : Coordinator) (jobs : List PersistJob)
    → AllLive now d
    → Ticked entries now c (persist_all jobs d)
unfolding Ticked AllLive
Ticked-persist entries now c d jobs h = kept (persist_all jobs d) (persist_all-tasks jobs d)
  where
    kept :
        (x : Result (Unit {0}) × Coordinator)
        → Returns (λ _ e. e.tasks ≡ d.tasks) x
        → Ticked entries now c x
    kept (ok a, e) p = λ k s found. h k s (rw (← p) found)
    kept (raise error, e) p = absurd p

-- A tick on a table of well-formed tasks raises only where reading the inbox alone raises, with that
-- error, in the state that the reading ended in and with the table as it was. Else it returns, and every task that is left in the table is well-formed and has a deadline or
-- a retry of its own still to come, whatever the replies are and whatever calls of the bus, the store
-- and the validators fail on the way.
pub tick-Ticked :
    (entries : List (String × Message)) (now : ℕ) (c : Coordinator)
    → AllTaskOk c
    → Ticked entries now c (tick entries now c)
unfolding tick Ticked AllTaskOk
tick-Ticked entries now c h = read (collect entries c) refl (collect-tasks entries c)
  where
    read :
        (x : Result (List Message) × Coordinator)
        → collect entries c ≡ x
        → x.1.tasks ≡ c.tasks
        → Ticked entries now c (
            and_then x.0
              (λ replies. route_all replies now >>= λ jobs. drive_tasks now >> persist_all jobs)
              x.1)
    read (raise e, d) q p = (q, p)
    read (ok replies, d) q p =
        Ticked-and_then AllTaskOk entries now c _ (route_all replies now d)
          (route_all-AllTaskOk replies now d (λ k s found. h k s (rw (← p) found)))
          λ jobs d' g.
            Ticked-and_then (AllLive now) entries now c _ (drive_tasks now d')
              (drive_tasks-AllLive now d' g)
              λ _ d'' live. Ticked-persist entries now c d'' jobs live
