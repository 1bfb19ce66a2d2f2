-- ===== src/Coordinator/Reach.antt =====
-- The Coordinator as a state machine: every state that it reaches (agents/coordinator.py, `submit`,
-- `_recover` and `_tick`, which its lock keeps apart).
use mas_research.Base.{ap, ap, ℕ, String, ◌≡◌, List, [], string_key}
use mas_research.Base.Dict.{lookup}
use mas_research.Schemas.{Task}
use mas_research.Core.Messages.{Message}
use mas_research.Coordinator.Effects.{Result, ok, raise}
use mas_research.Coordinator.Loop.{Coordinator, RecoveredTask, submit, recover}
use mas_research.Coordinator.Tick.{tick}
use mas_research.Coordinator.Sweep.{AllTaskOk, AllLive}
use mas_research.Coordinator.Ticks.{Ticked, tick-Ticked}
use mas_research.Coordinator.Entering.{submit-AllTaskOk, recover-AllTaskOk}

-- One call of the loop, whether it returns or raises, at any clock reading and with any inbox.
pub data Step (c d : Coordinator) : Type 0 where
  submits : (task : Task) (now : ℕ) → d ≡ (submit task now c).1 → Step c d
  recovers : (items : List RecoveredTask) (now : ℕ) → d ≡ (recover items now c).1 → Step c d
  ticks : (entries : List (String × Message)) (now : ℕ) → d ≡ (tick entries now c).1 → Step c d

-- The states that the loop comes to from a start with an empty table.
pub data Reach : Coordinator → Type 0 where
  start : {c : Coordinator} → c.tasks ≡ [] → Reach c
  next : {c d : Coordinator} → Reach c → Step c d → Reach d

pub Ticked-AllTaskOk :
    (entries : List (String × Message)) (now : ℕ) (c : Coordinator)
    (x : Result (Unit {0}) × Coordinator)
    → AllTaskOk c
    → Ticked entries now c x
    → AllTaskOk x.1
unfolding Ticked AllTaskOk AllLive
Ticked-AllTaskOk entries now c (ok a, d) h live k s found = (live k s found).task_ok
Ticked-AllTaskOk entries now c (raise e, d) h (_, same_tasks) k s found =
    h k s (rw (← same_tasks) found)

Step-AllTaskOk : (c d : Coordinator) → Step c d → AllTaskOk c → AllTaskOk d
Step-AllTaskOk c d (submits task now e) h = rw e (submit-AllTaskOk task now c h)
Step-AllTaskOk c d (recovers items now e) h = rw e (recover-AllTaskOk items now c h)
Step-AllTaskOk c d (ticks entries now e) h =
    rw e (Ticked-AllTaskOk entries now c (tick entries now c) h (tick-Ticked entries now c h))

-- In every state that the loop reaches from an empty table, by submissions, recoveries and ticks in
-- any order, at any clock readings, returning or raising, every entry of the table is well-formed over
-- the plan that `build_plan` makes of the entry's task.
pub Reach-AllTaskOk : {c : Coordinator} → Reach c → AllTaskOk c
unfolding AllTaskOk lookup
Reach-AllTaskOk {c} (start e) = λ k s found. absurd (cc (found, ap (lookup k) e))
Reach-AllTaskOk (next {c} {d} r st) = Step-AllTaskOk c d st (Reach-AllTaskOk r)
