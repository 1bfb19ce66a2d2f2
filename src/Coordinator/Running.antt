-- ===== src/Coordinator/Running.antt =====
-- The run loop around the tick (agents/coordinator.py, `run`), where the group of the inbox exists and
-- the loop is not cancelled.
use mas_research.Base.{ℕ, String, ◌≡◌, List, [], ◌∷◌}
use mas_research.Core.Messages.{Message}
use mas_research.Coordinator.Effects.{Result, ok, raise, Action, pure, ◌>>◌}
use mas_research.Coordinator.Loop.{Coordinator, RecoveredTask, recover}
use mas_research.Coordinator.Tick.{except_with, try_except, tick}
use mas_research.Coordinator.Routing.{Returns, Returns-and_then}
use mas_research.Coordinator.Sweep.{AllTaskOk}
use mas_research.Coordinator.Ticks.{tick-Ticked}
use mas_research.Coordinator.Entering.{recover-AllTaskOk}
use mas_research.Coordinator.Reach.{Ticked-AllTaskOk}

-- What the inbox gives to each tick, and its clock reading, until the shutdown.
abbrev pub Rounds : Type 0
Rounds = List (List (String × Message) × ℕ)

-- The `while` loop: a tick that raises is logged, and the next one follows.
unfoldable pub run_loop : Rounds → Action Coordinator (Unit {0})
unfolding tick try_except
run_loop [] = pure tt
run_loop ((entries, now) ∷ rounds) =
    try_except (tick entries now) (λ c. pure tt c) >> run_loop rounds

-- `run`, given what `load_in_flight` returned: a raise of the recovery ends it.
unfoldable pub run : List RecoveredTask → ℕ → Rounds → Action Coordinator (Unit {0})
unfolding recover run_loop
run items now rounds = recover items now >> run_loop rounds

caught-AllTaskOk :
    (x : Result (Unit {0}) × Coordinator)
    → AllTaskOk x.1
    → Returns (λ _. AllTaskOk) (except_with (λ c. pure tt c) x)
unfolding except_with
caught-AllTaskOk (ok a, d) h = h
caught-AllTaskOk (raise e, d) h = h

run_loop-AllTaskOk :
    (rounds : Rounds) (c : Coordinator) → AllTaskOk c → Returns (λ _. AllTaskOk) (run_loop rounds c)
unfolding run_loop try_except
run_loop-AllTaskOk [] c h = h
run_loop-AllTaskOk ((entries, now) ∷ rounds) c h =
    Returns-and_then (λ _. AllTaskOk) _ (try_except (tick entries now) (λ d. pure tt d) c)
      (caught-AllTaskOk (tick entries now c)
        (Ticked-AllTaskOk entries now c (tick entries now c) h (tick-Ticked entries now c h)))
      (λ _ d g. run_loop-AllTaskOk rounds d g)

-- Where the recovery returns, the loop runs to its shutdown, however many of its ticks raise, and then
-- every entry of the table is well-formed over the plan that `build_plan` makes of the entry's task, if
-- they were at the start.
pub run-AllTaskOk :
    (items : List RecoveredTask) (now : ℕ) (rounds : Rounds) (c : Coordinator)
    → AllTaskOk c
    → (recover items now c).0 ≡ ok tt
    → Returns (λ _. AllTaskOk) (run items now rounds c)
unfolding run
run-AllTaskOk items now rounds c h returned =
    rw returned
      (run_loop-AllTaskOk rounds (recover items now c).1 (recover-AllTaskOk items now c h))
