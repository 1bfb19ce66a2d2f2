-- ===== src/Coordinator/Tests.antt =====
-- The Coordinator's theorems at concrete inputs (agents/coordinator.py).
use mas_research.Base.{◌≡◌, refl, none, [], ◌∷◌, string_key, some, string_dec}
use mas_research.Base.Dict.{lookup}
use mas_research.Plan.{build_plan}
use mas_research.Core.Messages.{performative_key}
use mas_research.Coordinator.Liveness.{HasTimer, pending-HasTimer}
use mas_research.Coordinator.Replies.{Resolved, route_reply-Resolved, route_reply-repeat}
use mas_research.Coordinator.Artifact.{IsConsistent, assemble_artifact-IsConsistent}
use mas_research.Coordinator.Table.{drive_one-keeps_others}
use mas_research.Coordinator.Effects.{ok}
use mas_research.Coordinator.Advance.{advance}
use mas_research.Coordinator.Reply.{route_reply}
use mas_research.Coordinator.Tick.{tick, drive_tasks, drive_one}
use mas_research.Coordinator.Progress.{Ensures}
use mas_research.Coordinator.Start.{submitted-IsWf}
use mas_research.Coordinator.Rounds.{Settled, advance-Settled}
use mas_research.Coordinator.Routing.{Returns, KeepsWf, route_reply-KeepsWf}
use mas_research.Coordinator.Loop.{submit, Coordinator, recover}
use mas_research.Coordinator.Tracking.{OnReturn}
use mas_research.Coordinator.Deadlines.{AllInTime, tick-AllInTime}
use mas_research.Coordinator.Reach.{start, next, submits, ticks, Reach-AllTaskOk}
use mas_research.Coordinator.Running.{run, run-AllTaskOk}
use mas_research.Coordinator.State.{TaskState}
use mas_research.Coordinator.Invariant.{KeepsResults}
use mas_research.Coordinator.Results.{tick-KeepsResults}
use mas_research.Coordinator.Sweep.{AllTaskOk, AllLive, drive_tasks-AllLive}
use mas_research.Coordinator.Ticks.{Ticked, tick-Ticked}
use mas_research.Coordinator.Samples.{
  sample_task, sample_state, sample_config, sample_run, sample_printer, sample_coordinator,
  sample_reply, advance_returns, settled, sample_AllTaskOk, first_round, first_round_plan,
  sample_pending, sample_informs, sample_artifact, sample_assembled, other_task,
}

advance-Settled_example :
    Ensures (Settled sample_config 0 sample_run) (advance sample_config 0 sample_run)
advance-Settled_example =
    advance-Settled sample_config 0 sample_run
      (submitted-IsWf sample_task (build_plan sample_task) 0)

tick-Ticked_example :
    Ticked
      (("1-0", sample_reply) ∷ [])
      1000
      sample_coordinator
      (tick (("1-0", sample_reply) ∷ []) 1000 sample_coordinator)
tick-Ticked_example =
    tick-Ticked (("1-0", sample_reply) ∷ []) 1000 sample_coordinator sample_AllTaskOk

drive_tasks-AllLive_example : Returns (λ _. AllLive 95_000) (drive_tasks 95_000 sample_coordinator)
drive_tasks-AllLive_example = drive_tasks-AllLive 95_000 sample_coordinator sample_AllTaskOk

route_reply-KeepsWf_example :
    Returns (KeepsWf sample_state) (route_reply sample_printer sample_reply 3 sample_run)
route_reply-KeepsWf_example =
    route_reply-KeepsWf sample_printer sample_reply 3 sample_run
      (submitted-IsWf sample_task (build_plan sample_task) 0)

pending-HasTimer_example : HasTimer 0 first_round.state
pending-HasTimer_example =
    pending-HasTimer sample_task 0 first_round.state first_round_plan settled.0 settled.2 "st-t1-F4"
      advance_returns.2

route_reply-Resolved_example :
    Returns
      (Resolved "st-t1-F3" sample_reply)
      (route_reply sample_printer sample_reply 3 sample_run)
route_reply-Resolved_example =
    route_reply-Resolved sample_printer sample_reply 3 sample_run
      (submitted-IsWf sample_task (build_plan sample_task) 0) sample_informs "st-t1-F3" refl
      sample_pending

route_reply-repeat_example :
    Returns
      (λ _ r. route_reply sample_printer sample_reply 9 r ≡ (ok none, r))
      (route_reply sample_printer sample_reply 3 sample_run)
route_reply-repeat_example =
    route_reply-repeat sample_printer sample_reply 3 sample_run
      (submitted-IsWf sample_task (build_plan sample_task) 0) sample_informs 9

drive_one-keeps_others_example :
    lookup "t1" (drive_one "t2" 5 sample_coordinator).1.tasks ≡ lookup "t1" sample_coordinator.tasks
drive_one-keeps_others_example = drive_one-keeps_others "t2" "t1" 5 sample_coordinator other_task

assemble_artifact-IsConsistent_example : IsConsistent sample_state sample_artifact
assemble_artifact-IsConsistent_example =
    assemble_artifact-IsConsistent sample_config.validators sample_state 4 sample_artifact
      sample_assembled

tick-AllInTime_example :
    OnReturn
      (AllInTime sample_config.global_deadline_sec 2_000_000)
      (tick (("1-0", sample_reply) ∷ []) 2_000_000 sample_coordinator)
tick-AllInTime_example = tick-AllInTime (("1-0", sample_reply) ∷ []) 2_000_000 sample_coordinator

abbrev empty_coordinator : Coordinator
empty_coordinator = record sample_coordinator { tasks = [] }

Reach-AllTaskOk_example : AllTaskOk (tick [] 1000 (submit sample_task 5 empty_coordinator).1).1
Reach-AllTaskOk_example = Reach-AllTaskOk (
    next (next (start {c = empty_coordinator} refl) (submits sample_task 5 refl))
      (ticks [] 1000 refl))

run-AllTaskOk_example :
    Returns (λ _. AllTaskOk) (run [] 0 (([], 1000) ∷ ([], 2_000_000) ∷ []) sample_coordinator)
unfolding recover
run-AllTaskOk_example =
    run-AllTaskOk [] 0 (([], 1000) ∷ ([], 2_000_000) ∷ []) sample_coordinator sample_AllTaskOk refl

tick-KeepsResults_example :
    OnReturn
      (λ d. (t : TaskState) → lookup "t1" d.tasks ≡ some t → KeepsResults sample_state t)
      (tick (("1-0", sample_reply) ∷ []) 1000 sample_coordinator)
unfolding lookup string_dec
tick-KeepsResults_example =
    tick-KeepsResults "t1" sample_state 1000 (("1-0", sample_reply) ∷ []) sample_coordinator
      sample_AllTaskOk refl
