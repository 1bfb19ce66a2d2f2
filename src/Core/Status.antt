-- ===== src/Core/Status.antt =====
-- The final status of a task (core/status_fsm.py).
use mas_research.Base.{
  String, not, Option, none, is_some, or_else, any, is_empty, string_key, if◌then◌else◌,
}
use mas_research.Base.Dict.{Dict, lookup}
use mas_research.Schemas.{TaskStatus, completed, failed, partial_ready}
use mas_research.Plan.{Plan}
use mas_research.Values.{Fields}

-- `dict[str, object | None]`: `none` stands for a failed subtask.
abbrev pub Results : Type 0
Results = Dict String (Option Fields)

-- `results.get(id)`: a missing id and a failed subtask both give None.
unfoldable pub result_of : Results → String → Option Fields
result_of results id = or_else (lookup id results) none

unfoldable pub determine_final_status : Plan → Results → TaskStatus
determine_final_status plan results =
    if is_empty plan.subtasks
    then completed
    else if not (any (λ s. is_some (result_of results s.id)) plan.subtasks)
    then failed
    else if any (λ s. not (is_some (result_of results s.id))) plan.subtasks
    then partial_ready
    else completed
