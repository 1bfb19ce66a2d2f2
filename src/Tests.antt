-- ===== src/Tests.antt =====
-- The theorems on plans and on the shared parts of core/ at concrete inputs (plan.py, core/).
mod Db
mod Agents
mod Requests
mod Routes
mod Tables
mod Adapters
mod Terms
mod Corpus
mod Main
mod Objects
use mas_research.Base.{
  false, string_key, take, ◌<◌, not, is_some, String, ◌≡◌, refl, some, [], ◌∷◌, ltb,
}
use mas_research.Base.Dict.{contains}
use mathlib.Core.List.{Memᴰ}
use mas_research.Values.{end}
use mas_research.Base.Int.{pos}
use mas_research.Schemas.{
  Operation-discrete, Task, f3_summarize, f4_test, planning, operation_value, operation_of,
  operation_of-operation_value,
}
use mas_research.Plan.{
  subtask_for, eligible_operations, is_eligible, dependencies, dependency_map, operation_to_agent,
  is_required, is_any_join, test_generator, all_of, build_plan, subtask_id_for, Subtask,
}
use mas_research.Plan.Ids.{subtask_id_for_injective}
use mas_research.Plan.Dag.{rank, InPlan, build_plan-depends_on}
use mas_research.Core.Retry.{retry_max, compute_backoff}
use mas_research.Core.Delays.{compute_backoff-defined}
use mas_research.Core.Idempotency.{IdempotentReceiver, init, accept}
use mas_research.Core.Idempotency.History.{after, history, accept-history}

abbrev sample_task : Task
sample_task = record {
  id = "t1";
  user_id = "demo-user";
  status = planning;
  requested_outputs = f4_test ∷ f3_summarize ∷ [];
  conversation_id = "conv-t1";
  documents = [];
}

abbrev small_cache : IdempotentReceiver
small_cache = record { cache_size = 2; seen = [] }

small_cache_made : init (pos 2) ≡ some small_cache
unfolding init
small_cache_made = refl

accept-history_example :
    ((accept (after small_cache ("m3" ∷ "m2" ∷ "m1" ∷ [])) "m1").1
      ≡ not (contains "m1" (take 2 (history ("m3" ∷ "m2" ∷ "m1" ∷ [])))))
    × ((after small_cache ("m3" ∷ "m2" ∷ "m1" ∷ [])).seen
        ≡ take 2 (history ("m3" ∷ "m2" ∷ "m1" ∷ [])))
accept-history_example =
    accept-history (pos 2) small_cache small_cache_made ("m3" ∷ "m2" ∷ "m1" ∷ []) "m1"

abbrev quiz : Subtask
quiz = record {
  id = "st-t1-F4";
  agent = test_generator;
  operation = f4_test;
  payload = end;
  depends_on = "st-t1-F3" ∷ [];
  required = false;
  join = all_of;
}

quiz-InPlan : InPlan sample_task quiz
unfolding build_plan subtask_for eligible_operations is_eligible dependencies dependency_map
    subtask_id_for operation_value Operation-discrete contains operation_to_agent is_required
    is_any_join
quiz-InPlan = Memᴰ.head refl

build_plan-depends_on_example :
    (y : Subtask) × InPlan sample_task y × (y.id ≡ "st-t1-F3") × (rank y.operation < rank f4_test)
build_plan-depends_on_example =
    build_plan-depends_on sample_task quiz "st-t1-F3" quiz-InPlan (Memᴰ.head refl)
