-- ===== src/Coordinator/Effects.antt =====
-- What the handlers do outside of their state: calls of the bus and the store, which may raise, and
-- metrics. A handler is a function from a state to a result and a state; the state outlives a raise.
use mas_research.Base.{ℕ, ◌+◌, String, Bool, true, false, Option, none, some, List, ◌∷◌}
use mas_research.Schemas.{Operation, TaskStatus, ResultArtifact}
use mas_research.Plan.{Subtask, plan_get}
use mas_research.Values.{Fields}
use mas_research.Core.Messages.{Message, Draft, make_message}
use mas_research.Coordinator.State.{TaskState}

-- `out_of_fuel` is the model's own, for the `while` loop of `_advance`, and is proved never to occur.
pub data Error : Type 0 where
  key_error validation_error external_error out_of_fuel : Error

pub data Result {ℓ} (A : Type ℓ) : Type ℓ where
  ok : A → Result A
  raise : Error → Result A

-- core/metrics.py: the counters, gauge and histograms that the Coordinator feeds.
pub data Metric : Type 0 where
  retries_total : Operation → Metric
  subtask_outcome : Operation → String → Metric
  subtask_duration : Operation → ℕ → Metric
  task_duration : TaskStatus → ℕ → Metric
  tasks_total : TaskStatus → Metric
  inflight_inc inflight_dec recovered_total : Metric

pub data Event : Type 0 where
  sent : String → Message → Event
  acked : String → Event
  status_set : String → TaskStatus → Event
  artifact_saved : String → ResultArtifact → Event
  result_saved : String → Operation → Fields → Event
  metric : Metric → Event

-- `hex n` and `utc n` are what the n-th message gets from uuid4 and the wall clock, and `fails n`
-- says whether the n-th call of the bus or the store raises. The log has the newest event in front.
pub record World : Type 0 where
  pub hex : ℕ → String
  pub utc : ℕ → String
  pub made : ℕ
  pub fails : ℕ → Bool
  pub calls : ℕ
  pub log : List Event

-- A task that a handler works on, in its world.
pub record Run : Type 0 where
  pub state : TaskState
  pub world : World

abbrev pub Action : Type 0 → Type 0 → Type 0
Action S A = S → Result A × S

module _ {S A : Type 0} where
  abbrev pub pure : A → Action S A
  pure a s = (ok a, s)

  abbrev pub throw : Error → Action S A
  throw e s = (raise e, s)

  abbrev pub or_throw : Option A → Error → Action S A
  or_throw none e s = (raise e, s)
  or_throw (some a) e s = (ok a, s)

module _ {S A B : Type 0} where
  abbrev pub and_then : Result A → (A → Action S B) → Action S B
  and_then (ok a) f = f a
  and_then (raise e) f = throw e

  infixl 5 ◌>>=◌ ◌>>◌
  abbrev pub ◌>>=◌ : Action S A → (A → Action S B) → Action S B
  ◌>>=◌ m f s = let (r, s') = m s in and_then r f s'

  abbrev pub ◌>>◌ : Action S A → Action S B → Action S B
  m >> k = m >>= λ _. k

abbrev pub state : Action Run TaskState
state r = (ok r.state, r)

abbrev pub modify : (TaskState → TaskState) → Action Run (Unit {0})
modify f r = (ok tt, record r { state = f r.state })

abbrev pub log_metric : Metric → World → World
log_metric m w = record w { log = metric m ∷ w.log }

abbrev pub observe : Metric → Action Run (Unit {0})
observe m r = (ok tt, record r { world = log_metric m r.world })

-- A call of the bus or the store: it raises, or it takes effect.
abbrev pub called : Event → World → World
called e w = record w { calls = w.calls + 1; log = e ∷ w.log }

abbrev pub refused : World → World
refused w = record w { calls = w.calls + 1 }

unfoldable pub call_world : Event → Action World (Unit {0})
call_world e w = elim (w.fails w.calls) [
  | true ↦ (raise external_error, refused w)
  | false ↦ (ok tt, called e w)
]

unfoldable pub call : Event → Action Run (Unit {0})
unfolding call_world
call e r = let (a, w) = call_world e r.world in (a, record r { world = w })

unfoldable pub new_message : Draft → Action Run Message
new_message d r = (
  ok (make_message (r.world.hex r.world.made) (r.world.utc r.world.made) d),
  record r { world = record (r.world) { made = r.world.made + 1 } },
)

-- `state.plan.get(subtask_id)`
abbrev pub planned : String → Action Run Subtask
planned subtask_id r = or_throw (plan_get r.state.plan subtask_id) key_error r
