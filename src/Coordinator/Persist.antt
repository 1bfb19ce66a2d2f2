-- ===== src/Coordinator/Persist.antt =====
-- Persisting one result (agents/coordinator.py, `_persist_result`).
use mas_research.Base.{◌∙◌, ℕ, zero, suc, ◌+◌, ◌≤◌, ◌≡◌, refl, arith, Bool-cases, inl, inr}
use mas_research.Coordinator.Effects.{
  Event, World, Action, Result, ok, raise, call_world, result_saved,
}
use mas_research.Coordinator.Reply.{PersistJob}
use mas_research.Coordinator.Loop.{Coordinator, call_out}
use mas_research.Coordinator.Tick.{except_with, try_except, persist_result}
use mas_research.Coordinator.Routing.{Returns, Returns-mono}

call_world-calls : (e : Event) (w : World) → (call_world e w).1.calls ≡ w.calls + 1
unfolding call_world
call_world-calls e w = elim (Bool-cases (w.fails w.calls)) [
  | inl f ↦ rw (f, call_world) refl
  | inr f ↦ rw (f, call_world) refl
]

-- The table is that of `c`, and at most `n` calls were made since.
Within : Coordinator → ℕ → Coordinator → Type 0
Within c n d = (d.tasks ≡ c.tasks) × (d.world.calls ≤ c.world.calls + n)

except-Within :
    (c : Coordinator) (tries : ℕ) (handler : Action Coordinator (Unit {0}))
    (x : Result (Unit {0}) × Coordinator)
    → Within c 1 x.1
    → ((d : Coordinator) → Returns (λ _. Within d tries) (handler d))
    → Returns (λ _. Within c (suc tries)) (except_with handler x)
unfolding except_with Within
except-Within c tries handler (ok a, d) h k = (h.0, omega (arith, h.1))
except-Within c tries handler (raise e, d) h k =
    Returns-mono (handler d) (k d) (λ _ d' g. (g.0 ∙ h.0, omega (arith, g.1, h.1)))

-- Persisting a result always returns, with the table of tasks as it was and after at most as many calls
-- of the store as there are tries, whichever of the calls raise.
pub persist_result-calls :
    (tries : ℕ) (job : PersistJob) (c : Coordinator)
    → Returns
        (λ _ d. (d.tasks ≡ c.tasks) × (d.world.calls ≤ c.world.calls + tries))
        (persist_result tries job c)
unfolding persist_result try_except call_out Within
persist_result-calls zero job c = (refl, omega arith)
persist_result-calls (suc tries) job c =
    except-Within c tries (persist_result tries job)
      (call_out (result_saved job.task_id job.operation job.content) c)
      (
        refl,
        omega
            (arith, call_world-calls (result_saved job.task_id job.operation job.content) c.world),
      )
      (persist_result-calls tries job)
