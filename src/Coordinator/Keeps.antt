-- ===== src/Coordinator/Keeps.antt =====
-- What an action leaves as it is, whether it returns or raises (agents/coordinator.py).
use mas_research.Base.{◌≡◌, ◌∙◌, refl}
use mas_research.Coordinator.Effects.{Error, Result, ok, raise, Action, pure, throw, and_then}

-- `m` leaves what `f` reads of the state, whether it returns or raises.
pub record Keeps {S X A : Type 0} (f : S → X) (m : Action S A) : Type 0 where
  pub at : (s : S) → f (m s).1 ≡ f s

module _ {S X : Type 0} (f : S → X) where
  pub Keeps-pure : {A : Type 0} (a : A) → Keeps f (pure a)
  Keeps-pure a = record { at = λ s. refl }

  pub Keeps-throw : {A : Type 0} (e : Error) → Keeps f (throw {A = A} e)
  Keeps-throw e = record { at = λ s. refl }

  -- The rest of a block, behind a call that has left `f` at `x`.
  pub and_then-kept :
      {A B : Type 0} (x : X) (g : A → Action S B) (y : Result A × S)
      → f y.1 ≡ x
      → ((a : A) → Keeps f (g a))
      → f (and_then y.0 g y.1).1 ≡ x
  and_then-kept x g (ok a, s) h k = (k a).at s ∙ h
  and_then-kept x g (raise e, s) h k = h
