-- ===== src/Coordinator/Rounds.antt =====
-- The `while` loop of `_advance` ends, and leaves nothing to do at its clock reading
-- (agents/coordinator.py).
use mas_research.Base.{
  ◌∙◌, ℕ, zero, suc, ◌<◌, String, Bool, true, false, ◌||◌, ◌≡◌, refl, some, List, [], ◌∷◌, arith,
  string_key, string_dec,
}
use mathlib.Core.Path.{subst}
use mas_research.Base.Dict.{Dict, lookup, keys}
use mathlib.Core.List.{Memᴰ}
use mas_research.Plan.{Subtask, Plan}
use mas_research.Coordinator.State.{TaskState}
use mas_research.Coordinator.Effects.{Run, Result, Action, ok}
use mas_research.Coordinator.Handlers.{Config}
use mas_research.Coordinator.Advance.{
  visit_subtask, visit_deadline, visit_retry, for_changed, dispatch_ready, expire_timeouts,
  republish_due, advance_round, advance_loop, advance_fuel, advance,
}
use mas_research.Coordinator.Invariant.{IsWf, KeepsResults, KeepsResults-trans, KeepsResults-same}
use mas_research.Coordinator.Measure.{measure-lt-advance_fuel, measure}
use mas_research.Coordinator.Progress.{Ensures, Ensures-and_then, Ensures-mono}
use mas_research.Coordinator.Visits.{
  Progress, Moved, NotReady, NotPast, NotDue, visit_subtask-Moved, visit_deadline-Moved,
  visit_retry-Moved,
}

Progress-trans :
    {now : ℕ} {s t u : TaskState} → Progress now s t 1 → Progress now t u 1 → Progress now s u 1
Progress-trans {now} {s} {t} {u} p q = record {
  wf = q.wf;
  same_plan = ground arith;
  falls = omega (arith, p.falls, q.falls);
  keeps = KeepsResults-trans s t u p.keeps q.keeps;
}

module _ (now : ℕ) (r r' : Run) (I : Type 0) where
  Moved-IsWf : (a : Bool) → IsWf r.state → Moved now r I a r' → IsWf r'.state
  Moved-IsWf true w p = p.wf
  Moved-IsWf false w p = rw p.0 w

  Moved-same_plan : (a : Bool) → Moved now r I a r' → r'.state.plan ≡ r.state.plan
  Moved-same_plan true p = p.same_plan
  Moved-same_plan false p = rw p.0 refl

  Moved-mono : (J : Type 0) (a : Bool) → (I → J) → Moved now r I a r' → Moved now r J a r'
  Moved-mono J true f p = p
  Moved-mono J false f p = (p.0, f p.1)

  -- Two stages in a row, the second from where the first has left the task.
  Moved-both :
      (r'' : Run) (J : Run → Type 0) (a b : Bool)
      → Moved now r I a r'
      → Moved now r' (J r') b r''
      → Moved now r (I × J r) (a || b) r''
  Moved-both r'' J true true p q = Progress-trans p q
  Moved-both r'' J true false p q = rw q.0 p
  Moved-both r'' J false true p q = rw (← p.0) q
  Moved-both r'' J false false p q = (q.0 ∙ p.0, (p.1, subst J p.0 q.1))

module _ {X : Type 0} (visit : X → Action Run Bool) (now : ℕ) (Pre : Plan → X → Type 0)
    (Idle : TaskState → X → Type 0)
    (visit-Moved : (x : X) (r : Run)
      → IsWf r.state
      → Pre r.state.plan x
      → Ensures (Moved now r (Idle r.state x)) (visit x r)) where
  AllIdle : List X → Run → Type 0
  AllIdle xs r = (x : X) → Memᴰ x xs → Idle r.state x

  AllIdle-cons :
      (x : X) (xs : List X) (r : Run) → Idle r.state x × AllIdle xs r → AllIdle (x ∷ xs) r
  unfolding AllIdle
  AllIdle-cons x xs r h y (Memᴰ.head e) = rw e h.0
  AllIdle-cons x xs r h y (Memᴰ.tail m) = h.1 y m

  for_changed-Moved :
      (xs : List X) (r : Run)
      → IsWf r.state
      → ((x : X) → Memᴰ x xs → Pre r.state.plan x)
      → Ensures (Moved now r (AllIdle xs r)) (for_changed visit xs r)
  unfolding for_changed AllIdle
  for_changed-Moved [] r w pre = (refl, λ x m. elim m [ ])
  for_changed-Moved (x ∷ xs) r w pre =
      Ensures-and_then (Moved now r (AllIdle (x ∷ xs) r)) _ (visit x r)
        (visit-Moved x r w (pre x (Memᴰ.head refl)))
        λ a r' p.
          Ensures-and_then (Moved now r (AllIdle (x ∷ xs) r)) _ (for_changed visit xs r')
            (for_changed-Moved xs r' (Moved-IsWf now r r' _ a w p)
              λ y m. rw (Moved-same_plan now r r' _ a p) (pre y (Memᴰ.tail m)))
            λ b r'' q.
              Moved-mono now r r'' _ (AllIdle (x ∷ xs) r) (a || b) (AllIdle-cons x xs r)
                (Moved-both now r r' _ r'' (AllIdle xs) a b p q)

pub lookup-keys :
    {V : Type 0} (k : String) (t : V) (d : Dict String V) → lookup k d ≡ some t → Memᴰ k (keys d)
unfolding lookup
lookup-keys k t [] e = absurd (cc e)
lookup-keys k t ((j, v) ∷ d) e = elim (string_dec k j) [
  | yes p ↦ Memᴰ.head p
  | no p ↦ Memᴰ.tail (lookup-keys k t d (ground arith))
]

-- Nothing is left to do at `now`: no subtask is ready to start, no deadline has passed and no retry
-- is due.
pub record IsQuiet (now : ℕ) (s : TaskState) : Type 0 where
  pub none_ready : (x : Subtask) → Memᴰ x s.plan.subtasks → NotReady s x
  pub none_past : (k : String) → NotPast now s k
  pub none_due : (k : String) → NotDue now s k

module _ (config : Config) (now : ℕ) where
  dispatch_ready-Moved :
      (r : Run)
      → IsWf r.state
      → Ensures
          (Moved now r ((x : Subtask) → Memᴰ x r.state.plan.subtasks → NotReady r.state x))
          (dispatch_ready config now r.state.plan.subtasks r)
  unfolding dispatch_ready AllIdle
  dispatch_ready-Moved r w =
      for_changed-Moved (λ x. visit_subtask config x now) now (λ p x. Memᴰ x p.subtasks) NotReady
        (visit_subtask-Moved config now) r.state.plan.subtasks r w (λ x m. m)

  expire_timeouts-Moved :
      (r : Run)
      → IsWf r.state
      → Ensures (Moved now r ((k : String) → NotPast now r.state k)) (expire_timeouts now r)
  unfolding expire_timeouts AllIdle
  expire_timeouts-Moved r w =
      Ensures-mono (for_changed (visit_deadline now) (keys r.state.deadlines) r)
        (for_changed-Moved (visit_deadline now) now (λ p k. Unit) (NotPast now)
          (λ k q v _. visit_deadline-Moved now k q v) (keys r.state.deadlines) r w (λ k m. tt))
        λ a r' p.
          Moved-mono now r r' _ _ a (λ idle k t e. idle k (lookup-keys k t r.state.deadlines e) t e)
            p

  republish_due-Moved :
      (r : Run)
      → IsWf r.state
      → Ensures (Moved now r ((k : String) → NotDue now r.state k)) (republish_due config now r)
  unfolding republish_due AllIdle
  republish_due-Moved r w =
      Ensures-mono (for_changed (visit_retry config now) (keys r.state.retry_at) r)
        (for_changed-Moved (visit_retry config now) now (λ p k. Unit) (NotDue now)
          (λ k q v _. visit_retry-Moved config now k q v) (keys r.state.retry_at) r w (λ k m. tt))
        λ a r' p.
          Moved-mono now r r' _ _ a (λ idle k t e. idle k (lookup-keys k t r.state.retry_at e) t e)
            p

  advance_round-Moved :
      (r : Run)
      → IsWf r.state
      → Ensures (Moved now r (IsQuiet now r.state)) (advance_round config now r)
  unfolding advance_round
  advance_round-Moved r w =
      Ensures-and_then Quiets _ (dispatch_ready config now r.state.plan.subtasks r)
        (dispatch_ready-Moved r w)
        λ a r₁ p.
          let w₁ = Moved-IsWf now r r₁ _ a w p in
          Ensures-and_then Quiets _ (expire_timeouts now r₁) (expire_timeouts-Moved r₁ w₁) λ b r₂ q.
            Ensures-and_then Quiets _ (republish_due config now r₂)
              (republish_due-Moved r₂ (Moved-IsWf now r₁ r₂ _ b w₁ q))
              λ c r₃ u.
                Moved-mono now r r₃ _ (IsQuiet now r.state) (a || (b || c))
                  (λ h. record { none_ready = h.0; none_past = h.1.0; none_due = h.1.1 })
                  (Moved-both now r r₁ _ r₃
                    (λ v.
                      ((k : String) → NotPast now v.state k)
                      × ((k : String) → NotDue now v.state k))
                    a (b || c) p
                    (Moved-both now r₁ r₂ _ r₃ (λ v. (k : String) → NotDue now v.state k) b c q u))
    where
      Quiets : Bool → Run → Type 0
      Quiets = Moved now r (IsQuiet now r.state)

  -- Where the loop ends: the invariant, the plan, nothing left to do, and the results from before.
  abbrev pub Settled : Run → Unit {0} → Run → Type 0
  Settled r _ r' =
      IsWf r'.state
      × (r'.state.plan ≡ r.state.plan)
      × IsQuiet now r'.state
      × KeepsResults r.state r'.state

  Settled-next :
      (r r' r'' : Run) → Progress now r.state r'.state 1 → Settled r' tt r'' → Settled r tt r''
  Settled-next r r' r'' p h =
      (h.0, h.1 ∙ p.same_plan, h.2, KeepsResults-trans r.state r'.state r''.state p.keeps h.3)

  advance_loop-Settled :
      (fuel : ℕ) (r : Run)
      → IsWf r.state
      → measure now r.state < fuel
      → Ensures (Settled r) (advance_loop config now fuel r)
  unfolding advance_loop
  advance_loop-Settled zero r w h = elim h [ ]
  advance_loop-Settled (suc fuel) r w h =
      Ensures-and_then (Settled r) _ (advance_round config now r) (advance_round-Moved r w)
        λ a r'. next a r' (advance_loop-Settled fuel r')
    where
      next :
          (a : Bool) (r' : Run)
          → (IsWf r'.state
              → measure now r'.state < fuel
              → Ensures (Settled r') (advance_loop config now fuel r'))
          → Moved now r (IsQuiet now r.state) a r'
          → Ensures (Settled r) (elim a as (λ _. Result (Unit {0}) × Run) [
            | true ↦ advance_loop config now fuel r'
            | false ↦ (ok tt, r')
          ])
      next true r' ih p =
          Ensures-mono (advance_loop config now fuel r') (ih p.wf (omega (arith, p.falls)))
            λ _ r'' q. Settled-next r r' r'' p q
      next false r' ih p =
          (rw p.0 w, rw p.0 refl, rw p.0 p.1, KeepsResults-same r.state r'.state (rw p.0 refl))

  -- `_advance` ends: from a well-formed state it never runs out of rounds, and where it returns, the
  -- state is well-formed, the plan is the same, no subtask is left that is ready to start, no
  -- deadline has passed and no retry is due, and no result is lost or replaced.
  pub advance-Settled : (r : Run) → IsWf r.state → Ensures (Settled r) (advance config now r)
  unfolding advance
  advance-Settled r w =
      advance_loop-Settled (advance_fuel r.state) r w (measure-lt-advance_fuel now r.state)
