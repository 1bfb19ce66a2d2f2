-- ===== src/Coordinator/Sweep.antt =====
-- A sweep over the whole table of tasks (agents/coordinator.py, `_tick`).
use mas_research.Base.{
  [], ◌∙◌, string_dec, ◌∷◌, string_key, inr, ◌⊎◌, inl, List, Option-cases, Bool-cases, ℕ, String,
  ◌≡◌, sym, refl, some,
}
use mas_research.Base.Dict.{keys, has, lookup}
use mas_research.Coordinator.Rounds.{lookup-keys}
use mas_research.Schemas.{failed}
use mathlib.Core.Path.{subst}
use mathlib.Core.List.{Memᴰ}
use mas_research.Coordinator.State.{TaskState}
use mas_research.Coordinator.Effects.{Result, ok, raise, Action, status_set}
use mas_research.Coordinator.Loop.{Coordinator, call_out, remove_task}
use mas_research.Coordinator.Tick.{
  except_with, try_except, abandon, drive_one, drive_all, drive_tasks,
}
use mas_research.Coordinator.Routing.{Returns, Returns-mono}
use mas_research.Coordinator.Table.{IsFramed, drive_one-IsFramed}
use mas_research.Coordinator.Tracking.{IsTaskOk, IsLive, LiveAt, OnReturn, drive_one-LiveAt}

except-returns :
    (handler : Action Coordinator (Unit {0})) (x : Result (Unit {0}) × Coordinator)
    → ((d : Coordinator) → (handler d).0 ≡ ok tt)
    → (except_with handler x).0 ≡ ok tt
unfolding except_with
except-returns handler (ok a, c) h = refl
except-returns handler (raise e, c) h = h c

abandon-returns : (k : String) (c : Coordinator) → (abandon k c).0 ≡ ok tt
unfolding abandon try_except remove_task
abandon-returns k c = elim (Bool-cases (has k c.tasks)) [
  | inl e ↦ rw e (except-returns _ (call_out (status_set k failed) (remove_task k c).1) (λ _. refl))
  | inr e ↦ rw e (except-returns _ (call_out (status_set k failed) c) (λ _. refl))
]

drive_one-returns : (k : String) (now : ℕ) (c : Coordinator) → (drive_one k now c).0 ≡ ok tt
unfolding drive_one try_except
drive_one-returns k now c = elim (Option-cases (lookup k c.tasks)) [
  | inl gone ↦ rw (gone, drive_one) refl
  | inr (s, e) ↦ rw (e, drive_one) (except-returns (abandon k) _ (abandon-returns k))
]

OnReturn-Returns :
    (P : Coordinator → Type 0) (x : Result (Unit {0}) × Coordinator)
    → x.0 ≡ ok tt
    → OnReturn P x
    → P x.1
OnReturn-Returns P (ok a, c) e h = h
OnReturn-Returns P (raise error, c) e h = absurd (cc e)

-- Every entry of the table is a well-formed state over its task's plan.
unfoldable pub AllTaskOk : Coordinator → Type 0
AllTaskOk c = (k : String) (s : TaskState) → lookup k c.tasks ≡ some s → IsTaskOk s

-- Every entry of the table is well-formed and has a timer running.
unfoldable pub AllLive : ℕ → Coordinator → Type 0
AllLive now c = (k : String) (s : TaskState) → lookup k c.tasks ≡ some s → IsLive now s

at_id :
    {s : TaskState} (k id : String) (c : Coordinator)
    → k ≡ id
    → lookup k c.tasks ≡ some s
    → lookup id c.tasks ≡ some s
at_id {s} k id c p e = subst (λ j. lookup j c.tasks ≡ some s) p e

-- A tick's sweep for a property `P` of the entries: each call of `drive_one` keeps an invariant `I`
-- of the table and gives `P` to the entry it is for, and leaves the other entries as they are.
module _ (now : ℕ) (I : Coordinator → Type 0) (P : TaskState → Type 0)
    (step : (id : String) (c : Coordinator)
      → I c
      → I (drive_one id now c).1
        × ((s : TaskState) → lookup id (drive_one id now c).1.tasks ≡ some s → P s)) where
  abbrev EntryIs : String → Coordinator → Type 0
  EntryIs k c = (s : TaskState) → lookup k c.tasks ≡ some s → P s

  -- Where the tasks still to visit are `ids`.
  record Sweeping (ids : List String) (c : Coordinator) : Type 0 where
    inv : I c
    visited : (k : String) → Memᴰ k ids ⊎ EntryIs k c

  drive_one-Sweeping :
      (id : String) (ids : List String) (c : Coordinator)
      → Sweeping (id ∷ ids) c
      → Sweeping ids (drive_one id now c).1
  unfolding IsFramed
  drive_one-Sweeping id ids c w = record {
    inv = (step id c w.inv).0;
    visited = λ k. elim (string_dec k id) [
      | yes p ↦ inr (λ s e. (step id c w.inv).1 s (at_id k id (drive_one id now c).1 p e))
      | no ne ↦ elim (w.visited k) [
        | inl (Memᴰ.head p) ↦ absurd (ne p)
        | inl (Memᴰ.tail m) ↦ inl m
        | inr entry ↦ inr (λ s e. entry s (sym (drive_one-IsFramed id now c k ne) ∙ e))
      ]
    ];
  }

  drive_all-Sweeping :
      (ids : List String) (c : Coordinator)
      → Sweeping ids c
      → Returns (λ _. Sweeping []) (drive_all ids now c)
  unfolding drive_all
  drive_all-Sweeping [] c w = w
  drive_all-Sweeping (id ∷ ids) c w =
      rw (drive_one-returns id now c)
        (drive_all-Sweeping ids (drive_one id now c).1 (drive_one-Sweeping id ids c w))

  pub drive_tasks-sweep :
      (c : Coordinator)
      → I c
      → Returns
          (λ _ d. I d × ((k : String) (s : TaskState) → lookup k d.tasks ≡ some s → P s))
          (drive_tasks now c)
  unfolding drive_tasks
  drive_tasks-sweep c h =
      Returns-mono (drive_tasks now c)
        (drive_all-Sweeping (keys c.tasks) c (record {
          inv = h;
          visited = λ k. elim (Option-cases (lookup k c.tasks)) [
            | inl gone ↦ inr (λ s e. absurd (cc (gone, e)))
            | inr (s, e) ↦ inl (lookup-keys k s c.tasks e)
          ];
        }))
        λ _ d w. (w.inv, λ k. elim (w.visited k) [ inl m ↦ elim m [ ] | inr entry ↦ entry ])

pub drive_one-AllTaskOk :
    (now : ℕ) (id : String) (c : Coordinator)
    → AllTaskOk c
    → AllTaskOk (drive_one id now c).1
      × ((s : TaskState) → lookup id (drive_one id now c).1.tasks ≡ some s → IsLive now s)
unfolding LiveAt AllTaskOk IsFramed
drive_one-AllTaskOk now id c h = (
  λ k s e. elim (string_dec k id) [
    | yes p ↦ (here s (at_id k id (drive_one id now c).1 p e)).task_ok
    | no ne ↦ h k s (sym (drive_one-IsFramed id now c k ne) ∙ e)
  ],
  here,
)
  where
    here : LiveAt id now (drive_one id now c).1
    here =
        OnReturn-Returns (LiveAt id now) (drive_one id now c) (drive_one-returns id now c)
          (drive_one-LiveAt id now c (h id))

-- The sweep of a tick always returns, whatever the bus, the store and the validators raise, and then
-- every task that is left in the table is well-formed and has a deadline or a retry of its own still
-- to come; its condition is that every entry was well-formed over its task's plan before.
pub drive_tasks-AllLive :
    (now : ℕ) (c : Coordinator) → AllTaskOk c → Returns (λ _. AllLive now) (drive_tasks now c)
unfolding AllLive
drive_tasks-AllLive now c h =
    Returns-mono (drive_tasks now c)
      (drive_tasks-sweep now AllTaskOk (IsLive now) (drive_one-AllTaskOk now) c h) (λ _ d w. w.1)
