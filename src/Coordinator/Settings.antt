-- ===== src/Coordinator/Settings.antt =====
-- No handler of the loop changes its settings, whatever raises (agents/coordinator.py, `_tick`).
use mas_research.Base.{
  ℕ, ◌-◌, String, ◌≡◌, ◌∙◌, refl, Bool-cases, Option-cases, inl, inr, string_key, ltb, is_empty,
  List, [], ◌∷◌,
}
use mas_research.Base.Dict.{has, lookup}
use mas_research.Coordinator.State.{TaskState}
use mas_research.Coordinator.Effects.{Event, Run, Result, ok, raise, pure, Action, ◌>>◌, acked}
use mas_research.Coordinator.Handlers.{Config}
use mas_research.Coordinator.Advance.{advance}
use mas_research.Coordinator.Reply.{finalize, route_reply}
use mas_research.Coordinator.Loop.{
  Coordinator, current, on_task, call_out, remove_task, finalize_task, maybe_finalize, drive,
}
use mas_research.Core.Messages.{Message}
use mas_research.Core.Idempotency.{accept}
use mas_research.Coordinator.Tick.{
  collect, route_one, route_all, except_with, try_except, abandon, check_deadline, drive_one,
}
use mas_research.Coordinator.Keeps.{Keeps, Keeps-pure, and_then-kept}

abbrev pub settings : Coordinator → Config
settings c = c.config

abbrev pub KeepsConfig : {A : Type 0} → Action Coordinator A → Type 0
KeepsConfig m = Keeps settings m

except-config :
    (config : Config) (handler : Action Coordinator (Unit {0}))
    (x : Result (Unit {0}) × Coordinator)
    → settings x.1 ≡ config
    → KeepsConfig handler
    → settings (except_with handler x).1 ≡ config
unfolding except_with
except-config config handler (ok a, d) h k = h
except-config config handler (raise e, d) h k = k.at d ∙ h

pub call_out-KeepsConfig : (e : Event) → KeepsConfig (call_out e)
unfolding call_out
call_out-KeepsConfig e = record { at = λ c. refl }

module _ (k : String) where
  pub on_task-KeepsConfig :
      {A : Type 0} (s : TaskState) (m : Action Run A) → KeepsConfig (on_task k s m)
  unfolding on_task
  on_task-KeepsConfig s m = record { at = λ c. refl }

  remove_task-KeepsConfig : KeepsConfig (remove_task k)
  unfolding remove_task
  remove_task-KeepsConfig = record { at = λ c. refl }

  finalize_task-KeepsConfig : (s : TaskState) (now : ℕ) → KeepsConfig (finalize_task k s now)
  unfolding finalize_task
  finalize_task-KeepsConfig s now = record {
    at = λ c.
        and_then-kept settings c.config _ (on_task k s (finalize c.config now) c)
          ((on_task-KeepsConfig s (finalize c.config now)).at c) (λ _. remove_task-KeepsConfig);
  }

  maybe_finalize-KeepsConfig : (s : TaskState) (now : ℕ) → KeepsConfig (maybe_finalize k s now)
  unfolding maybe_finalize
  maybe_finalize-KeepsConfig s now = record {
    at = λ c. elim (Bool-cases (is_empty s.pending)) [
      | inl e ↦ rw e ((finalize_task-KeepsConfig s now).at c)
      | inr e ↦ rw e refl
    ];
  }

  pub drive-KeepsConfig : (s : TaskState) (now : ℕ) → KeepsConfig (drive k s now)
  unfolding drive
  drive-KeepsConfig s now = record {
    at = λ c.
        and_then-kept settings c.config _ (on_task k s (advance c.config now) c)
          ((on_task-KeepsConfig s (advance c.config now)).at c)
          (λ _. record { at = λ d. (maybe_finalize-KeepsConfig (current d k s) now).at d });
  }

  check_deadline-KeepsConfig : (s : TaskState) (now : ℕ) → KeepsConfig (check_deadline k s now)
  unfolding check_deadline
  check_deadline-KeepsConfig s now = record {
    at = λ c. elim (Option-cases (lookup k c.tasks)) [
      | inl gone ↦ rw (gone, check_deadline) refl
      | inr (t, e) ↦ elim (Bool-cases (ltb c.config.global_deadline_sec (now - s.started_at))) [
        | inl late ↦ rw (e, check_deadline) (rw late ((finalize_task-KeepsConfig t now).at c))
        | inr early ↦ rw (e, check_deadline) (rw early refl)
      ]
    ];
  }

  abandon-KeepsConfig : KeepsConfig (abandon k)
  unfolding abandon try_except
  abandon-KeepsConfig = record {
    at = λ c. elim (Bool-cases (has k c.tasks)) [
      | inl e ↦ rw e (except-config c.config (pure tt) _ refl (Keeps-pure settings tt))
      | inr e ↦ rw e (except-config c.config (pure tt) _ refl (Keeps-pure settings tt))
    ];
  }

  pub drive_one-KeepsConfig : (now : ℕ) → KeepsConfig (drive_one k now)
  unfolding drive_one try_except
  drive_one-KeepsConfig now = record {
    at = λ c. elim (Option-cases (lookup k c.tasks)) [
      | inl gone ↦ rw (gone, drive_one) refl
      | inr (s, e) ↦
          rw (e, drive_one)
            (except-config c.config (abandon k) ((drive k s now >> check_deadline k s now) c)
              (and_then-kept settings c.config _ (drive k s now c) ((drive-KeepsConfig s now).at c)
                (λ _. check_deadline-KeepsConfig s now))
              abandon-KeepsConfig)
    ];
  }

pub collect-KeepsConfig : (entries : List (String × Message)) → KeepsConfig (collect entries)
unfolding collect
collect-KeepsConfig [] = Keeps-pure settings []
collect-KeepsConfig ((entry_id, reply) ∷ entries) = record {
  at = λ c.
      and_then-kept settings c.config _ (call_out (acked entry_id) c)
        ((call_out-KeepsConfig (acked entry_id)).at c)
        λ _. record {
          at = λ d.
              let d' : Coordinator = record d {
                idempotency = (accept d.idempotency reply.message_id).0;
              } in
              and_then-kept settings d.config _ (collect entries d')
                ((collect-KeepsConfig entries).at d') (λ _. record { at = λ _. refl });
        };
}

route_one-KeepsConfig : (reply : Message) (now : ℕ) → KeepsConfig (route_one reply now)
unfolding route_one
route_one-KeepsConfig reply now = record {
  at = λ c. elim (Option-cases (lookup reply.task_id c.tasks)) [
    | inl gone ↦ rw (gone, route_one) refl
    | inr (s, e) ↦
        rw (e, route_one)
          ((on_task-KeepsConfig reply.task_id s (route_reply c.printer reply now)).at c)
  ];
}

pub route_all-KeepsConfig : (replies : List Message) (now : ℕ) → KeepsConfig (route_all replies now)
unfolding route_all
route_all-KeepsConfig [] now = Keeps-pure settings []
route_all-KeepsConfig (reply ∷ replies) now = record {
  at = λ c.
      and_then-kept settings c.config _ (route_one reply now c)
        ((route_one-KeepsConfig reply now).at c)
        λ job. record {
          at = λ d.
              and_then-kept settings d.config _ (route_all replies now d)
                ((route_all-KeepsConfig replies now).at d) (λ _. record { at = λ _. refl });
        };
}
