-- ===== src/Agent/Reading.antt =====
-- Which entries an agent acknowledges (agents/base.py, `_read_once`).
use mas_research.Base.{
  String, ◌≡◌, refl, Option, none, some, List, [], ◌∷◌, Bool-cases, inl, inr, string_key,
}
use mas_research.Core.Messages.{Message}
use mas_research.Core.Idempotency.{accept}
use mas_research.Agent.{
  Handled, replies, adapter_error, raises, Agent, Effect, published, acked, slept, handled, Desk,
  is_flagged, refuse_request, Outcome, done, raised, after_handle, safe_handle, bus_call, then_do,
  publish_reply, read_entry, read_once,
}

-- The acknowledged entries in a log.
pub acks : List Effect → List String
acks [] = []
acks (acked entry_id ∷ es) = entry_id ∷ acks es
acks (published reply ∷ es) = acks es
acks (slept ∷ es) = acks es
acks (handled message ∷ es) = acks es

-- The entries with the latest in front, onto others.
pub entries_onto : List (String × Message) → List String → List String
entries_onto [] ids = ids
entries_onto ((entry_id, message) ∷ entries) ids = entries_onto entries (entry_id ∷ ids)

abbrev pub OnDone : {A : Type 0} → (Desk → Type 0) → Outcome A × Desk → Type 0
OnDone P (done a, d) = P d
OnDone P (raised, d) = Unit

OnDone-then_do :
    {A B : Type 0} (P Q : Desk → Type 0) (x : Outcome A × Desk) (f : A → Desk → Outcome B × Desk)
    → OnDone P x
    → ((a : A) (d : Desk) → P d → OnDone Q (f a d))
    → OnDone Q (then_do x f)
OnDone-then_do P Q (done a, d) f h k = k a d h
OnDone-then_do P Q (raised, d) f h k = tt

-- The log of a desk has these acknowledged entries.
pub HasAcks : List String → Desk → Type 0
HasAcks ids d = acks d.log ≡ ids

module _ (agent : Agent) where
  after_handle-HasAcks :
      (request : Message) (h : Handled) (d : Desk)
      → OnDone (HasAcks (acks d.log)) (after_handle agent request h d)
  unfolding after_handle refuse_request HasAcks
  after_handle-HasAcks request (replies reply) d = refl
  after_handle-HasAcks request (adapter_error kind) d = refl
  after_handle-HasAcks request raises d = tt

  safe_handle-HasAcks :
      (request : Message) (d : Desk) → OnDone (HasAcks (acks d.log)) (safe_handle agent request d)
  unfolding safe_handle refuse_request HasAcks acks
  safe_handle-HasAcks request d = elim (Bool-cases (is_flagged agent agent.force_refuse)) [
    | inl e ↦ rw e refl
    | inr e ↦ elim (Bool-cases (is_flagged agent agent.hang_agent)) [
      | inl f ↦ rw (e, f) (after_handle-HasAcks request (agent.handle request) _)
      | inr f ↦ rw (e, f) (after_handle-HasAcks request (agent.handle request) _)
    ]
  ]

  bus_call-HasAcks :
      (e : Effect) (d : Desk) → OnDone (HasAcks (acks (e ∷ d.log))) (bus_call agent e d)
  unfolding bus_call HasAcks
  bus_call-HasAcks e d = elim (Bool-cases (agent.fails d.calls)) [
    | inl f ↦ rw f tt
    | inr f ↦ rw f refl
  ]

  publish_reply-HasAcks :
      (reply : Option Message) (d : Desk)
      → OnDone (HasAcks (acks d.log)) (publish_reply agent reply d)
  unfolding publish_reply HasAcks acks
  publish_reply-HasAcks none d = refl
  publish_reply-HasAcks (some reply) d = bus_call-HasAcks (published reply) d

  ack-HasAcks :
      (entry_id : String) (ids : List String) (d : Desk)
      → HasAcks ids d
      → OnDone (HasAcks (entry_id ∷ ids)) (bus_call agent (acked entry_id) d)
  unfolding HasAcks acks
  ack-HasAcks entry_id ids d h = rw (← h) (bus_call-HasAcks (acked entry_id) d)

  read_entry-HasAcks :
      (entry_id : String) (message : Message) (d : Desk)
      → OnDone (HasAcks (entry_id ∷ acks d.log)) (read_entry agent entry_id message d)
  unfolding read_entry HasAcks
  read_entry-HasAcks entry_id message d =
      let seen = record d { idempotency = (accept d.idempotency message.message_id).0 } in
      elim (Bool-cases (accept d.idempotency message.message_id).1) [
        | inr stale ↦ rw stale (ack-HasAcks entry_id (acks d.log) seen refl)
        | inl fresh ↦ rw fresh (
            OnDone-then_do (HasAcks (acks d.log)) _ (safe_handle agent message seen) _
              (safe_handle-HasAcks message seen)
              λ reply d' h.
                OnDone-then_do (HasAcks (acks d.log)) _ (publish_reply agent reply d') _
                  (rw (← h) (publish_reply-HasAcks reply d'))
                  λ _ d'' g. ack-HasAcks entry_id (acks d.log) d'' g)
      ]

  -- A read that returns has acknowledged every entry it was given, each once and in their order: those
  -- that it took for new, whatever was replied, and those that it had seen before.
  pub read_once-HasAcks :
      (entries : List (String × Message)) (d : Desk)
      → OnDone (HasAcks (entries_onto entries (acks d.log))) (read_once agent entries d)
  unfolding read_once entries_onto HasAcks
  read_once-HasAcks [] d = refl
  read_once-HasAcks ((entry_id, message) ∷ entries) d =
      OnDone-then_do (HasAcks (entry_id ∷ acks d.log)) _ (read_entry agent entry_id message d) _
        (read_entry-HasAcks entry_id message d) λ _ d' h. rw (← h) (read_once-HasAcks entries d')
