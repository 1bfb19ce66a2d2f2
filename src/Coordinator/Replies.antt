-- ===== src/Coordinator/Replies.antt =====
-- What a reply does to its subtask, and what the same reply does when it comes again
-- (agents/coordinator.py, `_route_reply`).
use mas_research.Base.{
  zero, suc, ℕ, ◌+◌, String, true, false, ◌≡◌, refl, Option, none, some, arith, Bool-cases,
  Option-cases, inl, inr, or_else, get_elem?, string_key, same,
}
use mas_research.Base.Int.{pos}
use mas_research.Base.Dict.{lookup, has, contains, lookup-insert, lookup-erase, contains-discard}
use mas_research.Plan.{Subtask, plan_get}
use mas_research.Core.Retry.{compute_backoff, backoff_seconds}
use mas_research.Core.Status.{result_of}
use mas_research.Core.Messages.{Message, refuse, performative_key}
use mas_research.Coordinator.State.{TaskState, retries, mark_retry, mark_replied, mark_informed}
use mas_research.Coordinator.Effects.{Run, ok}
use mas_research.Coordinator.Handlers.{Printer}
use mas_research.Coordinator.Reply.{PersistJob, route_inform, route_pending, route_reply}
use mas_research.Coordinator.Invariant.{IsWf}
use mas_research.Coordinator.Routing.{Returns, Returns-mono}

-- The subtask `k` has the content for its result, and nothing is left of its pending entry, its
-- deadline and its retry; what is to be persisted is the same content, for the subtask's operation.
pub record Resolved (k : String) (reply : Message) (job : Option PersistJob) (r : Run)
    : Type 0 where
  pub result : result_of r.state.results k ≡ some reply.content
  pub closed : contains k r.state.pending ≡ false
  pub no_deadline : has k r.state.deadlines ≡ false
  pub no_retry : has k r.state.retry_at ≡ false
  pub subtask : Subtask
  pub found : plan_get r.state.plan k ≡ some subtask
  pub to_persist :
      job
      ≡ some (record {
        task_id = r.state.task.id;
        operation = subtask.operation;
        content = reply.content;
      })

module _ (printer : Printer) (reply : Message) (now : ℕ) (r : Run) (w : IsWf r.state)
    (informs : same reply.performative refuse ≡ false) where
  -- A reply that is not a refuse, for a pending subtask of a well-formed task: the subtask is resolved.
  pub route_reply-Resolved :
      (k : String)
      → reply.subtask_id ≡ some k
      → contains k r.state.pending ≡ true
      → Returns (Resolved k reply) (route_reply printer reply now r)
  unfolding route_reply route_pending route_inform result_of mark_replied mark_informed
  route_reply-Resolved k e p = elim (Option-cases (plan_get r.state.plan k)) [
    | inl missing ↦ absurd (ground (arith, w k))
    | inr (x, found) ↦
        rw (e, route_reply)
          (rw p (
            rw (informs, found)
              record {
                result = ground (arith, lookup-insert k k (some reply.content) r.state.results);
                closed = ground (arith, contains-discard k k r.state.pending);
                no_deadline = ground (arith, lookup-erase k k r.state.deadlines);
                no_retry = ground (arith, lookup-erase k k r.state.retry_at);
                subtask = x;
                found = found;
                to_persist = refl;
              }))
  ]

  unaddressed :
      (at : ℕ) (r' : Run)
      → reply.subtask_id ≡ none
      → route_reply printer reply at r' ≡ (ok none, r')
  unfolding route_reply
  unaddressed at r' e = rw (e, route_reply) refl

  late :
      (at : ℕ) (r' : Run) (k : String)
      → reply.subtask_id ≡ some k
      → contains k r'.state.pending ≡ false
      → route_reply printer reply at r' ≡ (ok none, r')
  unfolding route_reply
  late at r' k e closed = rw (e, route_reply) (rw closed refl)

  -- A reply that is not a refuse, routed to a well-formed task: when it comes again, it is dropped and
  -- changes nothing.
  pub route_reply-repeat :
      (later : ℕ)
      → Returns
          (λ _ r'. route_reply printer reply later r' ≡ (ok none, r'))
          (route_reply printer reply now r)
  route_reply-repeat later = elim (Option-cases reply.subtask_id) [
    | inl e ↦ rw (unaddressed now r e) (unaddressed later r e)
    | inr (k, e) ↦ elim (Bool-cases (contains k r.state.pending)) [
      | inl p ↦
          Returns-mono (route_reply printer reply now r) (route_reply-Resolved k e p)
            λ _ r' h. late later r' k e h.closed
      | inr p ↦ rw (late now r k e p) (late later r k e p)
    ]
  ]

backoff-compute_backoff :
    (n delay : ℕ)
    → compute_backoff (pos n) ≡ some delay
    → or_else (get_elem? backoff_seconds n) 0 ≡ delay
unfolding compute_backoff
backoff-compute_backoff zero delay e = cc e
backoff-compute_backoff (suc zero) delay e = cc e
backoff-compute_backoff (suc (suc n)) delay e = absurd (ground arith)

-- A retry that is scheduled comes after the delay that `compute_backoff` gives for the old count, and
-- raises the count by one.
pub mark_retry-compute_backoff :
    (k reason : String) (now delay : ℕ) (s : TaskState)
    → compute_backoff (pos (retries s k)) ≡ some delay
    → (lookup k (mark_retry k reason now s).retry_at ≡ some (now + delay))
      × (retries (mark_retry k reason now s) k ≡ retries s k + 1)
unfolding mark_retry compute_backoff
mark_retry-compute_backoff k reason now delay s e =
    let backoff = or_else (get_elem? backoff_seconds (retries s k)) 0 in
    let same_delay : backoff ≡ delay = backoff-compute_backoff (retries s k) delay e in
    (
      ground (arith, lookup-insert k k (now + backoff) s.retry_at),
      ground (arith, lookup-insert k k (retries s k + 1) s.retry_counts),
    )
