-- ===== src/Agent/Replies.antt =====
-- A request, the agent's reply to it and what the Coordinator does with the reply
-- (agents/base.py, agents/coordinator.py).
use mas_research.Base.{ℕ, String, true, ◌≡◌, refl, string_key}
use mas_research.Base.Dict.{contains}
use mas_research.Values.{Fields}
use mas_research.Plan.{Subtask}
use mas_research.Core.Messages.{Performative-discrete, performative_key, make_message}
use mas_research.Coordinator.State.{TaskState}
use mas_research.Coordinator.Effects.{Run}
use mas_research.Coordinator.Handlers.{Printer, request_for}
use mas_research.Coordinator.Reply.{route_reply}
use mas_research.Coordinator.Invariant.{IsWf}
use mas_research.Coordinator.Routing.{Returns}
use mas_research.Coordinator.Replies.{Resolved, route_reply-Resolved}
use mas_research.Agent.{Agent, inform_draft}

-- An agent's inform to the request that `_publish` makes for a subtask, routed while the subtask is
-- pending, resolves just that subtask with the agent's content.
pub inform-Resolved :
    (agent : Agent) (content : Fields) (x : Subtask) (printer : Printer) (now : ℕ)
    (id time id' time' : String) (s : TaskState) (r : Run)
    → IsWf r.state
    → contains x.id r.state.pending ≡ true
    → let reply =
        make_message id' time'
          (inform_draft agent (make_message id time (request_for s x)) content) in
      Returns (Resolved x.id reply) (route_reply printer reply now r)
unfolding make_message inform_draft request_for Performative-discrete
inform-Resolved agent content x printer now id time id' time' s r w p =
    route_reply-Resolved printer _ now r w refl x.id refl p
