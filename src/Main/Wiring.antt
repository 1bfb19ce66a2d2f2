-- ===== src/Main/Wiring.antt =====
-- The agents that are started are those that the Coordinator sends to (main.py).
use mas_research.Base.{
  String, ℕ, ◌*◌, ◌≡◌, refl, List, [], ◌∷◌, string_key, same, select, string_dec,
}
use mas_research.Base.Dict.{lookup}
use mas_research.Schemas.{
  Operation, f1_transcribe, f2_ocr, f3_summarize, f4_test, f5_terms, f6_recommend,
}
use mas_research.Plan.{operation_to_agent, agent_value, agent_class_name}
use mas_research.Core.Messages.{channel_for_agent}
use mas_research.Coordinator.Handlers.{Config, timeout_for}
use mas_research.Main.{Settings, Wired, wired_agents, agent_timeouts}

-- The setting of an operation's timeout, in seconds.
abbrev timeout_setting : Settings → Operation → ℕ
timeout_setting settings f1_transcribe = settings.coord_timeout_transcriber
timeout_setting settings f2_ocr = settings.coord_timeout_ocr
timeout_setting settings f3_summarize = settings.coord_timeout_summarizer
timeout_setting settings f4_test = settings.coord_timeout_test_generator
timeout_setting settings f5_terms = settings.coord_timeout_terminology
timeout_setting settings f6_recommend = settings.coord_timeout_recommender

-- The agents that read a channel.
abbrev pub readers : String → List Wired
readers channel = select (λ a. same a.channel channel) wired_agents

-- One agent, of this name and operation.
abbrev pub IsOnly : String → Operation → List Wired → Type 0
IsOnly name operation (agent ∷ []) = (agent.name ≡ name) × (agent.operation ≡ operation)
IsOnly name operation _ = ⊥

-- The channel to which the Coordinator sends the requests of an operation is read by one of the agents
-- that are started and by no other; it is the one that the artifact names for the operation, it
-- handles the operation, and the Coordinator waits for it as long as its setting says.
pub readers-channel_for_agent :
    (settings : Settings) (config : Config)
    → config.timeouts ≡ agent_timeouts settings
    → (operation : Operation)
    → IsOnly
        (agent_class_name (operation_to_agent operation))
        operation
        (readers (channel_for_agent (agent_value (operation_to_agent operation))))
      × (timeout_for config (operation_to_agent operation)
          ≡ timeout_setting settings operation * 1_000)
unfolding wired_agents agent_class_name operation_to_agent agent_value channel_for_agent timeout_for
    agent_timeouts lookup string_dec
readers-channel_for_agent settings config e f1_transcribe = ((refl, refl), rw e refl)
readers-channel_for_agent settings config e f2_ocr = ((refl, refl), rw e refl)
readers-channel_for_agent settings config e f3_summarize = ((refl, refl), rw e refl)
readers-channel_for_agent settings config e f4_test = ((refl, refl), rw e refl)
readers-channel_for_agent settings config e f5_terms = ((refl, refl), rw e refl)
readers-channel_for_agent settings config e f6_recommend = ((refl, refl), rw e refl)
