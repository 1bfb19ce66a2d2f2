-- ===== src/Core/Retry.antt =====
-- Retry policy and per-agent timeouts (core/retry.py), in milliseconds.
use mas_research.Base.{ℕ, Option, none, List, [], ◌∷◌, length, get_elem?, leb, if◌then◌else◌}
use mas_research.Base.Int.{ℤ, pos, negsuc}
use mas_research.Plan.{
  AgentName, transcriber, ocr, summarizer, test_generator, terminology, recommender,
}

abbrev pub backoff_seconds : List ℕ
backoff_seconds = 1000 ∷ 4000 ∷ []

abbrev pub retry_max : ℕ
retry_max = length backoff_seconds

unfoldable pub agent_timeouts_sec : AgentName → ℕ
agent_timeouts_sec transcriber = 600_000
agent_timeouts_sec ocr = 120_000
agent_timeouts_sec summarizer = 90_000
agent_timeouts_sec test_generator = 60_000
agent_timeouts_sec terminology = 30_000
agent_timeouts_sec recommender = 15_000

-- `compute_backoff`; `none` is its ValueError.
unfoldable pub compute_backoff : ℤ → Option ℕ
compute_backoff (negsuc n) = none
compute_backoff (pos n) = if leb retry_max n then none else get_elem? backoff_seconds n
