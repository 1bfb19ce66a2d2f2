-- ===== src/Core/Delays.antt =====
-- Retry delays, over the counts that the Coordinator passes (core/retry.py).
use mas_research.Base.{arith, false, zero, suc, ◌≡◌, refl, is_some, ltb}
use mas_research.Base.Int.{ℤ, pos, negsuc}
use mas_research.Core.Retry.{retry_max, compute_backoff}

-- A delay is there exactly for the retry counts from 0 up to but not including RETRY_MAX.
pub compute_backoff-defined :
    (n : ℤ) → is_some (compute_backoff n) ≡ elim n [ pos k ↦ ltb k retry_max | negsuc k ↦ false ]
unfolding compute_backoff
compute_backoff-defined (pos zero) = refl
compute_backoff-defined (pos (suc zero)) = refl
compute_backoff-defined (pos (suc (suc n))) = ground arith
compute_backoff-defined (negsuc n) = refl
