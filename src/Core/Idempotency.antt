-- ===== src/Core/Idempotency.antt =====
-- The receive-side cache of message ids (core/idempotency.py). The OrderedDict is a list with the
-- most recently used id in front.
pub mod History
use mas_research.Base.{
  ℕ, String, Bool, true, false, Option, none, some, List, [], ◌∷◌, length, leb, if◌then◌else◌,
  string_key,
}
use mas_research.Base.Dict.{contains, discard}
use mas_research.Base.Int.{ℤ, pos, negsuc}

pub record IdempotentReceiver : Type 0 where
  pub cache_size : ℕ
  pub seen : List String

-- `IdempotentReceiver(cache_size)`; `none` is its ValueError.
unfoldable pub init : ℤ → Option IdempotentReceiver
init (negsuc n) = none
init (pos n) = if leb n 0 then none else some (record { cache_size = n; seen = [] })

-- `popitem(last=False)`: the least recently used id goes.
unfoldable pub evict : List String → List String
evict [] = []
evict (x ∷ []) = []
evict (x ∷ y ∷ xs) = x ∷ evict (y ∷ xs)

unfoldable pub accept : IdempotentReceiver → String → IdempotentReceiver × Bool
unfolding evict
accept r message_id =
    if contains message_id r.seen
    then (record r { seen = message_id ∷ discard message_id r.seen }, false)
    else (
      record r {
        seen = message_id ∷ (if leb r.cache_size (length r.seen) then evict r.seen else r.seen);
      },
      true,
    )
