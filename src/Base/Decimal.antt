-- ===== src/Base/Decimal.antt =====
-- `str(n)` of a natural number.
use Prim.Native.Nat.{ℕ, zero, suc, ◌-◌, ◌*◌, ◌/◌}
use Prim.Native.String.{String, ◌++◌ as concat}
use mathlib.Core.List.{List, [], ◌∷◌}
use mas_research.Base.Lists.{get_elem?}
use mas_research.Base.Tests.{or_else, ltb, if◌then◌else◌}

abbrev digits : List String
digits = "0" ∷ "1" ∷ "2" ∷ "3" ∷ "4" ∷ "5" ∷ "6" ∷ "7" ∷ "8" ∷ "9" ∷ []

unfoldable pub digit : ℕ → String
digit n = or_else (get_elem? digits n) ""

-- A number has fewer decimal digits than its successor has units.
unfoldable pub decimal : ℕ → ℕ → String
decimal zero n = ""
decimal (suc fuel) n =
    let before = decimal fuel (n / 10) in
    if ltb n 10 then digit n else concat before (digit (n - n / 10 * 10))

unfoldable pub show : ℕ → String
show n = decimal (suc n) n
