-- ===== src/Base/Text/Decimal.antt =====
-- `Display` of an unsigned number.
use Prim.Native.Nat.{ℕ, zero, suc, ◌/◌, ◌%◌}
use Prim.Native.Char.{Char, nul}
use Prim.Native.String.{String, [], ◌∷◌}
use mathlib.Core.Bool.{true, false}
use maxgame_admin_guard.Base.Tests.{ltb}

abbrev nth : ℕ → String → Char
nth n [] = nul
nth zero (c ∷ s) = c
nth (suc n) (c ∷ s) = nth n s

abbrev pub digit : ℕ → Char
digit n = nth n "0123456789"

-- The digits of `n` before `rest`, of which there are at most as many as the fuel.
unfoldable pub decimal_before : ℕ → ℕ → String → String
decimal_before zero n rest = rest
decimal_before (suc fuel) n rest = elim (ltb n 10) [
  | true ↦ digit n ∷ rest
  | false ↦ decimal_before fuel (n / 10) (digit (n % 10) ∷ rest)
]

unfoldable pub decimal : ℕ → String
unfolding decimal_before
decimal n = decimal_before (suc n) n ""
