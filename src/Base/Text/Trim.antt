-- ===== src/Base/Text/Trim.antt =====
-- `trim`, `trim_end_matches` and `is_empty`.
use Prim.Native.Nat.{ℕ}
use Prim.Native.Char.{Char, code}
use Prim.Native.String
use Prim.Native.String.{String, [], ◌∷◌}
use mathlib.Core.Bool.{Bool, true, false, ◌&&◌, ◌||◌}
use maxgame_admin_guard.Base.Tests.{leb, ◌==◌, if◌then◌else◌}

-- Joining texts, as `format!` does.
infixr 65 ◌<>◌
abbrev pub ◌<>◌ : String → String → String
s <> t = String.◌++◌ s t

unfoldable pub is_empty : String → Bool
is_empty [] = true
is_empty (c ∷ s) = false

-- The code points with Unicode's `White_Space` property, which `trim` removes.
unfoldable pub is_whitespace : ℕ → Bool
is_whitespace c =
    (leb 9 c && leb c 13)
    || c == 32
    || c == 133
    || c == 160
    || c == 5760
    || (leb 8192 c && leb c 8202)
    || c == 8232
    || c == 8233
    || c == 8239
    || c == 8287
    || c == 12288

-- Drops leading characters that satisfy `p`.
unfoldable pub trim_start_matches : (ℕ → Bool) → String → String
trim_start_matches p [] = []
trim_start_matches p (c ∷ s) = if p (code c) then trim_start_matches p s else c ∷ s

-- A character followed by a trimmed rest: it goes too if it satisfies `p` and nothing follows.
abbrev pub cons_trimmed : (ℕ → Bool) → Char → String → String
cons_trimmed p c [] = if p (code c) then [] else c ∷ []
cons_trimmed p c (d ∷ s) = c ∷ d ∷ s

-- Drops trailing characters that satisfy `p`.
unfoldable pub trim_end_matches : (ℕ → Bool) → String → String
trim_end_matches p [] = []
trim_end_matches p (c ∷ s) = cons_trimmed p c (trim_end_matches p s)

unfoldable pub trim : String → String
unfolding is_whitespace trim_start_matches trim_end_matches
trim s = trim_end_matches is_whitespace (trim_start_matches is_whitespace s)
