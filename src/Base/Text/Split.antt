-- ===== src/Base/Text/Split.antt =====
-- `starts_with`, `strip_prefix`, `split_once` and `split`.
use Prim.Native.Nat.{ℕ}
use Prim.Native.Char.{Char, code}
use Prim.Native.String.{String, [], ◌∷◌}
use mathlib.Core.Bool.{Bool, true, false, ◌&&◌}
use mathlib.Core.Option.{Option, none, some}
use mathlib.Core.List.{List, [], ◌∷◌}
use maxgame_admin_guard.Base.Tests.{◌==◌, if◌then◌else◌}

-- `strip_prefix`: what follows `t` in `s`, if `s` begins with `t`.
unfoldable pub strip_prefix : String → String → Option String
strip_prefix s [] = some s
strip_prefix [] (d ∷ t) = none
strip_prefix (c ∷ s) (d ∷ t) = if code c == code d then strip_prefix s t else none

unfoldable pub starts_with : String → String → Bool
starts_with s [] = true
starts_with [] (d ∷ t) = false
starts_with (c ∷ s) (d ∷ t) = code c == code d && starts_with s t

-- The part before the separator, extended by one character.
abbrev push_front : Char → Option (String × String) → Option (String × String)
push_front c none = none
push_front c (some (before, after)) = some (c ∷ before, after)

abbrev or_later : Option String → Option (String × String) → Option (String × String)
or_later (some after) later = some ([], after)
or_later none later = later

-- `split_once`: the text before and after the first place where `t` stands.
unfoldable pub split_once : String → String → Option (String × String)
unfolding strip_prefix
split_once [] t = or_later (strip_prefix [] t) none
split_once (c ∷ s) t = or_later (strip_prefix (c ∷ s) t) (push_front c (split_once s t))

abbrev pub cons_piece : Char → List String → List String
cons_piece c [] = (c ∷ []) ∷ []
cons_piece c (piece ∷ pieces) = (c ∷ piece) ∷ pieces

-- `split`: the pieces between the separators, of which there is always one more.
unfoldable pub split : ℕ → String → List String
split d [] = [] ∷ []
split d (c ∷ s) = if code c == d then [] ∷ split d s else cons_piece c (split d s)
