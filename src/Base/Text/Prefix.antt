-- ===== src/Base/Text/Prefix.antt =====
-- A text that begins with another: what `strip_prefix` and `split_once` find there.
use Prim.Native.Char.{Char}
use Prim.Native.String.{String, [], ◌∷◌}
use mathlib.Core.Path.{◌≡◌, ap}
use mathlib.Core.Option.{some}
use native.Mathlib.Omega.{arith}
use text.Mathlib.TextLemmas.{nil-append, cons-append}
use maxgame_admin_guard.Base.Text.Trim.{◌<>◌}
use maxgame_admin_guard.Base.Text.Split.{strip_prefix, split_once}

pub strip_prefix-append : (t s : String) → strip_prefix (t <> s) t ≡ some s
unfolding strip_prefix
strip_prefix-append [] s = ap (λ u. some u) (nil-append s)
strip_prefix-append (c ∷ t) s = rw (cons-append c t s) (ground (arith, strip_prefix-append t s))

pub split_once-append : (c : Char) (t s : String) → split_once ((c ∷ t) <> s) (c ∷ t) ≡ some ([], s)
unfolding split_once strip_prefix
split_once-append c t s = rw (cons-append c t s) (ground (arith, strip_prefix-append t s))
