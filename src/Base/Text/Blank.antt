-- ===== src/Base/Text/Blank.antt =====
-- Which texts `trim` leaves empty.
use Prim.Native.Char.{Char, code}
use Prim.Native.String.{String, [], ◌∷◌}
use mathlib.Core.Path.{◌≡◌, refl, ◌∙◌, ap}
use mathlib.Core.Bool.{Bool, true, false, not, ◌||◌}
use native.Mathlib.Omega.{arith}
use text.Mathlib.TextLemmas.{nil-append, cons-append}
use maxgame_admin_guard.Base.Tests.{if◌then◌else◌}
use maxgame_admin_guard.Base.Text.Trim.{
  ◌<>◌, is_empty, is_whitespace, trim_start_matches, cons_trimmed, trim_end_matches, trim,
}

pub is_empty-eq : (s : String) → is_empty s ≡ true → s ≡ []
unfolding is_empty
is_empty-eq [] h = refl
is_empty-eq (c ∷ s) h = cc h

-- Whether some character is no white space.
unfoldable pub has_visible : String → Bool
has_visible [] = false
has_visible (c ∷ s) = not (is_whitespace (code c)) || has_visible s

trim_start-visible : (s : String) → has_visible (trim_start_matches is_whitespace s) ≡ has_visible s
unfolding has_visible trim_start_matches
trim_start-visible [] = refl
trim_start-visible (c ∷ s) = ground (arith, trim_start-visible s)

is_empty-if : (c : Char) (b : Bool) → is_empty (if b then [] else c ∷ []) ≡ b
unfolding is_empty
is_empty-if c true = refl
is_empty-if c false = refl

cons_trimmed-empty :
    (c : Char) (t : String) (b : Bool)
    → is_empty t ≡ not b
    → is_empty (cons_trimmed is_whitespace c t) ≡ not (not (is_whitespace (code c)) || b)
unfolding is_empty
cons_trimmed-empty c [] b h = is_empty-if c (is_whitespace (code c)) ∙ ground (arith, h)
cons_trimmed-empty c (d ∷ t) b h = ground (arith, h)

trim_end-empty : (s : String) → is_empty (trim_end_matches is_whitespace s) ≡ not (has_visible s)
unfolding has_visible trim_end_matches
trim_end-empty [] = unfold is_empty in refl
trim_end-empty (c ∷ s) =
    cons_trimmed-empty c (trim_end_matches is_whitespace s) (has_visible s) (trim_end-empty s)

pub is_empty-trim : (s : String) → is_empty (trim s) ≡ not (has_visible s)
unfolding trim
is_empty-trim s =
    trim_end-empty (trim_start_matches is_whitespace s)
    ∙ ap (λ (b : Bool). not b) (trim_start-visible s)

pub has_visible-append : (s t : String) → has_visible (s <> t) ≡ (has_visible s || has_visible t)
unfolding has_visible
has_visible-append [] t = ap (λ (u : String). has_visible u) (nil-append t)
has_visible-append (c ∷ s) t = rw (cons-append c s t) (ground (arith, has_visible-append s t))
