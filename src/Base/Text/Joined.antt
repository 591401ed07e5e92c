-- ===== src/Base/Text/Joined.antt =====
-- Texts with a separator between them, and what `split` makes of them.
use Prim.Native.Nat.{ℕ}
use Prim.Native.Char.{Char, code}
use Prim.Native.String.{String, [], ◌∷◌}
use mathlib.Core.Path.{◌≡◌, refl, ◌∙◌, ap}
use mathlib.Core.Bool.{Bool, true, not, ◌&&◌}
use mathlib.Core.List.{List}
use native.Mathlib.Omega.{arith}
use text.Mathlib.TextLemmas.{nil-append, cons-append}
use maxgame_admin_guard.Base.Tests.{◌==◌}
use maxgame_admin_guard.Base.Lists.{All}
use maxgame_admin_guard.Base.Text.Trim.{◌<>◌}
use maxgame_admin_guard.Base.Text.Split.{split}

-- Whether no character of the text is the separator.
unfoldable pub lacks : ℕ → String → Bool
lacks d [] = true
lacks d (c ∷ s) = not (code c == d) && lacks d s

split-lacks : (d : ℕ) (s : String) → lacks d s ≡ true → split d s ≡ List.◌∷◌ s List.[]
unfolding lacks split
split-lacks d [] h = refl
split-lacks d (c ∷ s) h = ground (arith, h, split-lacks d s (ground arith))

split-append :
    (d : ℕ) (s : String) (c : Char) (t : String)
    → lacks d s ≡ true
    → code c ≡ d
    → split d (s <> (c ∷ t)) ≡ List.◌∷◌ s (split d t)
unfolding lacks split
split-append d [] c t h e = rw (nil-append (c ∷ t)) (ground (arith, e))
split-append d (b ∷ s) c t h e =
    rw (cons-append b s (c ∷ t)) (ground (arith, h, split-append d s c t (ground arith) e))

pub lacks-append : (d : ℕ) (s t : String) → lacks d (s <> t) ≡ (lacks d s && lacks d t)
unfolding lacks
lacks-append d [] t = ap (lacks d) (nil-append t)
lacks-append d (c ∷ s) t = rw (cons-append c s t) (ground (arith, lacks-append d s t))

-- The texts with the separator between each and the next.
unfoldable pub joined : Char → List String → String
joined d List.[] = []
joined d (List.◌∷◌ s List.[]) = s
joined d (List.◌∷◌ s (List.◌∷◌ t ts)) = s <> (d ∷ joined d (List.◌∷◌ t ts))

pub split-joined :
    (d : Char) (s : String) (ss : List String)
    → All (λ r. lacks (code d) r ≡ true) (List.◌∷◌ s ss)
    → split (code d) (joined d (List.◌∷◌ s ss)) ≡ List.◌∷◌ s ss
unfolding joined
split-joined d s List.[] (h, hs) = split-lacks (code d) s h
split-joined d s (List.◌∷◌ t ts) (h, hs) =
    split-append (code d) s d (joined d (List.◌∷◌ t ts)) h refl
    ∙ ap (λ ps. List.◌∷◌ s ps) (split-joined d t ts hs)
