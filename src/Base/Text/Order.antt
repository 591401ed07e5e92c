-- ===== src/Base/Text/Order.antt =====
-- `Ord` on `String`: by UTF-8 bytes, which is by code points.
use Prim.Native.Char.{code}
use Prim.Native.String.{String, [], ◌∷◌}
use mathlib.Core.Path.{◌≡◌, refl}
use mathlib.Core.Bool.{Bool, true, false, ◌&&◌, ◌||◌}
use mathlib.Core.Logic.{◌⊎◌, inl, inr}
use native.Mathlib.Omega.{arith}
use text.Mathlib.TextEquality.{Char-path}
use maxgame_admin_guard.Base.Tests.{ltb, ◌==◌}

unfoldable pub str_le : String → String → Bool
str_le [] t = true
str_le (c ∷ s) [] = false
str_le (c ∷ s) (d ∷ t) = ltb (code c) (code d) || (code c == code d && str_le s t)

pub str_le_total : (s t : String) → (str_le s t ≡ true) ⊎ (str_le t s ≡ true)
unfolding str_le
str_le_total [] t = inl refl
str_le_total (c ∷ s) [] = inr refl
str_le_total (c ∷ s) (d ∷ t) = ground (arith, str_le_total s t)

pub str_le_trans : (s t u : String) → str_le s t ≡ true → str_le t u ≡ true → str_le s u ≡ true
unfolding str_le
str_le_trans [] t u h k = refl
str_le_trans (c ∷ s) (d ∷ t) (e ∷ u) h k = ground (arith, str_le_trans s t u)
str_le_trans (c ∷ s) (d ∷ t) [] h k = cc
str_le_trans (c ∷ s) [] u h k = cc

pub str_le_antisymm : (s t : String) → str_le s t ≡ true → str_le t s ≡ true → s ≡ t
unfolding str_le
str_le_antisymm [] [] h k = refl
str_le_antisymm [] (d ∷ t) h k = cc
str_le_antisymm (c ∷ s) [] h k = cc
str_le_antisymm (c ∷ s) (d ∷ t) h k = ground (arith, Char-path c d, str_le_antisymm s t)
