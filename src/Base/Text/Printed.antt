-- ===== src/Base/Text/Printed.antt =====
-- Numbers that `Display` prints, and what `str::parse` makes of them.
use Prim.Native.Nat.{ℕ, zero, suc, ◌+◌, ◌-◌, ◌*◌, ◌/◌, ◌%◌, ◌≤◌, ◌<◌}
use Prim.Native.Char.{Char, code}
use Prim.Native.String.{String, [], ◌∷◌}
use mathlib.Core.Path.{◌≡◌, refl, ◌∙◌, subst}
use mathlib.Core.Logic.{inl, inr}
use mathlib.Core.Bool.{true}
use native.Mathlib.Omega.{arith}
use maxgame_admin_guard.Base.Results.{ok}
use maxgame_admin_guard.Base.Tests.{ltb→lt, ltb, Bool-cases}
use maxgame_admin_guard.Base.Text.Numbers.{parse_digits, parse_unsigned}
use maxgame_admin_guard.Base.Text.Trim.{is_whitespace}
use maxgame_admin_guard.Base.Text.Blank.{has_visible}
use maxgame_admin_guard.Base.Text.Decimal.{digit, decimal_before, decimal}

code-digit : (d : ℕ) → d < 10 → code (digit d) ≡ 48 + d
code-digit zero h = refl
code-digit (suc zero) h = refl
code-digit (suc (suc zero)) h = refl
code-digit (suc (suc (suc zero))) h = refl
code-digit (suc (suc (suc (suc zero)))) h = refl
code-digit (suc (suc (suc (suc (suc zero))))) h = refl
code-digit (suc (suc (suc (suc (suc (suc zero)))))) h = refl
code-digit (suc (suc (suc (suc (suc (suc (suc zero))))))) h = refl
code-digit (suc (suc (suc (suc (suc (suc (suc (suc zero)))))))) h = refl
code-digit (suc (suc (suc (suc (suc (suc (suc (suc (suc zero))))))))) h = refl
code-digit (suc (suc (suc (suc (suc (suc (suc (suc (suc (suc n)))))))))) h = absurd (omega arith)

parse_digits-digit :
    (most acc d : ℕ) (rest : String)
    → d < 10
    → acc * 10 + d ≤ most
    → parse_digits most acc (digit d ∷ rest) ≡ parse_digits most (acc * 10 + d) rest
unfolding parse_digits
parse_digits-digit most acc d rest h fits = ground (arith, code-digit d h, fits)

parse_digits-before :
    (most fuel n : ℕ) (rest : String)
    → n < fuel
    → n ≤ most
    → parse_digits most 0 (decimal_before fuel n rest) ≡ parse_digits most n rest
unfolding decimal_before
parse_digits-before most zero n rest h fits = absurd (omega arith)
parse_digits-before most (suc fuel) n rest h fits = elim (Bool-cases (ltb n 10)) [
  | inl small ↦ ground (arith, small, parse_digits-digit most 0 n rest (ground arith) (omega arith))
  | inr big ↦ ground (
    arith,
    big,
    parse_digits-before most fuel (n / 10) (digit (n % 10) ∷ rest) (ground arith) (omega arith),
    parse_digits-digit most (n / 10) (n % 10) rest (omega arith) (omega arith),
  )
]

-- A printed number begins with a digit, and so with no sign.
data IsNumeral : String → Type 0 where
  numeral : (c : Char) (s : String) → 48 ≤ code c → code c ≤ 57 → IsNumeral (c ∷ s)

decimal_before-IsNumeral :
    (fuel n : ℕ) (rest : String) → n < fuel → IsNumeral (decimal_before fuel n rest)
unfolding decimal_before
decimal_before-IsNumeral zero n rest h = absurd (omega arith)
decimal_before-IsNumeral (suc fuel) n rest h = elim (Bool-cases (ltb n 10)) [
  | inl small ↦ subst IsNumeral {x = digit n ∷ rest} (ground (arith, small)) (
      numeral (digit n) rest (omega (arith, code-digit n (ground arith)))
        (omega (arith, code-digit n (ground arith), ltb→lt n 10 small)))
  | inr big ↦
      subst IsNumeral {x = decimal_before fuel (n / 10) (digit (n % 10) ∷ rest)}
        (ground (arith, big))
        (decimal_before-IsNumeral fuel (n / 10) (digit (n % 10) ∷ rest) (ground arith))
]

parse_unsigned-IsNumeral :
    (most : ℕ) (s : String) → IsNumeral s → parse_unsigned most s ≡ parse_digits most 0 s
unfolding parse_unsigned
parse_unsigned-IsNumeral most _ (numeral c s h k) = ground arith

pub parse_unsigned-decimal : (most n : ℕ) → n ≤ most → parse_unsigned most (decimal n) ≡ ok n
unfolding decimal parse_digits
parse_unsigned-decimal most n fits =
    parse_unsigned-IsNumeral most (decimal n) (decimal_before-IsNumeral (suc n) n [] (omega arith))
    ∙ parse_digits-before most (suc n) n [] (omega arith) fits

parse_digits-bound :
    (most acc : ℕ) (s : String) (n : ℕ) → acc ≤ most → parse_digits most acc s ≡ ok n → n ≤ most
unfolding parse_digits
parse_digits-bound most acc [] n h e = ground (arith, h, e)
parse_digits-bound most acc (c ∷ s) n h e =
    ground (
      arith,
      e,
      parse_digits-bound most (acc * 10 + (code c - 48)) s n (ground arith) (ground arith),
    )

pub parse_unsigned-bound : (most : ℕ) (s : String) (n : ℕ) → parse_unsigned most s ≡ ok n → n ≤ most
unfolding parse_unsigned
parse_unsigned-bound most [] n e = cc e
parse_unsigned-bound most (c ∷ []) n e =
    ground (arith, e, parse_digits-bound most 0 (c ∷ []) n (omega arith))
parse_unsigned-bound most (c ∷ d ∷ s) n e = ground (
  arith,
  e,
  parse_digits-bound most 0 (c ∷ d ∷ s) n (omega arith),
  parse_digits-bound most 0 (d ∷ s) n (omega arith),
)

IsNumeral-visible : (s : String) → IsNumeral s → has_visible s ≡ true
unfolding has_visible is_whitespace
IsNumeral-visible _ (numeral c s h k) = ground arith

pub decimal-visible : (n : ℕ) → has_visible (decimal n) ≡ true
unfolding decimal
decimal-visible n =
    IsNumeral-visible (decimal n) (decimal_before-IsNumeral (suc n) n [] (omega arith))
