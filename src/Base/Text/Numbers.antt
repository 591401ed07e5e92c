-- ===== src/Base/Text/Numbers.antt =====
-- `str::parse` of unsigned numbers: an optional plus sign, then decimal digits, in range.
use Prim.Native.Nat.{ℕ, ◌+◌, ◌-◌, ◌*◌, ◌^◌}
use Prim.Native.Char.{code}
use Prim.Native.String.{String, [], ◌∷◌}
use mathlib.Core.Bool.{Bool, ◌&&◌}
use mathlib.Core.Option.{Option, none, some}
use maxgame_admin_guard.Base.Results.{Result, ok, err}
use maxgame_admin_guard.Base.Tests.{ltb, leb, ◌==◌, if◌then◌else◌}

-- `Option::filter`.
abbrev pub filter {ℓ} : {A : Type ℓ} → (A → Bool) → Option A → Option A
filter p none = none
filter p (some a) = if p a then some a else none

unfoldable pub digits : ℕ → String → Option ℕ
digits acc [] = some acc
digits acc (c ∷ s) =
    if leb 48 (code c) && leb (code c) 57 then digits (acc * 10 + (code c - 48)) s else none

abbrev pub some_digits : String → Option ℕ
some_digits [] = none
some_digits (c ∷ s) = digits 0 (c ∷ s)

-- The sign is dropped before the digits are read, and no digits at all is an error.
abbrev pub unsigned : String → Option ℕ
unsigned [] = none
unsigned (c ∷ s) = if code c == 43 then some_digits s else digits 0 (c ∷ s)

unfoldable pub parse_u64 : String → Option ℕ
unfolding digits
parse_u64 s = filter (λ n. ltb n (2 ^ 64)) (unsigned s)

-- `str::parse` of an unsigned number that is at most `most`, or the text of its error.
unfoldable pub parse_digits : ℕ → ℕ → String → Result String ℕ
parse_digits most acc [] = ok acc
parse_digits most acc (c ∷ s) =
    let rest = parse_digits most (acc * 10 + (code c - 48)) s in
    if leb 48 (code c) && leb (code c) 57
    then if leb (acc * 10 + (code c - 48)) most
      then rest
      else err "number too large to fit in target type"
    else err "invalid digit found in string"

abbrev after_plus : ℕ → String → Result String ℕ
after_plus most [] = err "invalid digit found in string"
after_plus most (c ∷ s) = parse_digits most 0 (c ∷ s)

unfoldable pub parse_unsigned : ℕ → String → Result String ℕ
unfolding parse_digits
parse_unsigned most [] = err "cannot parse integer from empty string"
parse_unsigned most (c ∷ s) =
    if code c == 43 then after_plus most s else parse_digits most 0 (c ∷ s)
