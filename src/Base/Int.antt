-- ===== src/Base/Int.antt =====
-- `i64` values: signed integers over the native numbers, their order, and casts from `u64`.
use Prim.Native.Nat.{ℕ, suc, ◌+◌, ◌-◌, ◌*◌, ◌/◌, ◌%◌, ◌^◌, ◌≤◌, ◌<◌}
use mathlib.Core.Bool.{Bool}
use maxgame_admin_guard.Base.Tests.{ltb, leb, if◌then◌else◌}

-- `negsuc n` is -(n + 1).
pub data ℤ : Type 0 where
  pos : ℕ → ℤ
  negsuc : ℕ → ℤ

abbrev pub pos_part : ℤ → ℕ
pos_part (pos n) = n
pos_part (negsuc n) = 0

abbrev pub neg_part : ℤ → ℕ
neg_part (pos n) = 0
neg_part (negsuc n) = suc n

abbrev pub ◌≤ℤ◌ : ℤ → ℤ → Type 0
◌≤ℤ◌ a b = pos_part a + neg_part b ≤ pos_part b + neg_part a

abbrev pub ◌<ℤ◌ : ℤ → ℤ → Type 0
◌<ℤ◌ a b = pos_part a + neg_part b < pos_part b + neg_part a

abbrev pub ltb_ℤ : ℤ → ℤ → Bool
ltb_ℤ a b = ltb (pos_part a + neg_part b) (pos_part b + neg_part a)

abbrev pub leb_ℤ : ℤ → ℤ → Bool
leb_ℤ a b = leb (pos_part a + neg_part b) (pos_part b + neg_part a)

-- `n as i64` for an `n : u64`: the top bit becomes the sign.
abbrev pub u64_as_i64 : ℕ → ℤ
u64_as_i64 n = if ltb n (2 ^ 63) then pos n else negsuc (2 ^ 64 - n - 1)

-- `i64` arithmetic as a release build does it: on the two's complement, modulo 2^64.
abbrev pub encode : ℤ → ℕ
encode (pos n) = n % 2 ^ 64
encode (negsuc n) = 2 ^ 64 - 1 - n % 2 ^ 64

abbrev pub add_i64 : ℤ → ℤ → ℤ
add_i64 a b = u64_as_i64 ((encode a + encode b) % 2 ^ 64)

abbrev pub sub_i64 : ℤ → ℤ → ℤ
sub_i64 a b = u64_as_i64 ((encode a + (2 ^ 64 - encode b)) % 2 ^ 64)

abbrev pub mul_i64 : ℤ → ℤ → ℤ
mul_i64 a b = u64_as_i64 ((encode a * encode b) % 2 ^ 64)

-- The negative of a number.
abbrev pub neg : ℕ → ℤ
neg n = if ltb 0 n then negsuc (n - 1) else pos 0

-- The division that rounds towards zero, for a divisor that is not zero.
abbrev pub div_i64 : ℤ → ℤ → ℤ
div_i64 (pos a) (pos b) = pos (a / b)
div_i64 (pos a) (negsuc b) = neg (a / suc b)
div_i64 (negsuc a) (pos b) = neg (suc a / b)
div_i64 (negsuc a) (negsuc b) = pos (suc a / suc b)

abbrev pub max_ℤ : ℤ → ℤ → ℤ
max_ℤ a b = if leb_ℤ a b then b else a
