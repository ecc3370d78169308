-- ===== src/Base/Int.antt =====
-- Go's int64 arithmetic: integers over the native numbers, wrapped to 64 bits where the source
-- computes, and division that truncates towards zero.
use Prim.Native.Nat.{ℕ, suc, ◌+◌, ◌-◌, ◌/◌, ◌%◌, ◌≤◌, ◌<◌}
use mathlib.Core.Path.{◌≡◌}
use native.Mathlib.Omega.{arith}
use tps.Base.Tests.{leb, ltb, if◌then◌else◌}

-- `negsuc n` is -(n + 1).
pub data ℤ : Type 0 where
  pos : ℕ → ℤ
  negsuc : ℕ → ℤ

abbrev pub pos_part : ℤ → ℕ
pos_part (pos n) = n
pos_part (negsuc n) = 0

abbrev pub neg_part : ℤ → ℕ
neg_part (pos n) = 0
neg_part (negsuc n) = suc n

-- a - b, as an integer.
abbrev pub sub_ℕ : ℕ → ℕ → ℤ
sub_ℕ a b = if leb b a then pos (a - b) else negsuc (b - a - 1)

abbrev pub int64_half : ℕ
int64_half = 9223372036854775808

abbrev pub int64_mod : ℕ
int64_mod = 18446744073709551616

-- The bit pattern of the low 64 bits, read as a signed number.
abbrev pub of_bits : ℕ → ℤ
of_bits r = if ltb r int64_half then pos r else negsuc (int64_mod - r - 1)

unfoldable pub wrap64 : ℤ → ℤ
wrap64 (pos n) = of_bits (n % int64_mod)
wrap64 (negsuc n) = of_bits (int64_mod - 1 - n % int64_mod)

-- `a - b` on int64
unfoldable pub sub64 : ℤ → ℤ → ℤ
unfolding wrap64
sub64 a b = wrap64 (sub_ℕ (pos_part a + neg_part b) (neg_part a + pos_part b))

-- `a / k` on int64, for a positive constant `k`
unfoldable pub quot64 : ℤ → ℕ → ℤ
quot64 (pos n) k = pos (n / k)
quot64 (negsuc n) k = sub_ℕ 0 (suc n / k)

-- While the difference fits, int64 subtraction of an earlier instant is exact.
pub sub64_exact :
    (a b : ℤ) (d : ℕ)
    → d < int64_half
    → pos_part a + neg_part b ≡ d + (neg_part a + pos_part b)
    → sub64 a b ≡ pos d
unfolding sub64
sub64_exact a b d h e = ground arith

-- While the difference fits, int64 subtraction of a later instant is exact.
pub sub64_behind :
    (a b : ℤ) (d : ℕ)
    → d ≤ int64_half
    → neg_part a + pos_part b ≡ d + (pos_part a + neg_part b)
    → sub64 a b ≡ sub_ℕ 0 d
unfolding sub64
sub64_behind a b d h e = ground arith
