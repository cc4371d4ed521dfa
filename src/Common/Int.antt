-- ===== src/Common/Int.antt =====
-- Go's int on a 64-bit machine: integers, and the wrap-around of a result.
use Prim.Native.Nat.{ℕ, suc, ◌+◌, ◌-◌, ◌%◌, ◌<◌}
use mathlib.Core.Path.{◌≡◌}
use mathlib.Core.Bool.{Bool}
use native.Mathlib.Omega.{arith}
use ytmpt.Common.Tests.{if◌then◌else◌, ltb, leb}

-- `negsuc n` is -(n + 1).
pub data ℤ : Type 0 where
  pos : ℕ → ℤ
  negsuc : ℕ → ℤ

abbrev pub pos_part : ℤ → ℕ
pos_part (pos n) = n
pos_part (negsuc n) = 0

abbrev pub neg_part : ℤ → ℕ
neg_part (pos n) = 0
neg_part (negsuc n) = suc n

abbrev pub sub_ℕ : ℕ → ℕ → ℤ
sub_ℕ a b = if leb b a then pos (a - b) else negsuc (b - a - 1)

abbrev pub lt_ℤ : ℤ → ℤ → Bool
lt_ℤ a b = ltb (pos_part a + neg_part b) (pos_part b + neg_part a)

abbrev pub le_ℤ : ℤ → ℤ → Bool
le_ℤ a b = leb (pos_part a + neg_part b) (pos_part b + neg_part a)

-- The value of a 64-bit pattern in two's complement.
abbrev pub to_signed : ℕ → ℤ
to_signed w = if ltb w 9223372036854775808 then pos w else negsuc (18446744073709551615 - w)

-- What an int holds after an operation whose exact result is the natural number `n`.
unfoldable pub wrap : ℕ → ℤ
wrap n = to_signed (n % 18446744073709551616)

pub wrap_small : (n : ℕ) → n < 9223372036854775808 → wrap n ≡ pos n
unfolding wrap
wrap_small n h = ground arith

-- A percentage kept between 0 and 100: `if p < 0 { p = 0 }` and `if p > 100 { p = 100 }`.
abbrev pub clamp_pct : ℤ → ℕ
clamp_pct (pos n) = if ltb 100 n then 100 else n
clamp_pct (negsuc n) = 0
