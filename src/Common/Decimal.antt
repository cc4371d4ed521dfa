-- ===== src/Common/Decimal.antt =====
-- strconv.Atoi on a 64-bit machine, and the decimal text of a number (%d).
use ytmpt.Common.Tests.{ltb, leb, ◌==◌, if◌then◌else◌, ◌>>=◌}
use ytmpt.Common.Text.{Text, is_empty}
use ytmpt.Common.Int.{ℤ, pos, sub_ℕ}
use ytmpt.Common.Lists.{length}
use Prim.Native.Nat.{ℕ, zero, suc, ◌+◌, ◌-◌, ◌*◌, ◌/◌, ◌%◌, ◌≤◌, ◌<◌}
use mathlib.Core.Path.{◌≡◌}
use mathlib.Core.Bool.{Bool, true, false, ◌&&◌}
use mathlib.Core.Option.{Option, none, some}
use mathlib.Core.List.{[], ◌∷◌}
use native.Mathlib.Omega.{arith}

abbrev pub is_digit : ℕ → Bool
is_digit c = leb b'0' c && leb c b'9'

-- The number that the digits stand for; `none` at another byte.
unfoldable pub digits : ℕ → Text → Option ℕ
digits acc [] = some acc
digits acc (c ∷ s) =
    let rest = digits (acc * 10 + (c - b'0')) s in if is_digit c then rest else none

-- A magnitude that is not empty and fits below the bound.
unfoldable pub magnitude : ℕ → Text → Option ℕ
unfolding digits
magnitude most s =
    if is_empty s then none else (digits 0 s >>= λ n. if leb n most then some n else none)

unfoldable pub atoi : Text → Option ℤ
atoi [] = none
atoi (c ∷ s) =
    if c == b'-'
    then (magnitude 9223372036854775808 s >>= λ n. some (sub_ℕ 0 n))
    else if c == b'+'
    then (magnitude 9223372036854775807 s >>= λ n. some (pos n))
    else (magnitude 9223372036854775807 (c ∷ s) >>= λ n. some (pos n))

unfoldable pub pow10 : ℕ → ℕ
pow10 zero = 1
pow10 (suc k) = 10 * pow10 k

step_bound : (acc d n p : ℕ) → d ≤ 9 → n < (acc * 10 + d + 1) * p → n < (acc + 1) * (10 * p)
step_bound acc d n p h k = grind arith

pub digits-lt :
    (acc : ℕ) (s : Text) (n : ℕ) → digits acc s ≡ some n → n < (acc + 1) * pow10 (length s)
unfolding digits pow10
digits-lt acc [] n h = ground arith
digits-lt acc (c ∷ s) n h =
    step_bound acc (c - b'0') n (pow10 (length s)) (ground arith)
      (digits-lt (acc * 10 + (c - b'0')) s n (ground arith))

pow10_mono : (a b : ℕ) → a ≤ b → pow10 a ≤ pow10 b
unfolding pow10
pow10_mono zero zero h = omega arith
pow10_mono zero (suc b) h = omega (arith, pow10_mono zero b (omega arith))
pow10_mono (suc a) zero h = absurd (omega arith)
pow10_mono (suc a) (suc b) h = omega (arith, pow10_mono a b (omega arith))

-- A text of at most k bytes stands for a number below 10 ^ k.
pub magnitude-lt :
    (most k : ℕ) (s : Text) (n : ℕ) → length s ≤ k → magnitude most s ≡ some n → n < pow10 k
unfolding magnitude
magnitude-lt most k s n h e =
    let below : n < (0 + 1) * pow10 (length s) = digits-lt 0 s n (ground arith) in
    omega (arith, pow10_mono (length s) k h)

pow10_pos : (k : ℕ) → 0 < pow10 k
unfolding pow10
pow10_pos zero = omega arith
pow10_pos (suc k) = omega (arith, pow10_pos k)

-- A value of Atoi that is not negative is below 10 ^ k for a text of at most k bytes.
pub atoi-lt : (k : ℕ) (s : Text) (n : ℕ) → length s ≤ k → atoi s ≡ some (pos n) → n < pow10 k
unfolding atoi
atoi-lt k [] n h e = cc
atoi-lt k (c ∷ s) n h e = ground (
  arith,
  pow10_pos k,
  λ (m : ℕ). magnitude-lt 9223372036854775808 k s m,
  magnitude-lt 9223372036854775807 k s n,
  magnitude-lt 9223372036854775807 k (c ∷ s) n,
)

-- %d of a number: its decimal digits, the last one first found.
unfoldable pub decimal_from : ℕ → ℕ → Text → Text
decimal_from zero n out = out
decimal_from (suc fuel) n out = elim (ltb n 10) [
  | true ↦ (b'0' + n) ∷ out
  | false ↦ decimal_from fuel (n / 10) ((b'0' + n % 10) ∷ out)
]

unfoldable pub decimal : ℕ → Text
unfolding decimal_from
decimal n = decimal_from (suc n) n []

-- %02d of a number.
unfoldable pub two_digits : ℕ → Text
unfolding decimal
two_digits n = if ltb n 10 then b'0' ∷ decimal n else decimal n
