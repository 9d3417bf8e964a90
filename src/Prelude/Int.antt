-- ===== src/Prelude/Int.antt =====
-- Signed integers, and the wrap-around of `int64` (which is also Go's `int` and `time.Duration`).
use Prim.Native.Nat.{ℕ, zero, suc, ◌+◌, ◌-◌, ◌*◌, ◌%◌, ◌≤◌, ◌<◌}
use mathlib.Core.Path.{◌≡◌}
use mathlib.Core.Bool.{Bool, true, false}
use native.Mathlib.Omega.{arith}
use x_beacon.Prelude.Tests.{ltb, leb, if◌then◌else◌}

-- `negsuc n` is -(n + 1).
pub data ℤ : Type 0 where
  pos : ℕ → ℤ
  negsuc : ℕ → ℤ

-- a - b, as an integer.
abbrev pub sub_ℕ : ℕ → ℕ → ℤ
sub_ℕ a b = if leb b a then pos (a - b) else negsuc (b - a - 1)

infixl 65 ◌+ℤ◌
abbrev pub ◌+ℤ◌ : ℤ → ℤ → ℤ
pos a +ℤ pos b = pos (a + b)
pos a +ℤ negsuc b = sub_ℕ a (suc b)
negsuc a +ℤ pos b = sub_ℕ b (suc a)
negsuc a +ℤ negsuc b = negsuc (a + b + 1)

abbrev pub negate : ℤ → ℤ
negate (pos zero) = pos 0
negate (pos (suc n)) = negsuc n
negate (negsuc n) = pos (suc n)

abbrev pub ltz : ℤ → ℤ → Bool
ltz (pos a) (pos b) = ltb a b
ltz (pos a) (negsuc b) = false
ltz (negsuc a) (pos b) = true
ltz (negsuc a) (negsuc b) = ltb b a

abbrev pub lez : ℤ → ℤ → Bool
lez (pos a) (pos b) = leb a b
lez (pos a) (negsuc b) = false
lez (negsuc a) (pos b) = true
lez (negsuc a) (negsuc b) = leb b a

abbrev pub int64_max : ℕ
int64_max = 9223372036854775807

-- The value that 64 bits of two's complement hold after an operation.
abbrev pub wrap64 : ℤ → ℤ
wrap64 (pos n) =
    let m = n % 18446744073709551616 in
    if leb m int64_max then pos m else negsuc (18446744073709551615 - m)
wrap64 (negsuc n) =
    let m = n % 18446744073709551616 in
    if leb m int64_max then negsuc m else pos (18446744073709551615 - m)

unfoldable pub add64 : ℤ → ℤ → ℤ
add64 a b = wrap64 (a +ℤ b)

-- Twice an `int64`.
unfoldable pub double64 : ℤ → ℤ
double64 (pos n) = wrap64 (pos (2 * n))
double64 (negsuc n) = wrap64 (negsuc (2 * n + 1))

pub wrap64_small : (n : ℕ) → n ≤ int64_max → wrap64 (pos n) ≡ pos n
wrap64_small n h = ground arith

-- No wrap-around below the limit.
pub double64_exact : (n : ℕ) → 2 * n ≤ int64_max → double64 (pos n) ≡ pos (2 * n)
unfolding double64
double64_exact n h = ground arith

-- A value of 2 ^ 62 or more turns negative when it is doubled.
pub double64_overflow :
    (n : ℕ) → n ≤ int64_max → int64_max < 2 * n → lez (double64 (pos n)) (pos 0) ≡ true
unfolding double64
double64_overflow n h k = ground arith
