-- ===== src/Chat/Handler/RetryAfter.antt =====
-- The header Retry-After of a rejection by the limits on tokens.
use x_beacon.Prelude.{ℕ, zero, suc, true, ◌+◌, ◌-◌, ◌/◌, ◌≤◌, ◌<◌, ◌≡◌, refl, ap, [], ◌∷◌, arith}
use x_beacon.Prelude.Int.{pos, negsuc, ltz, negate, add64, wrap64, int64_max}
use x_beacon.Chat.Effects.{retry_after}
use x_beacon.Chat.Handler.{retry_after_header, whole_seconds}

wrapped_negative :
    (m : ℕ)
    → int64_max < m
    → m < 18_446_744_073_709_551_616
    → wrap64 (pos m) ≡ negsuc (18_446_744_073_709_551_615 - m)
wrapped_negative m h k = ground arith

negate_suc : (q : ℕ) → 0 < q → negate (pos q) ≡ negsuc (q - 1)
negate_suc zero h = absurd (omega (arith, h))
negate_suc (suc q) h = ap negsuc (omega arith)

positive : (n : ℕ) → 0 < n → ltz (pos 0) (pos n) ≡ true
positive n h = ground arith

-- A delay in the last second of the range of `int64`, such as the one for a request that can never
-- be let in, overflows where it is rounded up: the header is a negative number.
pub retry_after_header_overflow :
    (n : ℕ)
    → n ≤ int64_max
    → int64_max < n + 999_999_999
    → (k : ℕ) × (retry_after_header (pos n) ≡ retry_after (negsuc k) ∷ [])
unfolding retry_after_header whole_seconds add64
retry_after_header_overflow n h over =
    let left = 18_446_744_073_709_551_615 - (n + 999_999_999) in
    let wrapped = wrapped_negative (n + 999_999_999) over (omega (arith, h)) in
    (
      (left + 1) / 1_000_000_000 - 1,
      rw
          (
            positive n (omega (arith, over)),
            wrapped,
            negate_suc ((left + 1) / 1_000_000_000) (omega (arith, h)),
          )
          refl,
    )
