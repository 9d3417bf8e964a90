-- ===== src/Router/Policy/Envelope.antt =====
-- The doubling loop computes the envelope that the algorithm promises, in spite of the wrap-around
-- of `int64`; and what the delay is then.
use native.Mathlib.Nat.{pow-suc}
use x_beacon.Prelude.{
  ℕ, zero, suc, ◌-◌, ◌*◌, ◌^◌, ◌≤◌, ◌<◌, min, ◌≡◌, refl, ◌∙◌, ap, true, false, inl, inr, Bool-cases,
  leb, arith, ◌==◌, ◌⊎◌, if◌then◌else◌,
}
use x_beacon.Prelude.Int.{ℤ, pos, ltz, double64, int64_max, double64_exact, double64_overflow}
use x_beacon.Router.Policy.{RetryPolicy, Float, grow, envelope, clamp, backoff_duration}

pow_pos : (n : ℕ) → 1 ≤ 2 ^ n
pow_pos zero = omega arith
pow_pos (suc n) = omega (arith, pow_pos n, pow-suc 2 n)

le-mul_pow : (e n : ℕ) → e ≤ e * 2 ^ n
le-mul_pow e n = grind (arith, pow_pos n)

le-double_pow : (e n : ℕ) → 2 * e ≤ e * 2 ^ suc n
le-double_pow e n = grind (arith, pow_pos n, pow-suc 2 n)

-- one more doubling, done first or last
double_first : (e n : ℕ) → 2 * e * 2 ^ n ≡ e * 2 ^ suc n
double_first e n = rw (pow-suc) (omega arith)

abbrev capped : ℤ → ℤ → ℤ
capped m e = if ltz m e then m else e

capped_lem : (m e : ℕ) → capped (pos m) (pos e) ≡ pos (min m e)
capped_lem m e = ground arith

-- one round of the loop: the limit, when the doubled value passes it or wraps around
grow-suc :
    (n e m : ℕ)
    → 0 < e
    → e ≤ int64_max
    → m ≤ int64_max
    → (grow (suc n) (pos e) (pos m) ≡ pos m) × (m ≤ 2 * e)
      ⊎ (grow (suc n) (pos e) (pos m) ≡ grow n (pos (2 * e)) (pos m)) × (2 * e ≤ int64_max)
unfolding grow
grow-suc n e m he ce cm = elim (Bool-cases (leb (2 * e) int64_max)) [
  | inl fits ↦ rw (double64_exact e (ground arith)) (ground arith)
  | inr over ↦ ground (arith, double64_overflow e)
]

grow-zero : (e m : ℤ) → grow zero e m ≡ e
unfolding grow
grow-zero e m = refl

capped-grow :
    (n e m : ℕ)
    → 0 < e
    → e ≤ int64_max
    → m ≤ int64_max
    → capped (pos m) (grow n (pos e) (pos m)) ≡ pos (min m (e * 2 ^ n))
capped-grow zero e m he ce cm = rw grow-zero (ground arith)
capped-grow (suc n) e m he ce cm = elim (grow-suc n e m he ce cm) [
  | inl (stop, big) ↦ rw stop (ground (arith, le-double_pow e n))
  | inr (more, fits) ↦
      rw more
        (capped-grow n (2 * e) m (omega arith) fits cm ∙ ap (λ k. pos (min m k)) (double_first e n))
]

-- The delay envelope before retry `attempt` is min(MaxBackoff, BaseBackoff * 2 ^ (attempt - 1)) as
-- documented, for every attempt from 1 on and any positive base and any cap that an `int64` holds:
-- the wrap-around of the doubling never shows.
pub envelope_lem :
    (p : RetryPolicy) (base limit attempt : ℕ)
    → p.base_backoff ≡ pos base
    → p.max_backoff ≡ pos limit
    → 0 < base
    → base ≤ int64_max
    → limit ≤ int64_max
    → envelope p (suc attempt) ≡ pos (min limit (base * 2 ^ attempt))
unfolding envelope
envelope_lem p base limit attempt eb ec hb cb cc' =
    let one_less : suc attempt - 1 ≡ attempt = omega arith in
    rw (eb, ec, one_less) (capped-grow attempt base limit hb cb cc')

-- With a zero base the documented envelope is 0 for every attempt, and the code's is the cap from
-- the second retry on.
pub envelope_zero_base :
    (p : RetryPolicy) (attempt : ℕ)
    → p.base_backoff ≡ pos 0
    → envelope p (suc (suc attempt)) ≡ p.max_backoff
unfolding envelope grow double64
envelope_zero_base p attempt e =
    let one_less : suc (suc attempt) - 1 ≡ suc attempt = omega arith in
    rw (e, one_less) (ground arith)

module _ (fl : Float) where
  open fl use {F, lt, ge, f0, f1}

  clamp_range : (r : F) → (lt (clamp fl r) f0 ≡ false) × (ge (clamp fl r) f1 ≡ false)
  unfolding clamp
  clamp_range r = ground (arith, fl.f0_below, fl.f0_above, fl.near_one_below, fl.near_one_above)

  -- The delay before retry `attempt`, whatever the random sample: a positive Retry-After hint of
  -- the upstream verbatim; else a value from 0 to min(MaxBackoff, BaseBackoff * 2 ^ (attempt - 1)).
  -- BaseBackoff is positive, and both are of the range of an `int64`, MaxBackoff not negative.
  pub backoff_duration_bounds :
      (p : RetryPolicy) (base limit attempt : ℕ) (retry_after : ℤ) (r : F)
      → p.base_backoff ≡ pos base
      → p.max_backoff ≡ pos limit
      → 0 < base
      → base ≤ int64_max
      → limit ≤ int64_max
      → (ltz (pos 0) retry_after ≡ true
          → backoff_duration fl p (suc attempt) retry_after r ≡ retry_after)
        × (ltz (pos 0) retry_after ≡ false
            → (d : ℕ) × (backoff_duration fl p (suc attempt) retry_after r ≡ pos d)
              × (d ≤ min limit (base * 2 ^ attempt)))
  unfolding backoff_duration
  backoff_duration_bounds p base limit attempt retry_after r eb ec hb cb hc = (
    λ hint. rw hint,
    λ silent.
        let later : (suc attempt == 0) ≡ false = ground arith in
        rw (silent, later, envelope_lem p base limit attempt eb ec hb cb hc)
          (fl.scale_range (clamp fl r) _ (clamp_range r).0 (clamp_range r).1 (omega arith)),
  )
