-- ===== src/Tests/Worlds.antt =====
-- A concrete clock, random source, breaker and provider for the runs of the router.
use x_beacon.Prelude.{
  ℕ, ◌*◌, ◌/◌, ◌≤◌, ◌≡◌, refl, true, false, Result, ok, err, Option, none, some, String, List, [],
  ◌∷◌, ltb, leb, arith,
}
use x_beacon.Prelude.Int.{ℤ, pos, negsuc, int64_max}
use x_beacon.Errors.{Err, bare, upstream, is_breaker_error}
use x_beacon.Router.Policy.{Float}
use x_beacon.Router.World.{World}

-- fractions in millionths
abbrev pub scale : ℕ → ℤ → ℤ
scale r (pos n) = pos (r * n / 1_000_000)
scale r (negsuc n) = negsuc (r * n / 1_000_000)

mul_mono : (r k n : ℕ) → r ≤ k → r * n ≤ k * n
mul_mono r k n h = grind arith

le_of_test : (a b : ℕ) → leb a b ≡ false → b ≤ a
le_of_test a b h = ground arith

pub scale_range :
    (r n : ℕ)
    → ltb r 0 ≡ false
    → leb 1_000_000 r ≡ false
    → n ≤ int64_max
    → (m : ℕ) × (scale r (pos n) ≡ pos m) × (m ≤ n)
scale_range r n h k b =
    (r * n / 1_000_000, refl, omega (arith, mul_mono r 1_000_000 n (le_of_test 1_000_000 r k)))

abbrev pub millionths : Float
millionths = record {
  F = ℕ;
  lt = ltb;
  ge = λ a b. leb b a;
  f0 = 0;
  f1 = 1_000_000;
  near_one = 999_999;
  scale = scale;
  f0_below = refl;
  f0_above = refl;
  near_one_below = refl;
  near_one_above = refl;
  scale_range = scale_range;
}

-- The providers' answers, in the order in which they are given; then always a success.
abbrev pub Script : Type 0
Script = List (Result Err ℕ)

abbrev pub answer : String → Script → Result Err ℕ × Script
answer n [] = (ok 0, [])
answer n (a ∷ rest) = (a, rest)

pub no_refusal :
    (n : String) (w : Script) {e : Err}
    → ◌≡◌ {A = Option Err} none (some e)
    → is_breaker_error e ≡ true
no_refusal n w h = cc

abbrev pub scripted : World String ℕ millionths
scripted = record {
  W = Script;
  name = λ p. p;
  allow = λ n w. (none, w);
  done = λ n o w. w;
  call = answer;
  since = λ start w. (pos 0, w);
  now = λ w. (pos 0, w);
  random = λ w. (500_000, w);
  sleep = λ d w. (none, w);
  refusal = no_refusal;
}

-- two transient failures, a success, and more that nobody asks for
abbrev pub flaky : Script
flaky = err (bare upstream) ∷ err (bare upstream) ∷ ok 7 ∷ ok 8 ∷ []
