-- ===== src/Pricing/Cost.antt =====
-- The cost of a request, where nothing overflows.
use x_beacon.Prelude.{ℕ, ◌+◌, ◌*◌, ◌/◌, ◌≤◌, ◌<◌, ◌≡◌, false, arith, str_eq}
use x_beacon.Prelude.Int.{pos, wrap64_small, add64, int64_max}
use x_beacon.Pricing.{Rate, mul64, quot_1000, cost}

half : (a b : ℕ) → a * b ≤ int64_max → quot_1000 (mul64 (pos a) (pos b)) ≡ pos (a * b / 1000)
unfolding quot_1000 mul64
half a b h = rw (wrap64_small (a * b) h)

sum : (m n : ℕ) → m + n ≤ int64_max → add64 (pos m) (pos n) ≡ pos (m + n)
unfolding add64
sum m n h = wrap64_small (m + n) h

-- The cost of a priced model in whole micro-units is that of its tokens, the halves of the prompt and
-- of the completion each rounded down; so it is at most the exact price, and less than two units
-- below it. The products, and what they come to
-- together, are taken to fit an `int64`; the counts and the rates are not negative.
pub cost_bounds :
    (rate : Rate) (p c i o : ℕ)
    → str_eq rate.model "" ≡ false
    → rate.input_per_1k ≡ pos i
    → rate.output_per_1k ≡ pos o
    → p * i + c * o ≤ int64_max
    → let n = p * i / 1000 + c * o / 1000 in
      (cost rate (pos p) (pos c) ≡ pos n)
      × (1000 * n ≤ p * i + c * o)
      × (p * i + c * o < 1000 * n + 2000)
unfolding cost
cost_bounds rate p c i o priced hi ho fits =
    let h1 : p * i ≤ int64_max = omega arith in
    let h2 : c * o ≤ int64_max = omega arith in
    (
      rw (priced, hi, ho, half p i h1, half c o h2)
          (sum (p * i / 1000) (c * o / 1000) (omega arith)),
      omega arith,
      omega arith,
    )
