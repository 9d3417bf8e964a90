-- ===== src/RateLimit/Window/Laws.antt =====
-- The sliding window lets no more than the limit into any window, and its hint is right.
use x_beacon.Prelude.{
  ℕ, zero, suc, ◌+◌, ◌-◌, ◌*◌, ◌/◌, ◌≤◌, ◌≡◌, refl, ap, ◌∙◌, sym, Bool, true, false, some, List, [],
  ◌∷◌, ◌++◌, ltb, leb, length, arith, inl, inr, Bool-cases,
}
use x_beacon.Prelude.Int.{ℤ, pos, int64_max, wrap64, wrap64_small}
use x_beacon.RateLimit.Window.{
  Redis, keep, record_cost, retry_after_ms, RedisWindow, effective_cost, window_allow,
}

-- `n` times the same score
abbrev pub replicate : ℕ → ℕ → List ℕ
replicate zero x = []
replicate (suc n) x = x ∷ replicate n x

replicate-suc : (n x : ℕ) (l : List ℕ) → replicate n x ++ (x ∷ l) ≡ replicate (suc n) x ++ l
replicate-suc zero x l = refl
replicate-suc (suc n) x l = ap (λ k. x ∷ k) (replicate-suc n x l)

length-replicate : (n x : ℕ) (l : List ℕ) → length (replicate n x ++ l) ≡ n + length l
length-replicate zero x l = omega arith
length-replicate (suc n) x l = omega (arith, length-replicate n x l)

length-keep : (p : ℕ → Bool) (xs : List ℕ) → length (keep p xs) ≤ length xs
length-keep p [] = omega arith
length-keep p (x ∷ xs) = ground (arith, length-keep p xs)

-- the scores that lie in the window that ends now
abbrev pub in_window : ℕ → ℕ → List ℕ → List ℕ
in_window now window xs = keep (λ x. ltb now (x + window)) xs

module _ (rd : Redis) where
  open rd use {S, scores}

  record_cost_scores :
      (cost now : ℕ) (s : S) → scores (record_cost rd cost now s) ≡ replicate cost now ++ scores s
  unfolding record_cost
  record_cost_scores zero now s = refl
  record_cost_scores (suc cost) now s =
      record_cost_scores cost now (rd.zadd now (rd.incr s).0 (rd.incr s).1)
      ∙ (ap (λ l. replicate cost now ++ l) (rd.zadd_scores now s)
          ∙ replicate-suc cost now (scores s))

  -- the population that the script counts
  current : ℕ → ℕ → S → ℕ
  current now window s = length (in_window now window (scores s))

  zcard-zrem :
      (now window : ℕ) (s : S) → rd.zcard (rd.zremrangebyscore now window s) ≡ current now window s
  unfolding current
  zcard-zrem now window s =
      rd.zcard_scores (rd.zremrangebyscore now window s)
      ∙ ap (length {A = ℕ}) (rd.zrem_scores now window s)

  after_expire : (a b : ℕ) (s : S) → scores (rd.expire a (rd.expire b s)) ≡ scores s
  after_expire a b s = rd.expire_scores a (rd.expire b s) ∙ rd.expire_scores b s

module _ (rd : Redis) (r : RedisWindow) (now : ℕ) (cost : ℤ) (s : rd.S) where
  abbrev purged : rd.S
  purged = rd.zremrangebyscore now r.window s

  abbrev population : ℕ
  population = length (in_window now r.window (rd.scores s))

  abbrev counted : ℕ
  counted = population + effective_cost cost

  abbrev recorded : rd.S
  recorded =
      rd.expire (r.window / 1_000_000_000 + 5)
        (rd.expire (r.window / 1_000_000_000 + 5) (record_cost rd (effective_cost cost) now purged))

  purged_zcard : rd.zcard purged ≡ population
  unfolding current
  purged_zcard = zcard-zrem rd now r.window s

  full_lem :
      ltb r.limit (rd.zcard purged + effective_cost cost) ≡ true
      → ((window_allow rd r now cost s).0.allowed ≡ false)
        × ((window_allow rd r now cost s).1 ≡ purged)
        × ((window_allow rd r now cost s).0.remaining ≡ pos (r.limit - rd.zcard purged))
        × ((window_allow rd r now cost s).0.retry_after
            ≡ wrap64 (pos (retry_after_ms rd (rd.oldest purged) now r.window * 1_000_000)))
  unfolding window_allow
  full_lem h = (rw h, rw h, rw h, rw h)

  room_lem :
      ltb r.limit (rd.zcard purged + effective_cost cost) ≡ false
      → ((window_allow rd r now cost s).0.allowed ≡ true)
        × ((window_allow rd r now cost s).1 ≡ recorded)
        × ((window_allow rd r now cost s).0.remaining
            ≡ pos (r.limit - (rd.zcard purged + effective_cost cost)))
  unfolding window_allow
  room_lem h = (rw h, rw h, rw h)

  abbrev pub with_cost : List ℕ
  with_cost = replicate (effective_cost cost) now ++ in_window now r.window (rd.scores s)

  recorded_scores : rd.scores recorded ≡ with_cost
  recorded_scores =
      after_expire rd _ _ _
      ∙ (record_cost_scores rd (effective_cost cost) now purged
          ∙ ap (λ l. replicate (effective_cost cost) now ++ l) (rd.zrem_scores now r.window s))

  pub window_allow_lem :
      ((window_allow rd r now cost s).0.allowed ≡ leb counted r.limit)
      × ((window_allow rd r now cost s).0.allowed ≡ true
          → (rd.scores (window_allow rd r now cost s).1 ≡ with_cost)
            × ((window_allow rd r now cost s).0.remaining ≡ pos (r.limit - counted)))
      × ((window_allow rd r now cost s).0.allowed ≡ false
          → (rd.scores (window_allow rd r now cost s).1 ≡ in_window now r.window (rd.scores s))
            × ((window_allow rd r now cost s).0.remaining ≡ pos (r.limit - population)))
  window_allow_lem =
      let e = purged_zcard in
      elim (Bool-cases (ltb r.limit (rd.zcard purged + effective_cost cost))) [
        | inl full ↦
            let (refused, kept, rest, _) = full_lem full in
            (
              refused ∙ ground (arith, e, full),
              λ h. cc,
              λ _. (
                ap rd.scores kept ∙ rd.zrem_scores now r.window s,
                rest ∙ ap (λ n. pos (r.limit - n)) e,
              ),
            )
        | inr room ↦
            let (allowed, added, rest) = room_lem room in
            (
              allowed ∙ ground (arith, e, room),
              λ _. (
                ap rd.scores added ∙ recorded_scores,
                rest ∙ ap (λ n. pos (r.limit - (n + effective_cost cost))) e,
              ),
              λ h. cc,
            )
      ]

  -- At no time are more requests counted than the limit, whatever is asked at whatever times: the
  -- bound is kept by every call, allowed or denied.
  window_allow-limit :
      length (rd.scores s) ≤ r.limit → length (rd.scores (window_allow rd r now cost s).1) ≤ r.limit
  window_allow-limit h =
      let (verdict, if_allowed, if_denied) = window_allow_lem in
      elim (Bool-cases (window_allow rd r now cost s).0.allowed) [
        | inl allowed ↦
            let e = (if_allowed allowed).0 in
            let within : leb counted r.limit ≡ true = sym verdict ∙ allowed in
            let size =
              length-replicate (effective_cost cost) now (in_window now r.window (rd.scores s)) in
            let h' = ap (length {A = ℕ}) e in ground (arith, h', size, within)
        | inr denied ↦ omega (
          arith,
          ap (length {A = ℕ}) (if_denied denied).0,
          length-keep (λ x. ltb now (x + r.window)) (rd.scores s),
        )
      ]

  hint_fits :
      (m : ℕ)
      → m + r.window + 999_999 ≤ now + int64_max
      → retry_after_ms rd (some m) now r.window * 1_000_000 ≤ int64_max
  unfolding retry_after_ms
  hint_fits m h = omega (arith, h)

  long_enough : (m : ℕ) → m + r.window ≤ now + retry_after_ms rd (some m) now r.window * 1_000_000
  unfolding retry_after_ms
  long_enough m = omega arith

  -- The hint of a denial is long enough: when it has passed, the oldest request of the window has
  -- left it. The wait, rounded up to milliseconds, fits the 64 bits of a time.Duration.
  pub retry_hint_enough :
      {m : ℕ}
      → (window_allow rd r now cost s).0.allowed ≡ false
      → rd.oldest (window_allow rd r now cost s).1 ≡ some m
      → m + r.window + 999_999 ≤ now + int64_max
      → (hint : ℕ) × ((window_allow rd r now cost s).0.retry_after ≡ pos hint)
        × (m + r.window ≤ now + hint)
  retry_hint_enough {m} denied first fits =
      elim (Bool-cases (ltb r.limit (rd.zcard purged + effective_cost cost))) [
        | inl full ↦
            let (_, kept, _, hint) = full_lem full in
            let oldest : rd.oldest purged ≡ some m = ap rd.oldest (sym kept) ∙ first in
            (
              retry_after_ms rd (some m) now r.window * 1_000_000,
              hint
                  ∙ (ap (λ o. wrap64 (pos (retry_after_ms rd o now r.window * 1_000_000))) oldest
                      ∙ wrap64_small _ (hint_fits m fits)),
              long_enough m,
            )
        | inr room ↦ cc ((room_lem room).0, denied)
      ]
