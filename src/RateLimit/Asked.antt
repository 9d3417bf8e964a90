-- ===== src/RateLimit/Asked.antt =====
-- Which rules a check asks, and the state that they leave: a reference that keeps no decision.
use x_beacon.Prelude.{
  ◌≡◌, refl, Bool, true, not, Result, ok, err, List, [], ◌∷◌, Result-cases, Bool-cases, inl, inr,
  if◌then◌else◌,
}
use x_beacon.Prelude.Int.{ℤ}
use x_beacon.Errors.{Err}
use x_beacon.RateLimit.{
  Decision, KeyContext, CostUnit, Rule, rule_allow, applies, check_loop, check, after_answer,
}

-- an answer that ends the check
abbrev pub stops : Result Err Decision → Bool
stops (ok d) = not d.allowed
stops (err e) = true

module _ {S : Type 0} (k : KeyContext) (cost : ℤ) (unit : CostUnit) where
  -- the answers of the rules of the unit, in their order, up to the first that ends the check
  unfoldable pub answers : List (Rule S) → S → List (Result Err Decision)
  answers [] s = []
  answers (r ∷ rules) s =
      let (a, s') = rule_allow r k cost s in
      let later = answers rules s' in
      let skipped = answers rules s in
      if applies unit r then a ∷ (if stops a then [] else later) else skipped

  -- the state after the rules of the unit have been asked once each, in their order, up to the first
  -- answer that ends the check
  unfoldable pub asked_state : List (Rule S) → S → S
  asked_state [] s = s
  asked_state (r ∷ rules) s =
      let (a, s') = rule_allow r k cost s in
      let later = asked_state rules s' in
      let skipped = asked_state rules s in
      if applies unit r then (if stops a then s' else later) else skipped

  loop_state :
      (rules : List (Rule S)) (t : Decision) (s : S)
      → (check_loop k cost unit rules t s).1 ≡ asked_state rules s
  unfolding check_loop asked_state after_answer
  loop_state [] t s = refl
  loop_state (r ∷ rules) t s = elim (Bool-cases (applies unit r)) [
    | inr other ↦ rw other (loop_state rules t s)
    | inl app ↦ elim (Result-cases (rule_allow r k cost s).0) [
      | inr (x, bad) ↦ rw (app, bad) refl
      | inl (d, fine) ↦ elim (Bool-cases d.allowed) [
        | inr denied ↦ rw (app, fine, denied) refl
        | inl allowed ↦ rw (app, fine, allowed) (loop_state rules _ (rule_allow r k cost s).1)
      ]
    ]
  ]

  pub check_state :
      (rules : List (Rule S)) (s : S) → (check k cost unit rules s).1 ≡ asked_state rules s
  unfolding check asked_state
  check_state [] s = refl
  check_state (r ∷ rules) s = loop_state (r ∷ rules) _ s
