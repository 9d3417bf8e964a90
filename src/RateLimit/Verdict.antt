-- ===== src/RateLimit/Verdict.antt =====
-- What the check of all rules decides: the first denial or failure, else the tightest allowance.
use x_beacon.Prelude.{
  ◌≡◌, refl, ap, Bool, true, false, ◌||◌, not, Result, ok, err, List, [], ◌∷◌, ◌++◌, ◌⊎◌, inl, inr,
  All, length, count_if, sym, ◌∙◌, Result-cases, Bool-cases, if◌then◌else◌,
}
use x_beacon.Prelude.Int.{ℤ, pos, ltz, lez}
use x_beacon.Errors.{Err}
use x_beacon.RateLimit.Asked.{stops, answers, asked_state, check_state}
use x_beacon.RateLimit.{
  Decision, KeyContext, CostUnit, Rule, rule_allow, applies, tighter, check_loop, check,
  after_answer,
}

-- the answer allows, and leaves at least as much as `d`
abbrev pub Allows : Decision → Result Err Decision → Type 0
Allows d (ok a) = (a.allowed ≡ true) × (lez d.remaining a.remaining ≡ true)
Allows d (err e) = ⊥

abbrev pub IsAnswer : Decision → List (Result Err Decision) → Type 0
IsAnswer d [] = ⊥
IsAnswer d (a ∷ l) = (a ≡ ok d) ⊎ IsAnswer d l

module _ {S : Type 0} (k : KeyContext) (cost : ℤ) (unit : CostUnit) where
  -- a limiter never reports a negative rest with an allowance
  abbrev pub ReportsRest : Rule S → Type 0
  ReportsRest r =
      (s : S) (d : Decision) → (rule_allow r k cost s).0 ≡ ok d → ltz d.remaining (pos 0) ≡ false

-- a failure or a denial is the last answer, behind allowances only
abbrev pub LastOf : Result Err Decision → List (Result Err Decision) → Type 0
LastOf a l =
    (before : List (Result Err Decision)) × (l ≡ before ++ a ∷ [])
    × All (λ x. stops x ≡ false) before

asked' :
    {l : List (Result Err Decision)} (later : List (Result Err Decision)) (a : Result Err Decision)
    {b : Bool}
    → l ≡ a ∷ (if stops a then [] else later)
    → stops a ≡ b
    → l ≡ a ∷ (if b then [] else later)
asked' later a e h = e ∙ ap (λ c. a ∷ (if c then [] else later)) h

abbrev smaller : ℤ → ℤ → ℤ
smaller x y = if ltz x (pos 0) || ltz y x then y else x

tighter_one : (t a : Decision) → (tighter t a ≡ t) ⊎ (tighter t a ≡ a)
unfolding tighter
tighter_one t a = elim (Bool-cases (ltz t.remaining (pos 0) || ltz a.remaining t.remaining)) [
  | inl new ↦ inr (rw new)
  | inr old ↦ inl (rw old)
]

module _ {S : Type 0} (k : KeyContext) (cost : ℤ) (unit : CostUnit) where
  abbrev Loop : List (Rule S) → Decision → S → Result Err Decision × S
  Loop = check_loop k cost unit

  abbrev asked_answers : List (Rule S) → S → List (Result Err Decision)
  asked_answers = answers k cost unit

  loop_skip :
      (r : Rule S) (rules : List (Rule S)) (t : Decision) (s : S)
      → applies unit r ≡ false
      → (Loop (r ∷ rules) t s ≡ Loop rules t s)
        × (asked_answers (r ∷ rules) s ≡ asked_answers rules s)
  unfolding check_loop answers
  loop_skip r rules t s h = (rw h, rw h)

  loop_apply :
      (r : Rule S) (rules : List (Rule S)) (t : Decision) (s : S) (a : Result Err Decision)
      → applies unit r ≡ true
      → (rule_allow r k cost s).0 ≡ a
      → (Loop (r ∷ rules) t s
          ≡ after_answer k cost unit t (a, (rule_allow r k cost s).1) (Loop rules))
        × (asked_answers (r ∷ rules) s
            ≡ a ∷ (if stops a then [] else asked_answers rules (rule_allow r k cost s).1))
  unfolding check_loop answers
  loop_apply r rules t s a h e = (rw (h, e), rw (h, e))

  -- what is known of a check that allows
  record Allowance (d t : Decision) (rules : List (Rule S)) (l : List (Result Err Decision))
      : Type 0 where
    all_allow : All (Allows d) l
    all_asked : length l ≡ count_if (applies unit) rules
    below_start : (ltz t.remaining (pos 0) ≡ true) ⊎ (lez d.remaining t.remaining ≡ true)
    from : (d ≡ t) ⊎ IsAnswer d l
    replaced : ltz t.remaining (pos 0) ≡ true → (l ≡ []) ⊎ IsAnswer d l

  after_err :
      (t : Decision) (x : Err) (s : S) (next : Decision → S → Result Err Decision × S)
      → (after_answer k cost unit t (err x, s) next).0 ≡ err x
  unfolding after_answer
  after_err t x s next = refl

  after_denial :
      (t a : Decision) (s : S) (next : Decision → S → Result Err Decision × S)
      → a.allowed ≡ false
      → (after_answer k cost unit t (ok a, s) next).0 ≡ ok a
  unfolding after_answer
  after_denial t a s next h = rw h

  after_allowance :
      (t a : Decision) (s : S) (next : Decision → S → Result Err Decision × S)
      → a.allowed ≡ true
      → after_answer k cost unit t (ok a, s) next ≡ next (tighter t a) s
  unfolding after_answer
  after_allowance t a s next h = rw h

  loop-stops :
      (rules : List (Rule S)) (t : Decision) (s : S) (o : Result Err Decision)
      → t.allowed ≡ true
      → (Loop rules t s).0 ≡ o
      → stops o ≡ true
      → LastOf o (asked_answers rules s)
  loop-stops [] t s o start e h =
      let e' : ok t ≡ o = unfold check_loop in e in cc (ap stops e', h, denial start)
    where
      denial : t.allowed ≡ true → stops (ok t) ≡ false
      denial p = rw p
  loop-stops (r ∷ rules) t s o start e h = elim (Bool-cases (applies unit r)) [
    | inr other ↦
        let (loop, asked) = loop_skip r rules t s other in
        rw asked (loop-stops rules t s o start (sym (ap (λ z. z.0) loop) ∙ e) h)
    | inl app ↦ elim (Result-cases (rule_allow r k cost s).0) [
      | inr (x, bad) ↦
          let (loop, asked) = loop_apply r rules t s (err x) app bad in
          let same =
            sym (after_err t x (rule_allow r k cost s).1 (Loop rules))
            ∙ (sym (ap (λ z. z.0) loop) ∙ e) in
          rw asked ([], ap (λ z. z ∷ []) same, tt)
      | inl (a, fine) ↦
          let s' = (rule_allow r k cost s).1 in
          let (loop, asked) = loop_apply r rules t s (ok a) app fine in
          elim (Bool-cases a.allowed) [
            | inr denied ↦
                let same =
                  sym (after_denial t a s' (Loop rules) denied) ∙ (sym (ap (λ z. z.0) loop) ∙ e) in
                rw (asked' _ (ok a) asked (ap not denied)) ([], ap (λ z. z ∷ []) same, tt)
            | inl allowed ↦
                let onward =
                  sym (ap (λ z. z.0) (loop ∙ after_allowance t a s' (Loop rules) allowed)) ∙ e in
                let still : (tighter t a).allowed ≡ true = elim (tighter_one t a) [
                  | inl p ↦ rw p start
                  | inr p ↦ rw p allowed
                ] in
                let (before, split, quiet) = loop-stops rules (tighter t a) s' o still onward h in
                rw (asked' _ (ok a) asked (ap not allowed))
                  (ok a ∷ before, ap (λ l. ok a ∷ l) split, (rw allowed, quiet))
          ]
    ]
  ]

  -- A check that denies or fails returns the first denial or failure, as the rule's limiter gave
  -- it: the rules of the unit before it have allowed. The limiters are left as they are when these
  -- rules and the last are asked once, in order, and no rule after it.
  pub check-stops :
      (rules : List (Rule S)) (s : S) (o : Result Err Decision)
      → (check k cost unit rules s).0 ≡ o
      → stops o ≡ true
      → LastOf o (answers k cost unit rules s)
        × ((check k cost unit rules s).1 ≡ asked_state k cost unit rules s)
  unfolding check
  check-stops [] s o e h = cc (ap stops e, h)
  check-stops (r ∷ rules) s o e h =
      (loop-stops (r ∷ rules) _ s o refl e h, check_state k cost unit (r ∷ rules) s)
