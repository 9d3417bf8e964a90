-- ===== src/Route/Eager.antt =====
-- The classifier, with its lazy counts and its early exits, is the first match of an eager loop over
-- the same checks.
use x_beacon.Prelude.{
  ℕ, ◌≡◌, refl, ◌∙◌, Bool, true, false, ◌&&◌, inl, inr, Option, String, List, [], ◌∷◌,
  if◌then◌else◌, Bool-cases, arith,
}
use x_beacon.Prompt.Tokens.{Strings}
use x_beacon.Route.{
  ChatRequest, Decision, no_decision, Dice, Condition, Rule, RuleClassifier, count_tokens,
  join_user_content, model_ok, asks_tokens, tokens_ok, asks_keywords, keywords_ok, cached,
  check_tokens_of, check_keywords_of, roll_lost, classify_loop,
}

module _ (go : Strings) (path_match : String → String → Option Bool) {dice : Dice}
    (c : RuleClassifier dice) (req : ChatRequest) where
  -- the deterministic conditions of a rule by the code's checks, all of them evaluated
  unfoldable pub passes : Rule dice → Bool
  passes r =
      model_ok path_match r.when req
      && (tokens_ok r.when (count_tokens c.tokenizer req)
          && keywords_ok go r.when (go.to_lower (join_user_content req)))

  -- the first rule that selects the request and whose roll it wins
  unfoldable pub eager_match : List (Rule dice) → dice.S → Decision × dice.S
  eager_match [] s = (no_decision, s)
  eager_match (r ∷ rules) s =
      let next = eager_match rules in
      if passes r
      then (let (lost, s') = roll_lost r.when s in
          if lost then next s' else (record { model = r.route_to; rule = r.name }, s'))
      else next s

  abbrev pub count : ℕ
  count = count_tokens c.tokenizer req

  abbrev pub content : String
  content = go.to_lower (join_user_content req)

  tokens_idle : (when : Condition dice) (n : ℕ) → asks_tokens when ≡ false → tokens_ok when n ≡ true
  unfolding asks_tokens tokens_ok
  tokens_idle when n h = ground arith

  keywords_idle :
      (when : Condition dice) (t : String)
      → asks_keywords when ≡ false
      → keywords_ok go when t ≡ true
  unfolding asks_keywords keywords_ok
  keywords_idle when t h = ground arith

  -- a check computes with the right value, and leaves a right one
  tokens_step :
      (when : Condition dice) (o : Option ℕ)
      → cached count o ≡ count
      → ((check_tokens_of c req when o).0 ≡ tokens_ok when count)
        × (cached count (check_tokens_of c req when o).1 ≡ count)
  unfolding check_tokens_of
  tokens_step when o h = elim (Bool-cases (asks_tokens when)) [
    | inl asked ↦ rw (asked, h) (refl, refl)
    | inr idle ↦ rw (idle, tokens_idle when count idle) (refl, h)
  ]

  keywords_step :
      (when : Condition dice) (o : Option String)
      → cached content o ≡ content
      → ((check_keywords_of go req when o).0 ≡ keywords_ok go when content)
        × (cached content (check_keywords_of go req when o).1 ≡ content)
  unfolding check_keywords_of
  keywords_step when o h = elim (Bool-cases (asks_keywords when)) [
    | inl asked ↦ rw (asked, h) (refl, refl)
    | inr idle ↦ rw (idle, keywords_idle when content idle) (refl, h)
  ]

  module _ (r : Rule dice) (rules : List (Rule dice)) (o : Option ℕ) (p : Option String)
      (s : dice.S) where
    abbrev Loop : List (Rule dice) → Option ℕ → Option String → dice.S → Decision × dice.S
    Loop = classify_loop go path_match c req

    abbrev o' : Option ℕ
    o' = (check_tokens_of c req r.when o).1

    abbrev p' : Option String
    p' = (check_keywords_of go req r.when p).1

    loop_model : model_ok path_match r.when req ≡ false → Loop (r ∷ rules) o p s ≡ Loop rules o p s
    unfolding classify_loop
    loop_model h = rw h

    loop_tokens :
        model_ok path_match r.when req ≡ true
        → (check_tokens_of c req r.when o).0 ≡ false
        → Loop (r ∷ rules) o p s ≡ Loop rules o' p s
    unfolding classify_loop
    loop_tokens h k = rw (h, k)

    loop_keywords :
        model_ok path_match r.when req ≡ true
        → (check_tokens_of c req r.when o).0 ≡ true
        → (check_keywords_of go req r.when p).0 ≡ false
        → Loop (r ∷ rules) o p s ≡ Loop rules o' p' s
    unfolding classify_loop
    loop_keywords h k l = rw (h, k, l)

    loop_lost :
        model_ok path_match r.when req ≡ true
        → (check_tokens_of c req r.when o).0 ≡ true
        → (check_keywords_of go req r.when p).0 ≡ true
        → (roll_lost r.when s).0 ≡ true
        → Loop (r ∷ rules) o p s ≡ Loop rules o' p' (roll_lost r.when s).1
    unfolding classify_loop
    loop_lost h k l m = rw (h, k, l, m)

    loop_won :
        model_ok path_match r.when req ≡ true
        → (check_tokens_of c req r.when o).0 ≡ true
        → (check_keywords_of go req r.when p).0 ≡ true
        → (roll_lost r.when s).0 ≡ false
        → Loop (r ∷ rules) o p s
          ≡ (record { model = r.route_to; rule = r.name }, (roll_lost r.when s).1)
    unfolding classify_loop
    loop_won h k l m = rw (h, k, l, m)

  pub loop_lem :
      (rules : List (Rule dice)) (o : Option ℕ) (p : Option String) (s : dice.S)
      → cached count o ≡ count
      → cached content p ≡ content
      → classify_loop go path_match c req rules o p s ≡ eager_match rules s
  unfolding eager_match passes
  loop_lem [] o p s h k = unfold classify_loop in refl
  loop_lem (r ∷ rules) o p s h k =
      let (t, h') = tokens_step r.when o h in
      let (q, k') = keywords_step r.when p k in
      elim (Bool-cases (model_ok path_match r.when req)) [
        | inr no_model ↦ loop_model r rules o p s no_model ∙ rw no_model (loop_lem rules o p s h k)
        | inl m ↦ elim (Bool-cases (tokens_ok r.when count)) [
          | inr many ↦
              loop_tokens r rules o p s m (t ∙ many) ∙ rw (m, many) (loop_lem rules _ p s h' k)
          | inl n ↦ elim (Bool-cases (keywords_ok go r.when content)) [
            | inr off ↦
                loop_keywords r rules o p s m (t ∙ n) (q ∙ off)
                ∙ rw (m, n, off) (loop_lem rules _ _ s h' k')
            | inl on ↦ elim (Bool-cases (roll_lost r.when s).0) [
              | inl lost ↦
                  loop_lost r rules o p s m (t ∙ n) (q ∙ on) lost
                  ∙ rw (m, n, on, lost) (loop_lem rules _ _ (roll_lost r.when s).1 h' k')
              | inr won ↦ loop_won r rules o p s m (t ∙ n) (q ∙ on) won ∙ rw (m, n, on, won)
            ]
          ]
        ]
      ]
