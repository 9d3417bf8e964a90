-- ===== src/Route/FirstMatch.antt =====
-- The classifier takes the first rule that the documentation of its conditions selects.
use x_beacon.Prelude.{
  ℕ, ◌≡◌, refl, ◌∙◌, Bool, true, false, ◌&&◌, ◌||◌, not, inl, inr, Option, none, some, String, List,
  [], ◌∷◌, if◌then◌else◌, Bool-cases, str_eq, any, arith,
}
use x_beacon.Prelude.Int.{ℤ, pos, negsuc, ltz, lez}
use x_beacon.Prompt.Tokens.{Strings, Tokenizer}
use x_beacon.Route.{
  ChatRequest, Decision, no_decision, Dice, Condition, Rule, RuleClassifier, count_tokens,
  join_user_content, is_nil, any_keyword_present, glob_ok, model_ok, tokens_ok, keywords_ok,
  roll_lost, classify,
}
use x_beacon.Route.Eager.{passes, eager_match, loop_lem}

-- the bounds of a condition: at most MaxTokens where that is positive, and at least MinTokens
abbrev pub in_bounds : ℤ → ℤ → ℕ → Bool
in_bounds max_tokens min_tokens n =
    (lez max_tokens (pos 0) || lez (pos n) max_tokens) && lez min_tokens (pos n)

abbrev pub is_matched : Option Bool → Bool
is_matched (some b) = b
is_matched none = false

if_not : (q : Bool) → (if q then false else true) ≡ not q
if_not true = refl
if_not false = refl

if_neither : (p q : Bool) → (if not p then false else if q then false else true) ≡ (p && not q)
if_neither true q = if_not q
if_neither false q = refl

glob_ok-is_matched : (o : Option Bool) → glob_ok o ≡ is_matched o
unfolding glob_ok
glob_ok-is_matched none = refl
glob_ok-is_matched (some true) = refl
glob_ok-is_matched (some false) = refl

module _ (go : Strings) where
  -- a text, in lower case, has a keyword that is not blank
  abbrev pub mentions : String → String → Bool
  mentions text kw = not (str_eq kw "") && go.has_part text (go.to_lower kw)

  -- some keyword of the first list, unless it is empty, and none of the second
  abbrev pub speaks_of : List String → List String → String → Bool
  speaks_of [] avoided text = not (any (mentions text) avoided)
  speaks_of (kw ∷ wanted) avoided text =
      any (mentions text) (kw ∷ wanted) && not (any (mentions text) avoided)

  any_keyword_present-any :
      (text : String) (keywords : List String)
      → any_keyword_present go text keywords ≡ any (mentions text) keywords
  unfolding any_keyword_present
  any_keyword_present-any text [] = refl
  any_keyword_present-any text (kw ∷ keywords) =
      let ih = any_keyword_present-any text keywords in
      elim (Bool-cases (str_eq kw "")) [
        | inl blank ↦ rw blank ih
        | inr said ↦ elim (Bool-cases (go.has_part text (go.to_lower kw))) [
          | inl has ↦ rw (said, has) refl
          | inr lacks ↦ rw (said, lacks) ih
        ]
      ]

tokens_ok-in_bounds :
    {dice : Dice} (when : Condition dice) (n : ℕ)
    → tokens_ok when n ≡ in_bounds when.max_tokens when.min_tokens n
unfolding tokens_ok
tokens_ok-in_bounds when n = bounds when.max_tokens when.min_tokens
  where
    bounds :
        (a b : ℤ)
        → (if ltz (pos 0) a && ltz a (pos n)
            then false
            else if ltz (pos 0) b && ltz (pos n) b
            then false
            else true)
          ≡ in_bounds a b n
    bounds (pos a) (pos b) = ground arith
    bounds (pos a) (negsuc b) = ground arith
    bounds (negsuc a) (pos b) = ground arith
    bounds (negsuc a) (negsuc b) = ground arith

module _ (go : Strings) (path_match : String → String → Option Bool) {dice : Dice}
    (c : RuleClassifier dice) (req : ChatRequest) (tk : String → Tokenizer) where
  abbrev pub selects : Condition dice → Bool
  selects when =
      (str_eq when.model "" || is_matched (path_match when.model req.model))
      && (in_bounds when.max_tokens when.min_tokens ((tk req.model).count_messages req.messages)
          && speaks_of go when.keywords_any when.keywords_none
              (go.to_lower (join_user_content req)))

  -- the first rule that selects the request and that wins its roll, where it has a weight
  unfoldable pub first_match : List (Rule dice) → dice.S → Decision × dice.S
  first_match [] s = (no_decision, s)
  first_match (r ∷ rules) s =
      let next = first_match rules in
      let chosen : Decision = record { model = r.route_to; rule = r.name } in
      if not (selects r.when)
      then next s
      else if dice.positive r.when.weight
      then (let (x, s') = dice.rng s in
          if dice.loses x r.when.weight then next s' else (chosen, s'))
      else (chosen, s)

  keywords_ok-speaks_of :
      (when : Condition dice) (text : String)
      → keywords_ok go when text ≡ speaks_of go when.keywords_any when.keywords_none text
  unfolding keywords_ok
  keywords_ok-speaks_of when text = lists when.keywords_any when.keywords_none
    where
      lists :
          (a b : List String)
          → (if not (is_nil a) && not (any_keyword_present go text a)
              then false
              else if not (is_nil b) && any_keyword_present go text b
              then false
              else true)
            ≡ speaks_of go a b text
      lists [] [] = refl
      lists [] (y ∷ b) =
          rw (any_keyword_present-any go text (y ∷ b)) (if_not (any (mentions go text) (y ∷ b)))
      lists (x ∷ a) [] =
          rw (any_keyword_present-any go text (x ∷ a))
            (if_neither (any (mentions go text) (x ∷ a)) false)
      lists (x ∷ a) (y ∷ b) =
          rw (any_keyword_present-any go text (x ∷ a), any_keyword_present-any go text (y ∷ b))
            (if_neither (any (mentions go text) (x ∷ a)) (any (mentions go text) (y ∷ b)))

  passes-selects :
      c.tokenizer ≡ some tk → (r : Rule dice) → passes go path_match c req r ≡ selects r.when
  unfolding passes count_tokens model_ok
  passes-selects h r =
      rw
        (
          h,
          tokens_ok-in_bounds r.when ((tk req.model).count_messages req.messages),
          keywords_ok-speaks_of r.when (go.to_lower (join_user_content req)),
        )
        (elim (Bool-cases (str_eq r.when.model "")) [
          | inl free ↦ rw free refl
          | inr named ↦ rw (named, glob_ok-is_matched (path_match r.when.model req.model)) refl
        ])

  eager_match-first_match :
      c.tokenizer ≡ some tk
      → (rules : List (Rule dice)) (s : dice.S)
      → eager_match go path_match c req rules s ≡ first_match rules s
  unfolding eager_match first_match roll_lost
  eager_match-first_match h [] s = refl
  eager_match-first_match h (r ∷ rules) s = elim (Bool-cases (selects r.when)) [
    | inr other ↦ rw (passes-selects h r, other) (eager_match-first_match h rules s)
    | inl hit ↦ elim (Bool-cases (dice.positive r.when.weight)) [
      | inr sure ↦ rw (passes-selects h r, hit, sure) refl
      | inl rolled ↦ elim (Bool-cases (dice.loses (dice.rng s).0 r.when.weight)) [
        | inl lost ↦
            rw (passes-selects h r, hit, rolled, lost)
              (eager_match-first_match h rules (dice.rng s).1)
        | inr won ↦ rw (passes-selects h r, hit, rolled, won) refl
      ]
    ]
  ]

  -- With a tokenizer, the decision is the first match: that of the first rule whose model glob, token
  -- bounds and keywords select the request, the keywords in the content that joinUserContent gives,
  -- and whose roll it wins; a roll is made only for a rule with a positive weight that selects the
  -- request, in the order of the rules.
  pub classify_lem :
      c.tokenizer ≡ some tk
      → (s : dice.S) → classify go path_match c (some req) s ≡ first_match c.rules s
  unfolding classify
  classify_lem h s =
      loop_lem go path_match c req c.rules none none s refl refl
      ∙ eager_match-first_match h c.rules s
