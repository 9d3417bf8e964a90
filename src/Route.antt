-- ===== src/Route.antt =====
-- internal/route/classifier.go and rule_classifier.go: the rules that send a request to a model.
pub mod Eager
pub mod FirstMatch
pub mod Valid
use Prim.Native.String.{◌++◌ as append}
use x_beacon.Prelude.{
  ℕ, ◌≡◌, Bool, true, false, ◌&&◌, ◌||◌, not, Result, ok, err, Option, none, some, String, List, [],
  ◌∷◌, str_eq, if◌then◌else◌,
}
use x_beacon.Prelude.Int.{ℤ, pos, ltz}
use x_beacon.Prelude.Maps.{contains}
use x_beacon.Errors.{Err, other}
use x_beacon.Wire.{Message, ChatRequest}
use x_beacon.Prompt.Tokens.{Strings, Tokenizer}

pub record Decision : Type 0 where
  pub model : String
  pub rule : String

abbrev pub no_decision : Decision
no_decision = record { model = ""; rule = "" }

-- Decision.Empty
unfoldable pub is_empty : Decision → Bool
is_empty d = str_eq d.model ""

-- The float weights and the random source `rng`: `loses x w` is `x * 100 >= w`.
pub record Dice : Type 1 where
  pub F : Type 0
  pub positive : F → Bool
  pub out_of_range : F → Bool  -- below 0, or over 100
  pub S : Type 0
  pub rng : S → F × S
  pub loses : F → F → Bool

pub record Condition (dice : Dice) : Type 0 where
  pub max_tokens : ℤ
  pub min_tokens : ℤ
  pub keywords_any : List String
  pub keywords_none : List String
  pub model : String
  pub weight : dice.F

pub record Rule (dice : Dice) : Type 0 where
  pub name : String
  pub route_to : String
  pub when : Condition dice

pub record RuleClassifier (dice : Dice) : Type 0 where
  pub rules : List (Rule dice)
  pub tokenizer : Option (String → Tokenizer)

unfoldable pub count_tokens : Option (String → Tokenizer) → ChatRequest → ℕ
count_tokens none req = 0
count_tokens (some tk) req = (tk req.model).count_messages req.messages

-- the builder `b` after the messages
unfoldable pub join_from : String → List Message → String
join_from b [] = b
join_from b (m ∷ ms) =
    let spaced = if str_eq b "" then b else append b " " in
    let more = join_from (append spaced m.content) ms in
    let skipped = join_from b ms in if not (str_eq m.role "user") then skipped else more

unfoldable pub join_user_content : ChatRequest → String
join_user_content req = join_from "" req.messages

abbrev pub is_nil : {A : Type 0} → List A → Bool
is_nil [] = true
is_nil (x ∷ xs) = false

module _ (go : Strings) where
  unfoldable pub any_keyword_present : String → List String → Bool
  any_keyword_present haystack [] = false
  any_keyword_present haystack (kw ∷ keywords) =
      let rest = any_keyword_present haystack keywords in
      if str_eq kw "" then rest else if go.has_part haystack (go.to_lower kw) then true else rest

glob_ok : Option Bool → Bool
glob_ok (some true) = true
glob_ok (some false) = false
glob_ok none = false

is_malformed : Option Bool → Bool
is_malformed none = true
is_malformed (some b) = false

-- a value that is computed on its first use
abbrev pub cached : {A : Type 0} → A → Option A → A
cached a none = a
cached a (some b) = b

module _ (path_match : String → String → Option Bool) {dice : Dice} where
  -- the model glob of a condition; a malformed pattern matches nothing
  unfoldable pub model_ok : Condition dice → ChatRequest → Bool
  unfolding glob_ok
  model_ok when req =
      if str_eq when.model "" then true else glob_ok (path_match when.model req.model)

-- The checks, with what they leave in `tokenCount` and `userContent`.
module _ {dice : Dice} where
  unfoldable pub asks_tokens : Condition dice → Bool
  asks_tokens when = ltz (pos 0) when.max_tokens || ltz (pos 0) when.min_tokens

  unfoldable pub tokens_ok : Condition dice → ℕ → Bool
  tokens_ok when n =
      if ltz (pos 0) when.max_tokens && ltz when.max_tokens (pos n)
      then false
      else if ltz (pos 0) when.min_tokens && ltz (pos n) when.min_tokens
      then false
      else true

  unfoldable pub check_tokens_of :
      RuleClassifier dice → ChatRequest → Condition dice → Option ℕ → Bool × Option ℕ
  check_tokens_of c req when seen =
      if asks_tokens when
      then (let n = cached (count_tokens c.tokenizer req) seen in (tokens_ok when n, some n))
      else (true, seen)

  unfoldable pub asks_keywords : Condition dice → Bool
  asks_keywords when = not (is_nil when.keywords_any) || not (is_nil when.keywords_none)

  -- the weight roll: whether the request loses it
  unfoldable pub roll_lost : Condition dice → dice.S → Bool × dice.S
  roll_lost when s =
      if dice.positive when.weight
      then (let (x, s') = dice.rng s in (dice.loses x when.weight, s'))
      else (false, s)

module _ (go : Strings) {dice : Dice} where
  unfoldable pub keywords_ok : Condition dice → String → Bool
  keywords_ok when content =
      if not (is_nil when.keywords_any) && not (any_keyword_present go content when.keywords_any)
      then false
      else if not (is_nil when.keywords_none) && any_keyword_present go content when.keywords_none
      then false
      else true

  unfoldable pub check_keywords_of :
      ChatRequest → Condition dice → Option String → Bool × Option String
  check_keywords_of req when seen =
      if asks_keywords when
      then (let content = cached (go.to_lower (join_user_content req)) seen in
          (keywords_ok when content, some content))
      else (true, seen)

module _ (go : Strings) (path_match : String → String → Option Bool) {dice : Dice} where
  unfoldable pub classify_loop :
      RuleClassifier dice
      → ChatRequest
      → List (Rule dice)
      → Option ℕ
      → Option String
      → dice.S
      → Decision × dice.S
  classify_loop c req [] tokens content s = (no_decision, s)
  classify_loop c req (r ∷ rules) tokens content s =
      let next = classify_loop c req rules in
      if not (model_ok path_match r.when req)
      then next tokens content s
      else (let (t_ok, tokens') = check_tokens_of c req r.when tokens in
          if not t_ok
          then next tokens' content s
          else (let (k_ok, content') = check_keywords_of go req r.when content in
              if not k_ok
              then next tokens' content' s
              else (let (lost, s') = roll_lost r.when s in
                  if lost
                  then next tokens' content' s'
                  else (record { model = r.route_to; rule = r.name }, s'))))

  -- Classify; `none` is a nil request
  unfoldable pub classify : RuleClassifier dice → Option ChatRequest → dice.S → Decision × dice.S
  classify c none s = (no_decision, s)
  classify c (some req) s = classify_loop c req c.rules none none s

-- the checks of NewRuleClassifier on one rule, in their order
module _ (path_match : String → String → Option Bool) {dice : Dice} where
  unfoldable pub rule_fault : List String → Rule dice → Option String
  unfolding is_malformed
  rule_fault seen r =
      if str_eq r.name ""
      then some "missing Name"
      else if str_eq r.route_to ""
      then some "missing RouteTo"
      else if contains r.name seen
      then some "duplicate rule name"
      else if dice.out_of_range r.when.weight
      then some "weight out of (0,100]"
      else if not (str_eq r.when.model "") && is_malformed (path_match r.when.model "probe")
      then some "model glob"
      else none

  unfoldable pub first_fault : List String → List (Rule dice) → Option String
  first_fault seen [] = none
  first_fault seen (r ∷ rules) =
      let later = first_fault (r.name ∷ seen) rules in
      elim (rule_fault seen r) [ none ↦ later | some fault ↦ some fault ]

  unfoldable pub new_rule_classifier :
      List (Rule dice) → Option (String → Tokenizer) → Result Err (RuleClassifier dice)
  new_rule_classifier rules tk = elim (first_fault [] rules) [
    | none ↦ ok (record { rules = rules; tokenizer = tk })
    | some fault ↦ err (other fault)
  ]
