-- ===== src/Tests/Route.antt =====
-- A classifier with a keyword rule and a canary.
use x_beacon.Prelude.{
  false, ℕ, suc, ◌≡◌, refl, Bool, ok, Option, none, some, String, [], ◌∷◌, str_eq, ltb, leb,
}
use x_beacon.Prelude.Int.{pos}
use x_beacon.Prelude.Maps.{contains}
use x_beacon.Wire.{ChatRequest, plain_message}
use x_beacon.Route.{
  Dice, Condition, Rule, RuleClassifier, rule_fault, first_fault, new_rule_classifier, classify,
  classify_loop, model_ok, check_tokens_of, asks_tokens, check_keywords_of, asks_keywords,
  keywords_ok, any_keyword_present, join_user_content, join_from, roll_lost,
}
use x_beacon.Route.FirstMatch.{first_match, classify_lem}
use x_beacon.Prompt.Tokens.{Tokenizer}
use x_beacon.Tests.Prompt.{strings}

-- percentages, and a counter as the random source
abbrev dice : Dice
dice = record {
  F = ℕ;
  positive = λ f. ltb 0 f;
  out_of_range = λ f. ltb 100 f;
  S = ℕ;
  rng = λ s. (s, suc s);
  loses = λ x w. leb w x;
}

abbrev words : Tokenizer
words = record { count_messages = λ ms. 3; count_text = λ t. 3 }

abbrev literal : String → String → Option Bool
literal p m = some (str_eq p m)

abbrev anything : Condition dice
anything = record {
  max_tokens = pos 0;
  min_tokens = pos 0;
  keywords_any = [];
  keywords_none = [];
  model = "";
  weight = 0;
}

abbrev coding : Rule dice
coding = record {
  name = "coding";
  route_to = "coder";
  when = record anything { keywords_any = "code" ∷ [] };
}

abbrev canary : Rule dice
canary = record {
  name = "canary";
  route_to = "next";
  when = record anything { model = "m"; weight = 10 };
}

abbrev classifier : RuleClassifier dice
classifier = record { rules = coding ∷ canary ∷ []; tokenizer = some (λ m. words) }

abbrev request : ChatRequest
request = record {
  model = "m";
  messages = plain_message "user" "hello" ∷ [];
  max_tokens = pos 0;
  temperature = none;
  top_p = none;
  n = pos 0;
  stream = false;
  stop = [];
  user = "";
  extra = [];
}

classify_canary :
    (classify strings literal classifier (some request) 3).0
    ≡ record { model = "next"; rule = "canary" }
unfolding classify classify_loop model_ok check_tokens_of asks_tokens check_keywords_of
    asks_keywords keywords_ok any_keyword_present join_user_content join_from roll_lost
classify_canary = refl

classify_example :
    classify strings literal classifier (some request) 30
    ≡ first_match strings literal classifier request (λ m. words) (coding ∷ canary ∷ []) 30
classify_example = classify_lem strings literal classifier request (λ m. words) refl 30

accepts : new_rule_classifier literal (coding ∷ canary ∷ []) (some (λ m. words)) ≡ ok classifier
unfolding new_rule_classifier first_fault rule_fault contains
accepts = refl
