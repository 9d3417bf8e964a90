-- ===== src/Route/Valid.antt =====
-- What NewRuleClassifier lets pass.
use x_beacon.Prelude.{
  ◌≡◌, ◌≢◌, refl, Bool, true, false, not, ◌&&◌, inl, inr, Result, ok, Option, none, some, String,
  List, [], ◌∷◌, if◌then◌else◌, Option-cases, arith, str_eq,
}
use x_beacon.Prelude.Maps.{contains}
use x_beacon.Prompt.Tokens.{Tokenizer}
use x_beacon.Errors.{Err}
use x_beacon.Route.{
  Dice, Rule, RuleClassifier, is_malformed, rule_fault, first_fault, new_rule_classifier,
}

ladder :
    (a b c d e : Bool)
    → (let r : Option String =
          if a
          then some "missing Name"
          else if b
          then some "missing RouteTo"
          else if c
          then some "duplicate rule name"
          else if d
          then some "weight out of (0,100]"
          else if e
          then some "model glob"
          else none in
        r ≡ none)
    → (a ≡ false) × (b ≡ false) × (c ≡ false) × (d ≡ false) × (e ≡ false)
ladder false false false false false h = (refl, refl, refl, refl, refl)
ladder true b c d e h = cc
ladder false true c d e h = cc
ladder false false true d e h = cc
ladder false false false true e h = cc
ladder false false false false true h = cc

unmasked : (a b : Bool) → a ≡ false → (not a && b) ≡ false → b ≡ false
unmasked a b h k = ground arith

sound : (o : Option Bool) → is_malformed o ≡ false → o ≢ none
unfolding is_malformed
sound none h e = cc
sound (some b) h e = cc

module _ (path_match : String → String → Option Bool) {dice : Dice} where
  -- the rules are sound, behind those whose names are `seen`
  abbrev pub AreValid : List (Rule dice) → List String → Type 0
  AreValid [] seen = Unit
  AreValid (r ∷ rules) seen =
      (str_eq r.name "" ≡ false)
      × (str_eq r.route_to "" ≡ false)
      × (contains r.name seen ≡ false)
      × (dice.out_of_range r.when.weight ≡ false)
      × (str_eq r.when.model "" ≡ false → path_match r.when.model "probe" ≢ none)
      × AreValid rules (r.name ∷ seen)

  rule_valid :
      (seen : List String) (r : Rule dice)
      → rule_fault path_match seen r ≡ none
      → (str_eq r.name "" ≡ false)
        × (str_eq r.route_to "" ≡ false)
        × (contains r.name seen ≡ false)
        × (dice.out_of_range r.when.weight ≡ false)
        × (str_eq r.when.model "" ≡ false → path_match r.when.model "probe" ≢ none)
  unfolding rule_fault
  rule_valid seen r h =
      let (a, b, c, d, e) = ladder _ _ _ _ _ h in
      (a, b, c, d, λ some_glob. sound (path_match r.when.model "probe") (unmasked _ _ some_glob e))

  faultless :
      (rules : List (Rule dice)) (seen : List String)
      → first_fault path_match seen rules ≡ none
      → AreValid rules seen
  unfolding first_fault
  faultless [] seen h = tt
  faultless (r ∷ rules) seen h = elim (Option-cases (rule_fault path_match seen r)) [
    | inl fine ↦
        let (a, b, c, d, e) = rule_valid seen r fine in
        (a, b, c, d, e, faultless rules (r.name ∷ seen) (rw (fine, first_fault) at h))
    | inr (fault, f) ↦ let h' = rw (f, first_fault) at h in cc
  ]

  -- A classifier that NewRuleClassifier returns holds the rules it was given, and each of them has
  -- a name and a target, no two have the same name, and the weights and the globs are sound.
  pub new_rule_classifier-AreValid :
      (rules : List (Rule dice)) (tk : Option (String → Tokenizer)) (c : RuleClassifier dice)
      → new_rule_classifier path_match rules tk ≡ ok c
      → (c.rules ≡ rules) × AreValid c.rules []
  unfolding new_rule_classifier
  new_rule_classifier-AreValid rules tk c h =
      elim (Option-cases (first_fault path_match [] rules)) [
        | inl fine ↦
            let h' : ◌≡◌ {A = Result Err (RuleClassifier dice)}
                (ok (record { rules = rules; tokenizer = tk })) (ok c) =
              rw (fine, new_rule_classifier) at h in
            let same : record { rules = rules; tokenizer = tk } ≡ c = cc in
            rw (← same) (refl, faultless rules [] fine)
        | inr (fault, f) ↦ let h' = rw (f, new_rule_classifier) at h in cc
      ]
