-- ===== src/RateLimit/Loader/Laws.antt =====
-- Which configurations Build accepts, and the rules it makes of them.
use x_beacon.Prelude.{
  ◌≡◌, ◌≢◌, ◌↔◌, ◌⊎◌, refl, sym, ap, ◌∙◌, false, any, if-cases, Result, ok, err, subst, String,
  List, [], ◌∷◌, ◌++◌, append-nil, append_assoc, str_eq, inl, inr,
}
use x_beacon.Errors.{Err, other}
use x_beacon.RateLimit.{Rule}
use x_beacon.RateLimit.Loader.{
  RuleConfig, RateTools, Building, build_rule, add_rule, build_turn, build_loop, built_rules,
  build_rules,
}

append_one_nonempty {ℓ} : {A : Type ℓ} (l : List A) (a : A) → l ++ a ∷ [] ≢ []
append_one_nonempty [] a e = cc
append_one_nonempty (x ∷ l) a e = cc

module _ {S Rate : Type 0} (t : RateTools S Rate) where
  -- a rule that is made of an entry, whose name is not empty and not among the names before it
  pub record Fits (seen : List String) (rc : RuleConfig) (r : Rule S) : Type 0 where
    pub has_name : str_eq rc.name "" ≡ false
    pub fresh : any (str_eq rc.name) seen ≡ false
    pub made : build_rule t rc ≡ ok r

  -- one rule for each entry, in their order
  abbrev pub Each : List String → List RuleConfig → List (Rule S) → Type 0
  Each seen [] [] = Unit
  Each seen [] (r ∷ rs) = ⊥
  Each seen (rc ∷ cs) [] = ⊥
  Each seen (rc ∷ cs) (r ∷ rs) = Fits seen rc r × Each (rc.name ∷ seen) cs rs

  abbrev advance : RuleConfig → Rule S → Building t → Building t
  advance rc r b = record { out = b.out ++ r ∷ []; seen = rc.name ∷ b.seen; errs = b.errs }

  refused : (why : Err) (b : Building t) → (add_rule t (err why) b).errs ≢ []
  unfolding add_rule
  refused why b = append_one_nonempty b.errs why

  add_rule-outcome :
      (rc : RuleConfig) (b : Building t) (x : Result Err (Rule S))
      → ((r : Rule S) × (x ≡ ok r)
          × (add_rule t x (record b { seen = rc.name ∷ b.seen }) ≡ advance rc r b))
        ⊎ ((add_rule t x (record b { seen = rc.name ∷ b.seen })).errs ≢ [])
  unfolding add_rule
  add_rule-outcome rc b (ok r) = inl (r, refl, refl)
  add_rule-outcome rc b (err why) = inr (append_one_nonempty b.errs why)

  -- a turn adds the rule of its entry, or an error
  turn-outcome :
      (rc : RuleConfig) (b : Building t)
      → ((r : Rule S) × Fits b.seen rc r × (build_turn t rc b ≡ advance rc r b))
        ⊎ ((build_turn t rc b).errs ≢ [])
  unfolding build_turn
  turn-outcome rc b =
      let P : Building t → Type 0 =
        λ b'. ((r : Rule S) × Fits b.seen rc r × (b' ≡ advance rc r b)) ⊎ (b'.errs ≢ []) in
      if-cases P (str_eq rc.name "") (λ y. inr (refused (other "name is required") b))
        (λ has_name.
          if-cases P (any (str_eq rc.name) b.seen) (λ y. inr (refused (other "duplicate name") b))
            (λ fresh. elim (add_rule-outcome rc b (build_rule t rc)) [
              | inl (r, made, e) ↦
                  inl (r, record { has_name = has_name; fresh = fresh; made = made }, e)
              | inr bad ↦ inr bad
            ]))

  add_rule-stays :
      (x : Result Err (Rule S)) (b : Building t) → b.errs ≢ [] → (add_rule t x b).errs ≢ []
  unfolding add_rule
  add_rule-stays (ok r) b h = h
  add_rule-stays (err why) b h = append_one_nonempty b.errs why

  turn-stays : (rc : RuleConfig) (b : Building t) → b.errs ≢ [] → (build_turn t rc b).errs ≢ []
  unfolding build_turn
  turn-stays rc b h =
      let P : Building t → Type 0 = λ b'. b'.errs ≢ [] in
      if-cases P (str_eq rc.name "") (λ y. refused (other "name is required") b)
        (λ n.
          if-cases P (any (str_eq rc.name) b.seen) (λ y. refused (other "duplicate name") b)
            (λ n. add_rule-stays (build_rule t rc) (record b { seen = rc.name ∷ b.seen }) h))

  loop-stays : (cs : List RuleConfig) (b : Building t) → b.errs ≢ [] → (build_loop t cs b).errs ≢ []
  unfolding build_loop
  loop-stays [] b h = h
  loop-stays (rc ∷ cs) b h = loop-stays cs (build_turn t rc b) (turn-stays rc b h)

  -- a loop without an error made a rule of each entry
  loop-Each :
      (cs : List RuleConfig) (b : Building t)
      → (build_loop t cs b).errs ≡ []
      → (rs : List (Rule S)) × ((build_loop t cs b).out ≡ b.out ++ rs) × Each b.seen cs rs
  unfolding build_loop
  loop-Each [] b h = ([], sym (append-nil b.out), tt)
  loop-Each (rc ∷ cs) b h = elim (turn-outcome rc b) [
    | inr bad ↦ absurd (loop-stays cs (build_turn t rc b) bad h)
    | inl (r, fits, e) ↦
        let go : Building t → Building t = build_loop t cs in
        let (rs, made, each) =
          loop-Each cs (advance rc r b) (ap (λ b'. (go b').errs) (sym e) ∙ h) in
        (r ∷ rs, ap (λ b'. (go b').out) e ∙ (made ∙ append_assoc b.out (r ∷ []) rs), (fits, each))
  ]

  turn-Fits :
      (rc : RuleConfig) (r : Rule S) (b : Building t)
      → Fits b.seen rc r
      → build_turn t rc b ≡ advance rc r b
  unfolding build_turn add_rule
  turn-Fits rc r b h = rw (h.has_name, h.fresh, h.made)

  Each-loop :
      (cs : List RuleConfig) (rs : List (Rule S)) (b : Building t)
      → Each b.seen cs rs
      → ((build_loop t cs b).out ≡ b.out ++ rs) × ((build_loop t cs b).errs ≡ b.errs)
  unfolding build_loop
  Each-loop [] [] b h = (sym (append-nil b.out), refl)
  Each-loop [] (r ∷ rs) b h = absurd h
  Each-loop (rc ∷ cs) [] b h = absurd h
  Each-loop (rc ∷ cs) (r ∷ rs) b (fits, each) =
      let e = turn-Fits rc r b fits in
      let go : Building t → Building t = build_loop t cs in
      let (made, clean) = Each-loop cs rs (advance rc r b) each in
      (
        ap (λ b'. (go b').out) e ∙ (made ∙ append_assoc b.out (r ∷ []) rs),
        ap (λ b'. (go b').errs) e ∙ clean,
      )

  built_rules-ok :
      (es : List Err) (out rules : List (Rule S))
      → built_rules t es out ≡ ok rules
      → (es ≡ []) × (out ≡ rules)
  unfolding built_rules
  built_rules-ok [] out rules h =
      let value : Result (List Err) (List (Rule S)) → List (Rule S) =
        λ x. elim x [ ok l ↦ l | err es ↦ [] ] in
      (refl, ap value h)
  built_rules-ok (e ∷ es) out rules h = cc

  -- Build accepts a configuration exactly when every entry has a name that is not empty and is not
  -- the name of an entry before it, and makes a rule by itself; its result is then the list of
  -- those rules, one for each entry and in the order of the entries.
  pub build_accepts :
      (cs : List RuleConfig) (rules : List (Rule S))
      → (build_rules t cs ≡ ok rules) ↔ Each [] cs rules
  unfolding build_rules built_rules
  build_accepts [] [] = (λ h. tt, λ h. refl)
  build_accepts [] (r ∷ rs) = (λ h. cc, λ h. absurd h)
  build_accepts (rc ∷ cs) rules =
      let start : Building t = record { out = []; seen = []; errs = [] } in
      (
        (λ h.
            let (clean, made) = built_rules-ok _ _ rules h in
            let (rs, made', each) = loop-Each (rc ∷ cs) start clean in
            subst (Each [] (rc ∷ cs)) (sym made' ∙ made) each),
        (λ each.
            let (made, clean) = Each-loop (rc ∷ cs) rules start each in
            ap (λ es. built_rules t es (build_loop t (rc ∷ cs) start).out) clean ∙ ap ok made),
      )
