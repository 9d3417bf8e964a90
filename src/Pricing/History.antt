-- ===== src/Pricing/History.antt =====
-- The cache of rates and its table over a series of operations of internal/billing/pricing.go.
use x_beacon.Prelude.{
  ap, ◌≡◌, Bool, Option, none, some, Option-cases, String, List, [], ◌∷◌, inl, inr, ap, ◌∙◌, sym,
}
use x_beacon.Errors.{Err}
use x_beacon.Pricing.{lookup_rate, Rate, Database, PricingCache, reload, set_rate, delete_rate}
use x_beacon.Pricing.Coherent.{
  IsCoherent, reload-IsCoherent, set_rate-IsCoherent, delete_rate-IsCoherent,
}

pub data Change : Type 0 where
  reloads : Change
  sets : Rate → Change
  deletes : String → Change

module _ (db : Database) (has_pool : Bool) where
  open db use {S}

  abbrev pub change : Change → PricingCache × S → PricingCache × S
  change reloads (c, s) = ((reload db has_pool c s).1, s)
  change (sets r) (c, s) = ((set_rate db has_pool c r s).0.1, (set_rate db has_pool c r s).1)
  change (deletes m) (c, s) =
      ((delete_rate db has_pool c m s).0.1, (delete_rate db has_pool c m s).1)

  abbrev pub changes : List Change → PricingCache × S → PricingCache × S
  changes [] cs = cs
  changes (o ∷ os) cs = changes os (change o cs)

  step-IsCoherent :
      (o : Change) (c : PricingCache) (s : S)
      → IsCoherent db has_pool c s
      → IsCoherent db has_pool (change o (c, s)).0 (change o (c, s)).1
  step-IsCoherent reloads c s h = elim (Option-cases (reload db has_pool c s).0) [
    | inl fine ↦ (reload-IsCoherent db has_pool c s).0 fine
    | inr (e, broken) ↦ λ k.
        ap (λ d. lookup_rate d k)
          ((reload-IsCoherent db has_pool c s).1
            (λ g. let h' : ◌≡◌ {A = Option Err} none (some e) = sym g ∙ broken in cc))
        ∙ h k
  ]
  step-IsCoherent (sets r) c s h = set_rate-IsCoherent db has_pool c r s h
  step-IsCoherent (deletes m) c s h = delete_rate-IsCoherent db has_pool c m s h

  -- Once the cache has been loaded, it agrees with the table at every model, through every series of
  -- updates, deletions and further loads, those included that the database refuses.
  pub changes-IsCoherent :
      (c : PricingCache) (s : S)
      → (reload db has_pool c s).0 ≡ none
      → (os : List Change)
      → IsCoherent db has_pool
          (changes os (change reloads (c, s))).0
          (changes os (change reloads (c, s))).1
  changes-IsCoherent c s loaded os =
      every os (change reloads (c, s)) ((reload-IsCoherent db has_pool c s).0 loaded)
    where
      every :
          (os : List Change) (cs : PricingCache × S)
          → IsCoherent db has_pool cs.0 cs.1
          → IsCoherent db has_pool (changes os cs).0 (changes os cs).1
      every [] cs h = h
      every (o ∷ os) cs h = every os (change o cs) (step-IsCoherent o cs.0 cs.1 h)
