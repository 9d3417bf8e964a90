-- ===== src/Registry/Chain.antt =====
-- The chain of a model is the list of all candidates in their order of priority, each name once.
use x_beacon.Prelude.{
  str_eq_iff, ◌≡◌, refl, ◌∙◌, ap, sym, Bool, true, false, Result, ok, err, Option, none, some,
  String, List, [], ◌∷◌, ◌++◌, str_eq, str_eq_iff, if◌then◌else◌, append_assoc, append-nil,
  Bool-cases, inl, inr,
}
use x_beacon.Prelude.Maps.{lookup, contains}
use x_beacon.Errors.{Err, bare, wrapped, no_provider_for_model}
use x_beacon.Registry.{
  Provider, GlobRule, Registry, add, add_matched, add_globs, resolve_chain, resolve_model,
}

-- the first provider of each name, without those whose name is in `seen`
unfoldable pub distinct : List String → List Provider → List Provider
distinct seen [] = []
distinct seen (p ∷ ps) =
    let kept = p ∷ distinct (p.name ∷ seen) ps in
    let dropped = distinct seen ps in if contains p.name seen then dropped else kept

abbrev pub listed : Option Provider → List Provider
listed none = []
listed (some p) = p ∷ []

-- the names that a list adds to those in `seen`
abbrev seen_after : List String → List Provider → List String
seen_after seen [] = seen
seen_after seen (p ∷ ps) =
    let new = seen_after (p.name ∷ seen) ps in
    let old = seen_after seen ps in if contains p.name seen then old else new

abbrev adds : List Provider → List String × List Provider → List String × List Provider
adds [] s = s
adds (p ∷ ps) s = adds ps (add (some p) s)

distinct_old :
    (p : Provider) (ps : List Provider) (seen : List String)
    → contains p.name seen ≡ true
    → distinct seen (p ∷ ps) ≡ distinct seen ps
unfolding distinct
distinct_old p ps seen h = rw h

distinct_new :
    (p : Provider) (ps : List Provider) (seen : List String)
    → contains p.name seen ≡ false
    → distinct seen (p ∷ ps) ≡ p ∷ distinct (p.name ∷ seen) ps
unfolding distinct
distinct_new p ps seen h = rw h

add_old :
    (p : Provider) (seen : List String) (chain : List Provider)
    → contains p.name seen ≡ true
    → add (some p) (seen, chain) ≡ (seen, chain)
unfolding add
add_old p seen chain h = rw h

add_new :
    (p : Provider) (seen : List String) (chain : List Provider)
    → contains p.name seen ≡ false
    → add (some p) (seen, chain) ≡ (p.name ∷ seen, chain ++ p ∷ [])
unfolding add
add_new p seen chain h = rw h

-- adding one after another appends what is new
adds_lem :
    (ps : List Provider) (seen : List String) (chain : List Provider)
    → (adds ps (seen, chain)).1 ≡ chain ++ distinct seen ps
adds_lem [] seen chain = unfold distinct in sym (append-nil chain)
adds_lem (p ∷ ps) seen chain = elim (Bool-cases (contains p.name seen)) [
  | inl old ↦
      ap (λ s. (adds ps s).1) (add_old p seen chain old)
      ∙ (adds_lem ps seen chain ∙ ap (λ l. chain ++ l) (sym (distinct_old p ps seen old)))
  | inr new ↦
      ap (λ s. (adds ps s).1) (add_new p seen chain new)
      ∙ (adds_lem ps (p.name ∷ seen) (chain ++ p ∷ [])
          ∙ (append_assoc chain (p ∷ []) _
              ∙ ap (λ l. chain ++ l) (sym (distinct_new p ps seen new))))
]

adds-append :
    (ps qs : List Provider) (s : List String × List Provider)
    → adds (ps ++ qs) s ≡ adds qs (adds ps s)
adds-append [] qs s = refl
adds-append (p ∷ ps) qs s = adds-append ps qs (add (some p) s)

add-listed : (o : Option Provider) (s : List String × List Provider) → add o s ≡ adds (listed o) s
unfolding add
add-listed none (seen, chain) = refl
add-listed (some p) (seen, chain) = refl

-- the provider of a rule that matches
abbrev pub if_matched : Option Bool → Provider → List Provider
if_matched none p = []
if_matched (some false) p = []
if_matched (some true) p = p ∷ []

add_matched_lem :
    (m : Option Bool) (p : Provider) (s : List String × List Provider)
    → add_matched m p s ≡ adds (if_matched m p) s
unfolding add_matched
add_matched_lem none p s = refl
add_matched_lem (some false) p s = refl
add_matched_lem (some true) p s = refl

module _ (path_match : String → String → Option Bool) where
  -- the providers of the glob rules that match
  unfoldable pub matching : String → List GlobRule → List Provider
  matching model [] = []
  matching model (rule ∷ rules) =
      if_matched (path_match rule.pattern model) rule.provider ++ matching model rules

  globs_lem :
      (model : String) (rules : List GlobRule) (s : List String × List Provider)
      → add_globs path_match model rules s ≡ adds (matching model rules) s
  unfolding add_globs matching
  globs_lem model [] s = refl
  globs_lem model (rule ∷ rules) s =
      let m = path_match rule.pattern model in
      globs_lem model rules (add_matched m rule.provider s)
      ∙ (ap (λ t. adds (matching model rules) t) (add_matched_lem m rule.provider s)
          ∙ sym (adds-append (if_matched m rule.provider) (matching model rules) s))

  -- every provider that could serve the model, in the order of priority
  unfoldable pub candidates : Registry → String → List Provider
  unfolding matching
  candidates r model =
      listed (lookup model r.state.exact_index)
      ++ (matching model r.state.glob_rules ++ listed r.state.default_provider)

  -- The chain of a model is the owner of the exact ID, then the providers of the matching globs in
  -- their order of declaration, then the default provider, where only the first provider of each
  -- name is kept; malformed patterns are skipped.
  pub resolve_chain_lem :
      (r : Registry) (model : String)
      → resolve_chain path_match r model ≡ distinct [] (candidates r model)
  unfolding resolve_chain candidates
  resolve_chain_lem r model =
      let exact = lookup model r.state.exact_index in
      let globs = matching model r.state.glob_rules in
      let last = listed r.state.default_provider in
      let one = add_globs path_match model r.state.glob_rules (add exact ([], [])) in
      ap (λ s. s.1) (add-listed r.state.default_provider one)
      ∙ (ap (λ s. (adds last s).1)
            (globs_lem model r.state.glob_rules (add exact ([], []))
              ∙ ap (λ s. adds globs s) (add-listed exact ([], [])))
          ∙ (ap (λ s. s.1)
                (sym (adds-append globs last (adds (listed exact) ([], [])))
                  ∙ sym (adds-append (listed exact) (globs ++ last) ([], [])))
              ∙ adds_lem (listed exact ++ (globs ++ last)) [] []))

-- the names of a list of providers
abbrev pub names_of : List Provider → List String
names_of [] = []
names_of (p ∷ ps) = p.name ∷ names_of ps

-- no name stands twice
abbrev pub NoRepeat : List String → Type 0
NoRepeat [] = Unit
NoRepeat (n ∷ ns) = (contains n ns ≡ false) × NoRepeat ns

str_eq_refl : (n : String) → str_eq n n ≡ true
str_eq_refl n = (str_eq_iff n n).1 refl

-- a name in `seen` is not added again
distinct-seen :
    (n : String) (ps : List Provider) (seen : List String)
    → contains n seen ≡ true
    → contains n (names_of (distinct seen ps)) ≡ false
unfolding contains
distinct-seen n [] seen h = unfold distinct in refl
distinct-seen n (p ∷ ps) seen h = elim (Bool-cases (contains p.name seen)) [
  | inl old ↦ rw (distinct_old p ps seen old) (distinct-seen n ps seen h)
  | inr new ↦ rw (distinct_new p ps seen new) (elim (Bool-cases (str_eq p.name n)) [
    | inl same ↦ cc (new, ap (λ k. contains k seen) ((str_eq_iff p.name n).0 same), h)
    | inr differs ↦ rw differs (distinct-seen n ps (p.name ∷ seen) (rw differs h))
  ])
]

distinct-NoRepeat :
    (ps : List Provider) (seen : List String) → NoRepeat (names_of (distinct seen ps))
distinct-NoRepeat [] seen = unfold distinct in tt
distinct-NoRepeat (p ∷ ps) seen = elim (Bool-cases (contains p.name seen)) [
  | inl old ↦ rw (distinct_old p ps seen old) (distinct-NoRepeat ps seen)
  | inr new ↦ rw (distinct_new p ps seen new) (
    distinct-seen p.name ps (p.name ∷ seen) (unfold contains in rw (str_eq_refl p.name)),
    distinct-NoRepeat ps (p.name ∷ seen),
  )
]

-- every name of the list that is not in `seen` is kept
distinct_complete :
    (n : String) (ps : List Provider) (seen : List String)
    → contains n (names_of ps) ≡ true
    → contains n seen ≡ false
    → contains n (names_of (distinct seen ps)) ≡ true
unfolding contains
distinct_complete n [] seen h k = cc
distinct_complete n (p ∷ ps) seen h k = elim (Bool-cases (str_eq p.name n)) [
  | inl same ↦
      let new : contains p.name seen ≡ false =
        ap (λ j. contains j seen) ((str_eq_iff p.name n).0 same) ∙ k in
      rw (distinct_new p ps seen new, same)
  | inr differs ↦
      let h' : contains n (names_of ps) ≡ true = rw differs at h in
      elim (Bool-cases (contains p.name seen)) [
        | inl old ↦ rw (distinct_old p ps seen old) (distinct_complete n ps seen h' k)
        | inr new ↦
            rw (distinct_new p ps seen new, differs)
              (distinct_complete n ps (p.name ∷ seen) h' (rw differs k))
      ]
]

module _ (path_match : String → String → Option Bool) (r : Registry) (model : String) where
  -- In the chain of a model no provider's name stands twice, and the name of every provider that
  -- could serve the model stands in it.
  pub resolve_chain_names :
      NoRepeat (names_of (resolve_chain path_match r model))
      × ((n : String)
          → contains n (names_of (candidates path_match r model)) ≡ true
          → contains n (names_of (resolve_chain path_match r model)) ≡ true)
  resolve_chain_names = rw (resolve_chain_lem path_match r model) (
    distinct-NoRepeat (candidates path_match r model) [],
    λ n h. distinct_complete n (candidates path_match r model) [] h (unfold contains in refl),
  )

abbrev pub first_or : Err → List Provider → Result Err Provider
first_or e [] = err e
first_or e (p ∷ ps) = ok p

first-distinct : (e : Err) (ps : List Provider) → first_or e (distinct [] ps) ≡ first_or e ps
first-distinct e [] = unfold distinct in refl
first-distinct e (p ∷ ps) = rw (distinct_new p ps [] (unfold contains in refl))

-- A model resolves to its candidate of the highest priority: the owner of the exact ID before any
-- matching glob, the globs in their order of declaration, the default provider last; and to
-- ErrNoProviderForModel exactly if it has no candidate.
pub resolve_model_lem :
    (path_match : String → String → Option Bool) (r : Registry) (model : String)
    → resolve_model path_match r model
      ≡ first_or (wrapped model (bare no_provider_for_model)) (candidates path_match r model)
unfolding resolve_model
resolve_model_lem path_match r model =
    let e = wrapped model (bare no_provider_for_model) in
    head_lem e (resolve_chain path_match r model)
    ∙ (ap (first_or e) (resolve_chain_lem path_match r model)
        ∙ first-distinct e (candidates path_match r model))
  where
    head_lem :
        (e : Err) (ps : List Provider)
        → elim ps as (λ l. Result Err Provider) [ [] ↦ err e | p ∷ qs ↦ ok p ] ≡ first_or e ps
    head_lem e [] = refl
    head_lem e (p ∷ ps) = refl
