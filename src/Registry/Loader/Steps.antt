-- ===== src/Registry/Loader/Steps.antt =====
-- What the steps of build keep: names and models once taken, and the errors.
use x_beacon.Prelude.{
  ◌≡◌, ◌≢◌, refl, sym, ap, ◌∙◌, Bool, Bool-cases, Option, none, some, Option-cases, String, List,
  [], ◌∷◌, ◌++◌, All, str_eq, str_eq_iff, inl, inr,
}
use x_beacon.Prelude.Maps.{GoMap, lookup, put, lookup-put}
use x_beacon.Registry.{Provider}
use x_beacon.Registry.Loader.{Loading, refuse, claim_model, load_exact, add_glob, load_globs}

-- a model that is in the index, and has its owner
pub record Claimed (l : Loading) (m : String) (p : Provider) : Type 0 where
  pub indexed : lookup m l.state.exact_index ≡ some p
  pub owner : String
  pub owned : lookup m l.exact_owner ≡ some owner

-- what every step keeps
pub record Extends (l l' : Loading) : Type 0 where
  pub registered :
      (n : String) (p : Provider)
      → lookup n l.state.by_name ≡ some p
      → lookup n l'.state.by_name ≡ some p
  pub claimed : (m : String) (p : Provider) → Claimed l m p → Claimed l' m p
  pub unbroken : l'.errs ≡ [] → l.errs ≡ []

pub Extends-refl : (l : Loading) → Extends l l
Extends-refl l = record { registered = λ n p h. h; claimed = λ m p h. h; unbroken = λ h. h }

pub Extends-trans : (l l' l'' : Loading) → Extends l l' → Extends l' l'' → Extends l l''
Extends-trans l l' l'' a b = record {
  registered = λ n p h. b.registered n p (a.registered n p h);
  claimed = λ m p h. b.claimed m p (a.claimed m p h);
  unbroken = λ h. a.unbroken (b.unbroken h);
}

not_empty : (es : List String) (why : String) → (es ++ why ∷ []) ≢ []
not_empty [] why h = cc
not_empty (e ∷ es) why h = cc

pub refuse-breaks : (why : String) (l : Loading) → (refuse why l).errs ≢ []
unfolding refuse
refuse-breaks why l = not_empty l.errs why

pub refuse-Extends : (why : String) (l : Loading) → Extends l (refuse why l)
unfolding refuse
refuse-Extends why l = record {
  registered = λ n p h. h;
  claimed = λ m p h. record { indexed = h.indexed; owner = h.owner; owned = h.owned };
  unbroken = λ h. absurd (not_empty l.errs why h);
}

-- a key that is free keeps apart from one that is taken
pub put_free :
    {A : Type 0} (k j : String) (v : A) (m : GoMap A) {u : A}
    → lookup k m ≡ none
    → lookup j m ≡ some u
    → lookup j (put k v m) ≡ some u
put_free {A} k j v m {u} free taken = lookup-put k j v m ∙ elim (Bool-cases (str_eq k j)) [
  | inr n ↦ rw n taken
  | inl y ↦
      let h : ◌≡◌ {A = Option A} none (some u) =
        sym free ∙ (ap (λ i. lookup i m) ((str_eq_iff k j).0 y) ∙ taken) in
      cc
]

pub put_here : {A : Type 0} (k : String) (v : A) (m : GoMap A) → lookup k (put k v m) ≡ some v
put_here k v m = lookup-put k k v m ∙ rw ((str_eq_iff k k).1 refl) refl

claim-Extends :
    (p : Provider) (m : String) (l : Loading)
    → Extends l (claim_model p m (lookup m l.exact_owner) l)
unfolding claim_model
claim-Extends p m l = elim (Option-cases (lookup m l.exact_owner)) [
  | inr (o, taken) ↦ rw taken (refuse-Extends "model already claimed" l)
  | inl free ↦ rw free (record {
    registered = λ n q h. h;
    claimed = λ k q h. record {
      indexed = indexed_free k q h.indexed (λ same.
          let h' : ◌≡◌ {A = Option String} none (some h.owner) =
            sym free ∙ (ap (λ i. lookup i l.exact_owner) same ∙ h.owned) in
          cc);
      owner = h.owner;
      owned = put_free m k p.name l.exact_owner free h.owned;
    };
    unbroken = λ h. h;
  })
]
  where
    indexed_free :
        (k : String) (q : Provider)
        → lookup k l.state.exact_index ≡ some q
        → (m ≡ k → ⊥)
        → lookup k (put m p l.state.exact_index) ≡ some q
    indexed_free k q h apart =
        lookup-put m k p l.state.exact_index ∙ elim (Bool-cases (str_eq m k)) [
          | inr n ↦ rw n h
          | inl y ↦ absurd (apart ((str_eq_iff m k).0 y))
        ]

claim_done :
    (p : Provider) (m : String) (l : Loading)
    → (claim_model p m (lookup m l.exact_owner) l).errs ≡ []
    → Claimed (claim_model p m (lookup m l.exact_owner) l) m p
unfolding claim_model
claim_done p m l h = elim (Option-cases (lookup m l.exact_owner)) [
  | inr (o, taken) ↦ absurd (
      refuse-breaks "model already claimed" l
        (let h' : (refuse "model already claimed" l).errs ≡ [] = rw taken at h in h'))
  | inl free ↦ rw free (record {
    indexed = put_here m p l.state.exact_index;
    owner = p.name;
    owned = put_here m p.name l.exact_owner;
  })
]

pub load_exact-Extends :
    (p : Provider) (models : List String) (l : Loading) → Extends l (load_exact p models l)
unfolding load_exact
load_exact-Extends p [] l = Extends-refl l
load_exact-Extends p (m ∷ models) l =
    Extends-trans l _ _ (claim-Extends p m l) (load_exact-Extends p models _)

-- every model of an entry, once the errors stay empty
pub load_exact_done :
    (p : Provider) (models : List String) (l : Loading)
    → (load_exact p models l).errs ≡ []
    → All (λ m. Claimed (load_exact p models l) m p) models
unfolding load_exact
load_exact_done p [] l h = tt
load_exact_done p (m ∷ models) l h =
    let next = claim_model p m (lookup m l.exact_owner) l in
    let more = load_exact-Extends p models next in
    (more.claimed m p (claim_done p m l (more.unbroken h)), load_exact_done p models next h)

module _ (path_match : String → String → Option Bool) where
  add_glob-Extends :
      (p : Provider) (g : String) (o : Option Bool) (l : Loading) → Extends l (add_glob p g o l)
  unfolding add_glob
  add_glob-Extends p g none l = refuse-Extends "invalid glob" l
  add_glob-Extends p g (some b) l = record {
    registered = λ n q h. h;
    claimed = λ m q h. record { indexed = h.indexed; owner = h.owner; owned = h.owned };
    unbroken = λ h. h;
  }

  pub load_globs-Extends :
      (p : Provider) (globs : List String) (l : Loading)
      → Extends l (load_globs path_match p globs l)
  unfolding load_globs
  load_globs-Extends p [] l = Extends-refl l
  load_globs-Extends p (g ∷ globs) l =
      Extends-trans l _ _ (add_glob-Extends p g (path_match g "") l) (load_globs-Extends p globs _)

  pub load_globs_done :
      (p : Provider) (globs : List String) (l : Loading)
      → (load_globs path_match p globs l).errs ≡ []
      → All (λ g. path_match g "" ≢ none) globs
  unfolding load_globs add_glob
  load_globs_done p [] l h = tt
  load_globs_done p (g ∷ globs) l h = (
    λ bad. refuse-breaks "invalid glob" l (
        let kept : (add_glob p g (path_match g "") l).errs ≡ [] =
          Extends.unbroken (load_globs-Extends p globs _) h in
        let h' : (refuse "invalid glob" l).errs ≡ [] = rw bad at kept in h'),
    load_globs_done p globs _ h,
  )
