-- ===== src/Auth/Static.antt =====
-- The static table accepts exactly the secrets that it was built from.
use x_beacon.Prelude.{
  ◌≡◌, ◌⊎◌, inl, inr, refl, ap, ◌∙◌, sym, true, false, Result, ok, err, Option, none, some, String,
  List, [], ◌∷◌, ◌++◌, str_eq, str_eq_iff, if◌then◌else◌, Bool-cases, Option-cases, All, All-map,
}
use x_beacon.Prelude.Maps.{lookup, put, contains, lookup-put}
use x_beacon.Auth.{
  AuthError, missing_credentials, invalid_credentials, Principal, StaticEntry, principal_of, Loaded,
  StaticAuthenticator, load_entry, load_entries, loaded, new_static, authenticate,
}

abbrev pub AnyOf : (StaticEntry → Type 0) → List StaticEntry → Type 0
AnyOf P [] = ⊥
AnyOf P (e ∷ es) = P e ⊎ AnyOf P es

module _ (hash : String → String) where
  -- an entry is refused, or it is added under a hash that was free
  record IsAdded (e : StaticEntry) (l : Loaded) (l' : Loaded) : Type 0 where
    has_secret : str_eq e.secret "" ≡ false
    was_free : lookup (hash e.secret) l.by_hash ≡ none
    added : l'.by_hash ≡ put (hash e.secret) (principal_of e) l.by_hash
    same_errs : l'.errs ≡ l.errs

  load_entry_cases :
      (e : StaticEntry) (l : Loaded)
      → IsAdded e l (load_entry hash e l)
        ⊎ ((why : String) × ((load_entry hash e l).errs ≡ l.errs ++ why ∷ []))
  unfolding load_entry
  load_entry_cases e l = elim (Bool-cases (str_eq e.id "")) [
    | inl a ↦ inr ("id is required", rw a)
    | inr a ↦ elim (Bool-cases (str_eq e.secret "")) [
      | inl b ↦ inr ("secret is required", rw (a, b))
      | inr b ↦ elim (Bool-cases (contains e.id l.seen_id)) [
        | inl c ↦ inr ("duplicate id", rw (a, b, c))
        | inr c ↦ elim (Option-cases (lookup (hash e.secret) l.by_hash)) [
          | inr (p, d) ↦ inr ("secret collides with id", rw (a, b, c, d))
          | inl d ↦ inl (record {
            has_secret = b;
            was_free = d;
            added = rw (a, b, c, d);
            same_errs = rw (a, b, c, d);
          })
        ]
      ]
    ]
  ]

  not_empty : (xs : List String) (x : String) → xs ++ x ∷ [] ≡ [] → ⊥
  not_empty [] x h = cc
  not_empty (y ∷ ys) x h = cc

  -- what is known of a load without an error
  record IsFilled (es : List StaticEntry) (l l' : Loaded) : Type 0 where
    no_errors : l.errs ≡ []
    keeps :
        (k : String) {p : Principal} → lookup k l.by_hash ≡ some p → lookup k l'.by_hash ≡ some p
    finds :
        All
          (λ e.
            (str_eq e.secret "" ≡ false)
            × (lookup (hash e.secret) l'.by_hash ≡ some (principal_of e)))
          es
    only :
        (k : String) {p : Principal}
        → lookup k l'.by_hash ≡ some p
        → (lookup k l.by_hash ≡ some p) ⊎ AnyOf (λ e. (hash e.secret ≡ k) × (principal_of e ≡ p)) es

  lookup_new :
      (e : StaticEntry) (l l' : Loaded)
      → IsAdded e l l'
      → (k : String)
      → lookup k l'.by_hash
        ≡ (if str_eq (hash e.secret) k then some (principal_of e) else lookup k l.by_hash)
  lookup_new e l l' h k =
      ap (λ m. lookup k m) h.added ∙ lookup-put (hash e.secret) k (principal_of e) l.by_hash

  lookup_same :
      (e : StaticEntry) (l l' : Loaded)
      → IsAdded e l l'
      → (k : String) → str_eq (hash e.secret) k ≡ true
      → lookup k l'.by_hash ≡ some (principal_of e)
  lookup_same e l l' h k same = lookup_new e l l' h k ∙ rw same

  lookup_other :
      (e : StaticEntry) (l l' : Loaded)
      → IsAdded e l l'
      → (k : String) → str_eq (hash e.secret) k ≡ false
      → lookup k l'.by_hash ≡ lookup k l.by_hash
  lookup_other e l l' h k differs = lookup_new e l l' h k ∙ rw differs

  load_one :
      (e : StaticEntry) (es : List StaticEntry) (l l' l'' : Loaded)
      → IsAdded e l l'
      → IsFilled es l' l''
      → IsFilled (e ∷ es) l l''
  load_one e es l l' l'' a h = record {
    no_errors = sym a.same_errs ∙ h.no_errors;
    keeps = λ k {p} found. h.keeps k (kept k found (Bool-cases (str_eq (hash e.secret) k)));
    finds = ((a.has_secret, h.keeps (hash e.secret) here), h.finds);
    only = λ k {p} found. from k (h.only k found);
  }
    where
      here : lookup (hash e.secret) l'.by_hash ≡ some (principal_of e)
      here =
          let same = (str_eq_iff (hash e.secret) (hash e.secret)).1 refl in
          lookup_same e l l' a (hash e.secret) same

      kept :
          (k : String) {p : Principal}
          → lookup k l.by_hash ≡ some p
          → (str_eq (hash e.secret) k ≡ true) ⊎ (str_eq (hash e.secret) k ≡ false)
          → lookup k l'.by_hash ≡ some p
      kept k found (inl same) =
          let key = (str_eq_iff (hash e.secret) k).0 same in
          let free = ap (λ j. lookup j l.by_hash) (sym key) ∙ a.was_free in cc (free, found)
      kept k found (inr differs) = lookup_other e l l' a k differs ∙ found

      split :
          (k : String) {p : Principal}
          → lookup k l'.by_hash ≡ some p
          → (str_eq (hash e.secret) k ≡ true) ⊎ (str_eq (hash e.secret) k ≡ false)
          → (lookup k l.by_hash ≡ some p)
            ⊎ AnyOf (λ d. (hash d.secret ≡ k) × (principal_of d ≡ p)) (e ∷ es)
      split k {p} found (inl same) =
          let key = (str_eq_iff (hash e.secret) k).0 same in
          let first : ◌≡◌ {A = Option Principal} (some (principal_of e)) (some p) =
            sym (lookup_same e l l' a k same) ∙ found in
          inr (inl (key, cc first))
      split k found (inr differs) = inl (sym (lookup_other e l l' a k differs) ∙ found)

      from :
          (k : String) {p : Principal}
          → (lookup k l'.by_hash ≡ some p)
            ⊎ AnyOf (λ d. (hash d.secret ≡ k) × (principal_of d ≡ p)) es
          → (lookup k l.by_hash ≡ some p)
            ⊎ AnyOf (λ d. (hash d.secret ≡ k) × (principal_of d ≡ p)) (e ∷ es)
      from k (inl found) = split k found (Bool-cases (str_eq (hash e.secret) k))
      from k (inr later) = inr (inr later)

  load_cons :
      (e : StaticEntry) (es : List StaticEntry) (l : Loaded)
      → load_entries hash (e ∷ es) l ≡ load_entries hash es (load_entry hash e l)
  unfolding load_entries
  load_cons e es l = refl

  load_nil : (l : Loaded) → load_entries hash [] l ≡ l
  unfolding load_entries
  load_nil l = refl

  load_lem :
      (es : List StaticEntry) (l : Loaded)
      → (load_entries hash es l).errs ≡ []
      → IsFilled es l (load_entries hash es l)
  load_lem [] l clean = rw (load_nil l) (record {
    no_errors = ap (λ x. x.errs) (sym (load_nil l)) ∙ clean;
    keeps = λ k {p} found. found;
    finds = tt;
    only = λ k {p} found. inl found;
  })
  load_lem (e ∷ es) l clean =
      let l' = load_entry hash e l in
      let clean' = ap (λ x. x.errs) (sym (load_cons e es l)) ∙ clean in
      let later = load_lem es l' clean' in
      rw (load_cons e es l) (elim (load_entry_cases e l) [
        | inl added ↦ load_one e es l l' _ added later
        | inr (why, more) ↦ absurd (not_empty l.errs why (sym more ∙ later.no_errors))
      ])

  abbrev start : Loaded
  start = record { by_hash = []; seen_id = []; errs = [] }

  loaded_cases :
      (l : Loaded) (s : StaticAuthenticator) (errs : List String)
      → l.errs ≡ errs
      → loaded hash l ≡ ok s
      → (l.errs ≡ []) × (s.by_hash ≡ l.by_hash)
  unfolding loaded
  loaded_cases l s [] e h =
      let h' : ◌≡◌ {A = Result (List String) StaticAuthenticator}
          (ok (record { by_hash = l.by_hash })) (ok s) =
        rw (e, loaded) at h in
      let same : ◌≡◌ {A = StaticAuthenticator} (record { by_hash = l.by_hash }) s = cc in
      (e, ap (λ x. x.by_hash) (sym same))
  loaded_cases l s (why ∷ more) e h =
      let h' : ◌≡◌ {A = Result (List String) StaticAuthenticator} (err (why ∷ more)) (ok s) =
        rw (e, loaded) at h in
      cc

  loaded_lem :
      (l : Loaded) (s : StaticAuthenticator)
      → loaded hash l ≡ ok s
      → (l.errs ≡ []) × (s.by_hash ≡ l.by_hash)
  loaded_lem l s h = loaded_cases l s l.errs refl h

  new_static_lem :
      (es : List StaticEntry) (s : StaticAuthenticator)
      → new_static hash es ≡ ok s
      → (end : Loaded) × IsFilled es start end × (s.by_hash ≡ end.by_hash)
  unfolding new_static
  new_static_lem [] s h = cc
  new_static_lem (e ∷ es) s h =
      let end = load_entries hash (e ∷ es) start in
      let (clean, same) = loaded_lem end s h in (end, load_lem (e ∷ es) start clean, same)

  found_lem :
      (s : StaticAuthenticator) (key : String) {p : Principal}
      → str_eq key "" ≡ false
      → lookup (hash key) s.by_hash ≡ some p
      → authenticate hash s key ≡ ok p
  unfolding authenticate
  found_lem s key a b = rw (a, b)

  authenticate_cases :
      (s : StaticAuthenticator) (key : String) (p : Principal)
      → authenticate hash s key ≡ ok p
      → (str_eq key "" ≡ false) × (lookup (hash key) s.by_hash ≡ some p)
  unfolding authenticate
  authenticate_cases s key p h = elim (Bool-cases (str_eq key "")) [
    | inl empty ↦
        let h' : ◌≡◌ {A = Result AuthError Principal} (err missing_credentials) (ok p) =
          rw (empty, authenticate) at h in
        cc
    | inr some_key ↦ elim (Option-cases (lookup (hash key) s.by_hash)) [
      | inl unknown ↦
          let h' : ◌≡◌ {A = Result AuthError Principal} (err invalid_credentials) (ok p) =
            rw (some_key, unknown, authenticate) at h in
          cc
      | inr (q, found) ↦
          let h' : ◌≡◌ {A = Result AuthError Principal} (ok q) (ok p) =
            rw (some_key, found, authenticate) at h in
          let same : q ≡ p = cc in (some_key, found ∙ ap (λ x. some x) same)
    ]
  ]

  module _ (es : List StaticEntry) (s : StaticAuthenticator)
      (built : new_static hash es ≡ ok s) where
    -- The secret of every entry that the table was built from authenticates as the principal of
    -- that entry; and whatever key authenticates is not empty and hashes as the secret of an entry
    -- with the principal that is returned.
    pub new_static-authenticate :
        All (λ e. authenticate hash s e.secret ≡ ok (principal_of e)) es
        × ((key : String) (p : Principal)
            → authenticate hash s key ≡ ok p
            → (str_eq key "" ≡ false)
              × AnyOf (λ e. (hash e.secret ≡ hash key) × (principal_of e ≡ p)) es)
    new_static-authenticate =
        let (end, load, same) = new_static_lem es s built in
        (
          All-map _ _
              (λ e h. found_lem s e.secret h.0 (ap (λ m. lookup (hash e.secret) m) same ∙ h.1)) es
              load.finds,
          λ key p h.
              (let (a, b) = authenticate_cases s key p h in
                (
                  a,
                  unlisted key p
                      (load.only (hash key) (ap (λ m. lookup (hash key) m) (sym same) ∙ b)),
                )),
        )
      where
        unlisted :
            (key : String) (p : Principal)
            → (lookup (hash key) start.by_hash ≡ some p)
              ⊎ AnyOf (λ e. (hash e.secret ≡ hash key) × (principal_of e ≡ p)) es
            → AnyOf (λ e. (hash e.secret ≡ hash key) × (principal_of e ≡ p)) es
        unlisted key p (inl h) = let h' : none ≡ some p = unfold lookup in h in cc
        unlisted key p (inr h) = h
