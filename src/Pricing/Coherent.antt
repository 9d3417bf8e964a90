-- ===== src/Pricing/Coherent.antt =====
-- The snapshot stays equal to the table in the database.
use x_beacon.Prelude.{
  ◌≡◌, ◌≢◌, refl, ap, ◌∙◌, sym, subst, Bool, true, false, ◌||◌, ◌⊎◌, inl, inr, Result, ok, err,
  Option, none, some, String, List, [], ◌∷◌, str_eq, str_eq_iff, if◌then◌else◌, Bool-cases,
  Option-cases, Result-cases,
}
use x_beacon.Prelude.Int.{ℤ, pos, ltz}
use x_beacon.Prelude.Maps.{GoMap, lookup, put, lookup-put, lookup-remove}
use x_beacon.Errors.{Err}
use x_beacon.Pricing.{
  Rate, row_of, DistinctModels, Database, PricingCache, lookup_rate, load_rows, replace_one,
  remove_present, remove_one, with_currency, after_query, reload, after_upsert, set_rate,
  after_delete, delete_rate,
}

load_rows_cons :
    (r : Rate) (rows : List Rate) (m : GoMap Rate)
    → load_rows (r ∷ rows) m ≡ load_rows rows (put r.model r m)
unfolding load_rows
load_rows_cons r rows m = refl

abbrev or_else : Option Rate → Option Rate → Option Rate
or_else none d = d
or_else (some r) d = some r

-- with distinct models the order of the rows does not matter
load_rows_lem :
    (rows : List Rate) (m : GoMap Rate) (k : String)
    → DistinctModels rows
    → lookup k (load_rows rows m) ≡ or_else (row_of k rows) (lookup k m)
load_rows_lem [] m k h = unfold load_rows in refl
load_rows_lem (r ∷ rows) m k (fresh, h) =
    ap (λ l. lookup k l) (load_rows_cons r rows m)
    ∙ (load_rows_lem rows (put r.model r m) k h
        ∙ (ap (or_else (row_of k rows)) (lookup-put r.model k r m)
            ∙ here (Bool-cases (str_eq r.model k))))
  where
    here :
        (str_eq r.model k ≡ true) ⊎ (str_eq r.model k ≡ false)
        → or_else (row_of k rows) (if str_eq r.model k then some r else lookup k m)
          ≡ or_else (row_of k (r ∷ rows)) (lookup k m)
    here (inl same) =
        let gone : row_of k rows ≡ none =
          subst (λ j. row_of j rows ≡ none) ((str_eq_iff r.model k).0 same) fresh in
        rw (gone, same)
    here (inr differs) = rw differs

or_else-none : (o : Option Rate) → or_else o none ≡ o
or_else-none none = refl
or_else-none (some r) = refl

module _ (db : Database) (has_pool : Bool) where
  open db use {S, table}

  -- the snapshot holds what the database holds
  abbrev pub IsCoherent : PricingCache → S → Type 0
  IsCoherent c s = (k : String) → lookup_rate c k ≡ table k s

  whole_lem :
      (rows : List Rate) (k : String)
      → DistinctModels rows
      → lookup_rate (record { snapshot = load_rows rows [] }) k ≡ row_of k rows
  unfolding lookup_rate lookup
  whole_lem rows k distinct = load_rows_lem rows [] k distinct ∙ or_else-none (row_of k rows)

  -- After a reload that succeeds the snapshot is the table of the database, whatever it was before;
  -- a reload that fails leaves it as it was.
  pub reload-IsCoherent :
      (c : PricingCache) (s : S)
      → ((reload db has_pool c s).0 ≡ none → IsCoherent (reload db has_pool c s).1 s)
        × ((reload db has_pool c s).0 ≢ none → (reload db has_pool c s).1 ≡ c)
  unfolding reload after_query
  reload-IsCoherent c s = elim (Bool-cases has_pool) [
    | inr no_pool ↦ rw no_pool (λ h. cc, λ h. refl)
    | inl pool ↦ elim (Result-cases (db.query s)) [
      | inr (e, bad) ↦ rw (pool, bad) (λ h. cc, λ h. refl)
      | inl (rows, good) ↦
          rw (pool, good) (λ h k. loaded rows k (db.query_rows s good), λ h. absurd (h refl))
    ]
  ]
    where
      loaded :
          (rows : List Rate) (k : String)
          → DistinctModels rows × ((j : String) → row_of j rows ≡ table j s)
          → lookup_rate (record c { snapshot = load_rows rows [] }) k ≡ table k s
      loaded rows k (distinct, whole) = whole_lem rows k distinct ∙ whole k

  replaced :
      (c : PricingCache) (r : Rate) (k : String)
      → lookup_rate (replace_one r c) k ≡ (if str_eq r.model k then some r else lookup_rate c k)
  unfolding lookup_rate replace_one
  replaced c r k = lookup-put r.model k r c.snapshot

  removed :
      (c : PricingCache) (m k : String)
      → lookup_rate (remove_one m c) k ≡ (if str_eq m k then none else lookup_rate c k)
  unfolding lookup_rate remove_one remove_present
  removed c m k = elim (Option-cases (lookup m c.snapshot)) [
    | inr (r, present) ↦ rw present (lookup-remove m k c.snapshot)
    | inl absent ↦ rw absent (elim (Bool-cases (str_eq m k)) [
      | inr differs ↦ rw differs
      | inl same ↦ rw same (ap (λ j. lookup j c.snapshot) (sym ((str_eq_iff m k).0 same)) ∙ absent)
    ])
  ]

  upsert-IsCoherent :
      (c : PricingCache) (r : Rate) (s : S) (answer : Result Err ℤ)
      → IsCoherent c s
      → (db.upsert r s).0 ≡ answer
      → IsCoherent (after_upsert db has_pool c r answer).1 (db.upsert r s).1
  unfolding after_upsert
  upsert-IsCoherent c r s (err e) h a k = h k ∙ sym (db.upsert_failed r s a k)
  upsert-IsCoherent c r s (ok t) h a k =
      let r' : Rate = record r { updated_at = t } in
      replaced c r' k
      ∙ (ap (λ o. if str_eq r.model k then some r' else o) (h k) ∙ sym (db.upsert_row r s a k))

  -- Setting a rate keeps the snapshot equal to the table, whether the rate is refused, the database
  -- fails, or the row is written.
  pub set_rate-IsCoherent :
      (c : PricingCache) (r : Rate) (s : S)
      → IsCoherent c s
      → IsCoherent (set_rate db has_pool c r s).0.1 (set_rate db has_pool c r s).1
  unfolding set_rate
  set_rate-IsCoherent c r s h =
      let given = with_currency r in
      elim (Bool-cases has_pool) [
        | inr no_pool ↦ rw no_pool h
        | inl pool ↦ elim (Bool-cases (str_eq r.model "")) [
          | inl unnamed ↦ rw (pool, unnamed) h
          | inr named ↦
              elim (Bool-cases
                (ltz given.input_per_1k (pos 0) || ltz given.output_per_1k (pos 0))) [
                  | inl negative ↦ rw (pool, named, negative) h
                  | inr fine ↦ rw (pool, named, fine) (upsert-IsCoherent c given s _ h refl)
                ]
        ]
      ]

  delete-IsCoherent :
      (c : PricingCache) (m : String) (s : S) (answer : Result Err Bool)
      → IsCoherent c s
      → (db.delete m s).0 ≡ answer
      → IsCoherent (after_delete db has_pool c m answer).1 (db.delete m s).1
  unfolding after_delete
  delete-IsCoherent c m s (err e) h a k = h k ∙ sym (db.delete_failed m s a k)
  delete-IsCoherent c m s (ok false) h a k =
      h k ∙ (still (Bool-cases (str_eq m k)) ∙ sym (db.delete_row m s a k))
    where
      still :
          (str_eq m k ≡ true) ⊎ (str_eq m k ≡ false)
          → table k s ≡ (if str_eq m k then none else table k s)
      still (inl same) =
          ap (λ j. table j s) (sym ((str_eq_iff m k).0 same)) ∙ (db.delete_nothing m s a ∙ rw same)
      still (inr differs) = rw differs
  delete-IsCoherent c m s (ok true) h a k =
      removed c m k ∙ (ap (λ o. if str_eq m k then none else o) (h k) ∙ sym (db.delete_row m s a k))

  -- Deleting a rate keeps the snapshot equal to the table, also when there was no such row or the
  -- database fails.
  pub delete_rate-IsCoherent :
      (c : PricingCache) (m : String) (s : S)
      → IsCoherent c s
      → IsCoherent (delete_rate db has_pool c m s).0.1 (delete_rate db has_pool c m s).1
  unfolding delete_rate
  delete_rate-IsCoherent c m s h = elim (Bool-cases has_pool) [
    | inr no_pool ↦ rw no_pool h
    | inl pool ↦ rw pool (delete-IsCoherent c m s _ h refl)
  ]
