-- ===== src/Tests/Pricing.antt =====
-- A database with room for one row.
use x_beacon.Prelude.{
  ◌+◌, ◌*◌, ◌≤◌, ◌<◌, ◌≡◌, inl, inr, refl, ap, sym, ◌∙◌, Bool, true, false, Result, ok, err, Option,
  none, some, String, List, [], ◌∷◌, str_eq, str_eq_iff, if◌then◌else◌, Bool-cases, arith,
}
use x_beacon.Prelude.Int.{ℤ, pos}
use x_beacon.Errors.{Err, other}
use x_beacon.Pricing.{
  Rate, row_of, DistinctModels, Database, PricingCache, lookup_rate, reload, cost,
}
use x_beacon.Pricing.History.{reloads, sets, deletes, change, changes, changes-IsCoherent}
use x_beacon.Pricing.Cost.{cost_bounds}

abbrev rows_of : Option Rate → List Rate
rows_of none = []
rows_of (some q) = q ∷ []

abbrev table : String → Option Rate → Option Rate
table k s = row_of k (rows_of s)

abbrev upsert : Rate → Option Rate → Result Err ℤ × Option Rate
upsert r none = (ok (pos 1), some (record r { updated_at = pos 1 }))
upsert r (some q) =
    if str_eq q.model r.model
    then (ok (pos 1), some (record r { updated_at = pos 1 }))
    else (err (other "disk full"), some q)

abbrev delete : String → Option Rate → Result Err Bool × Option Rate
delete m none = (ok false, none)
delete m (some q) = if str_eq q.model m then (ok true, none) else (ok false, some q)

query_rows :
    (s : Option Rate) {rows : List Rate}
    → ◌≡◌ {A = Result Err (List Rate)} (ok (rows_of s)) (ok rows)
    → DistinctModels rows × ((k : String) → row_of k rows ≡ table k s)
query_rows none {rows} e = let same : [] ≡ rows = cc in rw (← same) (tt, λ k. refl)
query_rows (some q) {rows} e = let same : q ∷ [] ≡ rows = cc in rw (← same) ((refl, tt), λ k. refl)

upsert_row :
    (r : Rate) (s : Option Rate) {t : ℤ}
    → (upsert r s).0 ≡ ok t
    → (k : String)
    → table k (upsert r s).1
      ≡ (if str_eq r.model k then some (record r { updated_at = t }) else table k s)
upsert_row r none {t} e k =
    let same : pos 1 ≡ t = cc in
    ap (λ u. if str_eq r.model k then some (record r { updated_at = u }) else none) same
upsert_row r (some q) {t} e k = elim (Bool-cases (str_eq q.model r.model)) [
  | inr full ↦ let e' : ◌≡◌ {A = Result Err ℤ} (err (other "disk full")) (ok t) = rw full at e in cc
  | inl over ↦
      let e' : ◌≡◌ {A = Result Err ℤ} (ok (pos 1)) (ok t) = rw over at e in
      let same : pos 1 ≡ t = cc in
      rw over (elim (Bool-cases (str_eq r.model k)) [
        | inl here ↦ rw here (ap (λ u. some (record r { updated_at = u })) same)
        | inr away ↦ rw (away, ap (λ x. str_eq x k) ((str_eq_iff q.model r.model).0 over) ∙ away)
      ])
]

upsert_failed :
    (r : Rate) (s : Option Rate) {e : Err}
    → (upsert r s).0 ≡ err e
    → (k : String) → table k (upsert r s).1 ≡ table k s
upsert_failed r none h k = cc
upsert_failed r (some q) {e} h k = elim (Bool-cases (str_eq q.model r.model)) [
  | inr full ↦ rw full
  | inl over ↦ let h' : ◌≡◌ {A = Result Err ℤ} (ok (pos 1)) (err e) = rw over at h in cc
]

delete_row :
    (m : String) (s : Option Rate) {b : Bool}
    → (delete m s).0 ≡ ok b
    → (k : String) → table k (delete m s).1 ≡ (if str_eq m k then none else table k s)
delete_row m none h k = ground arith
delete_row m (some q) h k = elim (Bool-cases (str_eq q.model m)) [
  | inl gone ↦ rw gone (elim (Bool-cases (str_eq m k)) [
    | inl here ↦ rw here
    | inr away ↦ rw (away, ap (λ x. str_eq x k) ((str_eq_iff q.model m).0 gone) ∙ away)
  ])
  | inr kept ↦ rw kept (elim (Bool-cases (str_eq m k)) [
    | inl here ↦ rw (here, ap (λ x. str_eq q.model x) (sym ((str_eq_iff m k).0 here)) ∙ kept)
    | inr away ↦ rw away
  ])
]

delete_nothing : (m : String) (s : Option Rate) → (delete m s).0 ≡ ok false → table m s ≡ none
delete_nothing m none h = refl
delete_nothing m (some q) h = elim (Bool-cases (str_eq q.model m)) [
  | inl gone ↦ let h' : ◌≡◌ {A = Result Err Bool} (ok true) (ok false) = rw gone at h in cc
  | inr kept ↦ rw kept
]

delete_failed :
    (m : String) (s : Option Rate) {e : Err}
    → (delete m s).0 ≡ err e
    → (k : String) → table k (delete m s).1 ≡ table k s
delete_failed m none h k = cc
delete_failed m (some q) {e} h k = elim (Bool-cases (str_eq q.model m)) [
  | inl gone ↦ let h' : ◌≡◌ {A = Result Err Bool} (ok true) (err e) = rw gone at h in cc
  | inr kept ↦ rw kept
]

abbrev one_row : Database
one_row = record {
  S = Option Rate;
  table = table;
  query = λ s. ok (rows_of s);
  upsert = upsert;
  delete = delete;
  query_rows = λ s {rows} e. query_rows s e;
  upsert_row = λ r s {t} e. upsert_row r s e;
  upsert_failed = λ r s {e} h. upsert_failed r s h;
  delete_row = λ m s {b} h. delete_row m s h;
  delete_nothing = delete_nothing;
  delete_failed = λ m s {e} h. delete_failed m s h;
}

abbrev mini : Rate
mini = record {
  model = "mini";
  currency = "USD";
  input_per_1k = pos 150;
  output_per_1k = pos 600;
  updated_at = pos 0;
}

abbrev empty : PricingCache
empty = record { snapshot = [] }

changes-IsCoherent_example :
    lookup_rate
      (changes one_row true
        (sets mini ∷ deletes "mini" ∷ sets mini ∷ reloads ∷ [])
        (change one_row true reloads (empty, none))).0
      "mini"
    ≡ table "mini"
        (changes one_row true
          (sets mini ∷ deletes "mini" ∷ sets mini ∷ reloads ∷ [])
          (change one_row true reloads (empty, none))).1
unfolding reload
changes-IsCoherent_example =
    changes-IsCoherent one_row true empty none refl
      (sets mini ∷ deletes "mini" ∷ sets mini ∷ reloads ∷ []) "mini"

cost_bounds_example :
    (cost mini (pos 1234) (pos 567) ≡ pos 525)
    × (1000 * 525 ≤ 1234 * 150 + 567 * 600)
    × (1234 * 150 + 567 * 600 < 1000 * 525 + 2000)
cost_bounds_example = cost_bounds mini 1234 567 150 600 refl refl refl (omega arith)
