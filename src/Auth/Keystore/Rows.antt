-- ===== src/Auth/Keystore/Rows.antt =====
-- What the calls of the store do to rows: no call makes a revoked ID active again.
use x_beacon.Prelude.{
  ℕ, ◌≡◌, ◌⊎◌, refl, ap, ◌∙◌, sym, subst, Bool, true, false, ◌&&◌, ok, err, Option, none, some,
  String, List, [], ◌∷◌, map, any, All, str_eq, str_eq_iff, if-cases, inl, inr, Bool-cases, arith,
  ltb,
}
use x_beacon.Auth.{Answer}
use x_beacon.Auth.Keystore.{
  Scopes, KeyRow, KeyTable, KeyRecord, KeyError, KeyTools, Fault, Draw, coalesce, is_active,
  is_null, validate_scopes, generate_secret, Created, new_row, taken, insert_row, encoded_scopes,
  drawn_secret, validated, create_key, revoke_row, find_row, returned_row, after_fault, Revoked,
  revoke_key, touch_row, queried, authenticate_row,
}

-- there are rows of an ID, and none of them is active
pub record IsRevoked (id : String) (t : KeyTable) : Type 0 where
  pub known : any (λ r. str_eq r.id id) t ≡ true
  pub inactive : All (λ r. str_eq r.id id ≡ true → is_active r ≡ false) t

-- a change of rows that keeps the IDs and revives none
Tame : (KeyRow → KeyRow) → Type 0
Tame f = (r : KeyRow) → ((f r).id ≡ r.id) × (is_active r ≡ false → is_active (f r) ≡ false)

map-IsRevoked :
    (f : KeyRow → KeyRow) (id : String) (t : KeyTable)
    → Tame f
    → IsRevoked id t
    → IsRevoked id (map f t)
unfolding Tame
map-IsRevoked f id t tame h = record { known = known t h.known; inactive = inactive t h.inactive }
  where
    known :
        (t : KeyTable)
        → any (λ r. str_eq r.id id) t ≡ true
        → any (λ r. str_eq r.id id) (map f t) ≡ true
    known [] h = h
    known (r ∷ t) h = ground (arith, (tame r).0, known t)

    inactive :
        (t : KeyTable)
        → All (λ r. str_eq r.id id ≡ true → is_active r ≡ false) t
        → All (λ r. str_eq r.id id ≡ true → is_active r ≡ false) (map f t)
    inactive [] h = tt
    inactive (r ∷ t) h =
        (λ same. (tame r).1 (h.0 (ap (λ i. str_eq i id) (sym (tame r).0) ∙ same)), inactive t h.1)

revoke_row-Tame : (id : String) (now : ℕ) → Tame (revoke_row id now)
unfolding Tame revoke_row coalesce is_active
revoke_row-Tame id now r =
    if-cases {A = KeyRow} (λ q. (q.id ≡ r.id) × (is_active r ≡ false → is_active q ≡ false))
      (str_eq r.id id) (λ y. (refl, revoked r.revoked_at)) (λ n. (refl, λ h. h))
  where
    revoked : (o : Option ℕ) → is_null o ≡ false → is_null (coalesce o now) ≡ false
    revoked none h = refl
    revoked (some t) h = refl

touch_row-Tame : (hash : String) (now : ℕ) → Tame (touch_row hash now)
unfolding Tame touch_row is_active
touch_row-Tame hash now r =
    if-cases {A = KeyRow} (λ q. (q.id ≡ r.id) × (is_active r ≡ false → is_active q ≡ false))
      (str_eq r.key_hash hash && is_active r) (λ y. (refl, λ h. h)) (λ n. (refl, λ h. h))

-- the statement of Revoke leaves no active row of the ID
pub revoke-inactive :
    (id : String) (now : ℕ) (t : KeyTable)
    → All (λ r. str_eq r.id id ≡ true → is_active r ≡ false) (map (revoke_row id now) t)
unfolding revoke_row coalesce is_active
revoke-inactive id now [] = tt
revoke-inactive id now (r ∷ t) = (
  if-cases {A = KeyRow} (λ q. str_eq q.id id ≡ true → is_active q ≡ false) (str_eq r.id id)
      (λ y same. given r.revoked_at) (λ n same. cc),
  revoke-inactive id now t,
)
  where
    given : (o : Option ℕ) → is_null (coalesce o now) ≡ false
    given none = refl
    given (some t) = refl

pub find_row-any :
    (p : KeyRow → Bool) (t : KeyTable) (r : KeyRow) → find_row p t ≡ some r → any p t ≡ true
unfolding find_row
find_row-any p [] r h = cc
find_row-any p (q ∷ t) r h = elim (Bool-cases (p q)) [
  | inl y ↦ rw y refl
  | inr n ↦ rw n (find_row-any p t r (rw n at h))
]

not_taken :
    (r : KeyRow) (id : String) (t : KeyTable)
    → taken r t ≡ false
    → any (λ o. str_eq o.id id) t ≡ true
    → str_eq r.id id ≡ false
unfolding taken
not_taken r id [] h k = cc
not_taken r id (o ∷ t) h k =
    ground (arith, str_eq_iff o.id id, str_eq_iff r.id id, str_eq_iff o.id r.id, not_taken r id t)

-- the driver has reported a failure of a statement that was carried out
abbrev pub is_lost : Option Fault → Bool
is_lost none = false
is_lost (some f) = f.committed

-- what Create does to the rows: nothing and an error, or a row of a new ID in front and a success,
-- if the reply is not lost
Grows : Option Fault → KeyTable → Created → Type 0
Grows fault t x =
    ((x.1 ≡ t) × ((e : KeyError) × (x.0 ≡ err e)))
    ⊎ ((r : KeyRow) × (taken r t ≡ false)
        × (x.1 ≡ r ∷ t)
        × (((made : KeyRecord × String) × (x.0 ≡ ok made)) ⊎ (is_lost fault ≡ true)))

-- what the store's calls do to the rows
pub data KeyOp : Type 0 where
  create : Draw → String → Scopes → KeyOp
  revoke : Option Fault → Bool → String → ℕ → KeyOp
  authenticate : Option Fault → ℕ → String → KeyOp

module _ (k : KeyTools) where
  abbrev pub run_op : KeyOp → KeyTable → KeyTable
  run_op (create d name scopes) t = (create_key k d name scopes t).1
  run_op (revoke fault has_cache id now) t = (revoke_key k fault has_cache id now t).1
  run_op (authenticate fault now key) t = (authenticate_row k fault now key t).1

  abbrev pub run_ops : List KeyOp → KeyTable → KeyTable
  run_ops [] t = t
  run_ops (op ∷ ops) t = run_ops ops (run_op op t)

  insert_row-Grows :
      (fault : Option Fault) (r : KeyRow) (secret : String) (t : KeyTable)
      → Grows fault t (insert_row k fault r secret t)
  unfolding Grows insert_row
  insert_row-Grows (some f) r secret t = elim (Bool-cases f.committed) [
    | inr before ↦ rw before (inl (refl, (_, refl)))
    | inl lost ↦ elim (Bool-cases (taken r t)) [
      | inl old ↦ rw (lost, old) (inl (refl, (_, refl)))
      | inr new ↦ rw (lost, new) (inr (r, new, refl, inr refl))
    ]
  ]
  insert_row-Grows none r secret t =
      if-cases {A = Created} (Grows none t) (taken r t) (λ y. inl (refl, (_, refl)))
        (λ n. inr (r, n, refl, inl (_, refl)))

  create_key-Grows :
      (d : Draw) (name : String) (scopes : Scopes) (t : KeyTable)
      → Grows d.fault t (create_key k d name scopes t)
  unfolding Grows create_key validated drawn_secret encoded_scopes
  create_key-Grows d name scopes t =
      if-cases {A = Created} (Grows d.fault t) (str_eq name "") (λ y. inl (refl, (_, refl)))
        (λ n.
          if-cases {A = Created} (Grows d.fault t) (ltb 64 (KeyTools.byte_length k name))
            (λ y. inl (refl, (_, refl))) (λ n. checked (validate_scopes k scopes)))
    where
      written :
          (secret : String) (o : Option String)
          → Grows d.fault t (encoded_scopes k d name secret o t)
      written secret none = inl (refl, (_, refl))
      written secret (some json) = insert_row-Grows d.fault (new_row k d name secret json) secret t

      drawn : (o : Option String) → Grows d.fault t (drawn_secret k d name scopes o t)
      drawn none = inl (refl, (_, refl))
      drawn (some secret) = written secret (KeyTools.marshal k scopes)

      checked : (o : Option String) → Grows d.fault t (validated k d name scopes o t)
      checked (some why) = inl (refl, (_, refl))
      checked none = drawn (generate_secret k d.random)

  run_op-IsRevoked :
      (id : String) (op : KeyOp) (t : KeyTable) → IsRevoked id t → IsRevoked id (run_op op t)
  unfolding Grows
  run_op-IsRevoked id (create d name scopes) t h = elim (create_key-Grows d name scopes t) [
    | inl same ↦ subst (IsRevoked id) (sym same.0) h
    | inr (r, new, grown, ok_made) ↦
        let other = not_taken r id t new h.known in
        subst (IsRevoked id) (sym grown)
          (record { known = rw other h.known; inactive = (λ same. cc, h.inactive) })
  ]
  run_op-IsRevoked id (revoke fault has_cache other now) t h =
      unfold revoke_key in
      if-cases {A = Revoked} (λ x. IsRevoked id x.1) (str_eq other "") (λ y. h) (λ n. faulted fault)
    where
      returned : (o : Option KeyRow) (t' : KeyTable) → (returned_row k has_cache o t').1 ≡ t'
      returned none t' = unfold returned_row in refl
      returned (some r) t' = unfold returned_row in refl

      faulted : (o : Option Fault) → IsRevoked id (after_fault k o has_cache other now t).1
      faulted (some f) =
          unfold after_fault in
          if-cases (IsRevoked id) f.committed
            (λ y. map-IsRevoked (revoke_row other now) id t (revoke_row-Tame other now) h) (λ n. h)
      faulted none =
          unfold after_fault in
          subst (IsRevoked id)
            (sym (
              returned (find_row (λ r. str_eq r.id other) (map (revoke_row other now) t))
                (map (revoke_row other now) t)))
            (map-IsRevoked (revoke_row other now) id t (revoke_row-Tame other now) h)
  run_op-IsRevoked id (authenticate fault now key) t h =
      unfold authenticate_row in
      if-cases {A = Answer × KeyTable} (λ x. IsRevoked id x.1) (str_eq key "") (λ y. h)
        (λ n. asked fault)
    where
      asked : (o : Option Fault) → IsRevoked id (queried k o (KeyTools.sha256 k key) now t).1
      asked (some f) =
          unfold queried in
          if-cases (IsRevoked id) f.committed
            (λ y.
              map-IsRevoked (touch_row (KeyTools.sha256 k key) now) id t
                (touch_row-Tame (KeyTools.sha256 k key) now) h)
            (λ n. h)
      asked none =
          unfold queried in
          map-IsRevoked (touch_row (KeyTools.sha256 k key) now) id t
            (touch_row-Tame (KeyTools.sha256 k key) now) h

  pub run_ops-IsRevoked :
      (id : String) (ops : List KeyOp) (t : KeyTable)
      → IsRevoked id t
      → IsRevoked id (run_ops ops t)
  run_ops-IsRevoked id [] t h = h
  run_ops-IsRevoked id (op ∷ ops) t h =
      run_ops-IsRevoked id ops (run_op op t) (run_op-IsRevoked id op t h)

  -- a failure of Create leaves the rows as they are, or the reply to the insertion of a row was lost
  pub failed-unchanged :
      (d : Draw) (name : String) (scopes : Scopes) (t : KeyTable) (e : KeyError)
      → (create_key k d name scopes t).0 ≡ err e
      → ((create_key k d name scopes t).1 ≡ t)
        ⊎ ((is_lost d.fault ≡ true) × ((r : KeyRow) × ((create_key k d name scopes t).1 ≡ r ∷ t)))
  unfolding Grows
  failed-unchanged d name scopes t e h = elim (create_key-Grows d name scopes t) [
    | inl same ↦ inl same.0
    | inr (r, new, grown, inl (made, done)) ↦ cc
    | inr (r, new, grown, inr lost) ↦ inr (lost, (r, grown))
  ]
