-- ===== src/Auth/Keystore/Life.antt =====
-- A key from its creation to its end.
use x_beacon.Prelude.{
  ℕ, ◌≡◌, refl, ap, subst, Bool, true, false, ◌&&◌, ok, err, Option, none, some, String, List, [],
  ◌∷◌, map, All, str_eq, if-cases, inl, inr, Bool-cases, and_true,
}
use x_beacon.Auth.{Principal, Answer}
use x_beacon.Auth.Keystore.{
  Scopes, KeyRow, KeyTable, KeyRecord, KeyTools, Fault, no_scopes, is_active, revoke_row, find_row,
  returned_row, after_fault, Revoked, revoke_key, decoded_principal, principal_row, queried,
  authenticate_row,
}
use x_beacon.Auth.Keystore.Rows.{
  KeyOp, run_ops, IsRevoked, revoke-inactive, find_row-any, run_ops-IsRevoked,
}

find_row-All :
    (p : KeyRow → Bool) (Q : KeyRow → Type 0) (t : KeyTable) (r : KeyRow)
    → All Q t
    → find_row p t ≡ some r
    → Q r × (p r ≡ true)
unfolding find_row
find_row-All p Q [] r a h = cc
find_row-All p Q (q ∷ t) r a h = elim (Bool-cases (p q)) [
  | inl y ↦
      let here : some q ≡ some r = rw y at h in
      let same : q ≡ r = cc in subst (λ o. Q o × (p o ≡ true)) same (a.0, y)
  | inr n ↦ find_row-All p Q t r a.1 (rw n at h)
]

-- a success of Revoke leaves the ID revoked
Revokes : String → KeyRecord → Revoked → Type 0
Revokes id rec x = x.0 ≡ ok rec → IsRevoked id x.1

-- a success of Authenticate is for another ID
Avoids : String → Principal → Answer → Type 0
Avoids id p a = a ≡ ok p → str_eq p.id id ≡ false

module _ (k : KeyTools) where
  revoked-IsRevoked :
      (fault : Option Fault) (has_cache : Bool) (id : String) (now : ℕ) (t : KeyTable)
      (rec : KeyRecord)
      → Revokes id rec (revoke_key k fault has_cache id now t)
  unfolding Revokes revoke_key after_fault returned_row
  revoked-IsRevoked fault has_cache id now t rec =
      if-cases {A = Revoked} (Revokes id rec) (str_eq id "") (λ y h. cc) (λ n. faulted fault)
    where
      returned :
          (o : Option KeyRow)
          → find_row (λ r. str_eq r.id id) (map (revoke_row id now) t) ≡ o
          → Revokes id rec (returned_row k has_cache o (map (revoke_row id now) t))
      returned none e h = cc
      returned (some r) e h = record {
        known = find_row-any (λ r. str_eq r.id id) (map (revoke_row id now) t) r e;
        inactive = revoke-inactive id now t;
      }

      faulted : (o : Option Fault) → Revokes id rec (after_fault k o has_cache id now t)
      faulted (some why) h = cc
      faulted none h = returned _ refl h

  -- a principal that Authenticate gives has the ID of an active row
  principal_active :
      (fault : Option Fault) (now : ℕ) (key id : String) (t : KeyTable) (p : Principal)
      → All (λ r. str_eq r.id id ≡ true → is_active r ≡ false) t
      → Avoids id p (authenticate_row k fault now key t).0
  unfolding Avoids authenticate_row queried principal_row decoded_principal
  principal_active fault now key id t p a =
      if-cases {A = Answer × KeyTable} (λ x. Avoids id p x.0) (str_eq key "") (λ y h. cc)
        (λ n. asked fault)
    where
      hash : String
      hash = KeyTools.sha256 k key

      principal_id : Answer → String
      principal_id (ok q) = q.id
      principal_id (err e) = p.id

      wanted : KeyRow → Bool
      wanted r = str_eq r.key_hash hash && is_active r

      decoded :
          (r : KeyRow) (o : Option Scopes)
          → str_eq r.id id ≡ false
          → Avoids id p (decoded_principal k r o)
      decoded r none other h = cc
      decoded r (some s) other h = rw⁻¹ (ap principal_id h) other

      other_id : (r : KeyRow) → find_row wanted t ≡ some r → str_eq r.id id ≡ false
      other_id r e =
          let (quiet, hit) =
            find_row-All wanted (λ r. str_eq r.id id ≡ true → is_active r ≡ false) t r a e in
          elim (Bool-cases (str_eq r.id id)) [
            | inl y ↦
                let active : is_active r ≡ true =
                  (and_true (str_eq r.key_hash hash) (is_active r) hit).1 in
                let silent : is_active r ≡ false = quiet y in cc
            | inr n ↦ n
          ]

      rowed : (o : Option KeyRow) → find_row wanted t ≡ o → Avoids id p (principal_row k o)
      rowed none e h = cc
      rowed (some r) e h =
          if-cases {A = Answer} (Avoids id p) (no_scopes r.scopes)
            (λ y h. rw⁻¹ (ap principal_id h) (other_id r e))
            (λ n. decoded r (KeyTools.unmarshal k r.scopes) (other_id r e)) h

      asked : (o : Option Fault) → Avoids id p (queried k o hash now t).0
      asked (some why) h = cc
      asked none h = rowed _ refl h

  -- Once Revoke has succeeded for an ID, the authenticator of the table gives the principal of that
  -- ID for no key ever again: whatever keys are created, revoked and used in between, and whether the
  -- database fails in some of these calls or not. An authentication cache in front is outside.
  pub revoked_for_good :
      (fault : Option Fault) (has_cache : Bool) (id : String) (now : ℕ) (t : KeyTable)
      (rec : KeyRecord)
      → (revoke_key k fault has_cache id now t).0 ≡ ok rec
      → (ops : List KeyOp) (fault' : Option Fault) (now' : ℕ) (key : String) (p : Principal)
      → (authenticate_row k fault' now' key
          (run_ops k ops (revoke_key k fault has_cache id now t).1)).0
        ≡ ok p
      → str_eq p.id id ≡ false
  unfolding Avoids Revokes
  revoked_for_good fault has_cache id now t rec h ops fault' now' key p =
      principal_active fault' now' key id _ p (
        IsRevoked.inactive
          (run_ops-IsRevoked k id ops _ (revoked-IsRevoked fault has_cache id now t rec h)))
