-- ===== src/Auth/Keystore/Issue.antt =====
-- A key that Create has handed out is a key that Authenticate accepts.
use Prim.Native.String.{◌++◌ as append}
use text.Mathlib.TextLemmas.{append-eq-nil_iff}
use x_beacon.Prelude.{
  ℕ, ◌≡◌, ◌⊎◌, refl, ap, ◌∙◌, subst, true, false, Result, ok, err, Option, none, some, String, [],
  ◌∷◌, str_eq, str_eq_iff, if-cases, inl, inr, ltb, Bool-cases,
}
use x_beacon.Prelude.Maps.{lookup}
use x_beacon.Auth.{Principal, values, grants, has_scope}
use x_beacon.Auth.Keystore.{
  Scopes, KeyRow, KeyTable, KeyRecord, KeyError, KeyTools, Fault, Draw, no_scopes, is_active,
  record_of, validate_scopes, generate_secret, Created, as_object, new_row, taken, insert_row,
  encoded_scopes, drawn_secret, validated, create_key, find_row, decoded_principal, principal_row,
  queried, authenticate_row,
}

-- encoding/json and JSONB keep the values of each category
abbrev pub KeepsScopes : KeyTools → Type 0
KeepsScopes k =
    (s : Scopes) (json : String)
    → KeyTools.marshal k s ≡ some json
    → ((no_scopes (KeyTools.jsonb k (as_object json)) ≡ true) × (s ≡ []))
      ⊎ ((no_scopes (KeyTools.jsonb k (as_object json)) ≡ false)
          × ((s' : Scopes) × (KeyTools.unmarshal k (KeyTools.jsonb k (as_object json)) ≡ some s')
              × ((c : String) → lookup c s' ≡ lookup c s)))

-- a principal with the ID and the name, and with just the grants of the scopes
pub record Holds (id name : String) (scopes : Scopes) (p : Principal) : Type 0 where
  pub same_id : p.id ≡ id
  pub same_name : p.name ≡ name
  pub same_grants :
      (c v : String)
      → has_scope (some p) c v
        ≡ has_scope (some (record { id = id; name = name; scopes = scopes })) c v

secret_nonempty :
    (o : Option String) (k : KeyTools) (s : String)
    → generate_secret k o ≡ some s
    → str_eq s "" ≡ false
unfolding generate_secret
secret_nonempty none k s h = cc
secret_nonempty (some b) k s h =
    let e : append "sk-" (KeyTools.base64url k b) ≡ s = cc in
    elim (Bool-cases (str_eq s "")) [
      | inl y ↦
          let empty = (append-eq-nil_iff.0 (e ∙ (str_eq_iff s "").0 y)).0 in
          let same : str_eq "sk-" "" ≡ true = (str_eq_iff "sk-" "").1 empty in
          let other : str_eq "sk-" "" ≡ false = refl in cc
      | inr n ↦ n
    ]

module _ (k : KeyTools) (keeps : KeepsScopes k) (now : ℕ) (name : String) (scopes : Scopes)
    (rec : KeyRecord) (secret : String) where
  -- where the result is the record and the secret, the secret is accepted
  Issued : Created → Type 0
  Issued x =
      x.0 ≡ ok (rec, secret)
      → (p : Principal) × ((authenticate_row k none now secret x.1).0 ≡ ok p)
        × Holds rec.id name scopes p

  secret_of : Result KeyError (KeyRecord × String) → String
  secret_of (ok (r, s)) = s
  secret_of (err e) = secret

  id_of : Result KeyError (KeyRecord × String) → String
  id_of (ok (r, s)) = r.id
  id_of (err e) = rec.id

  row_principal :
      (r : KeyRow) (json : String)
      → KeyTools.marshal k scopes ≡ some json
      → r.scopes ≡ KeyTools.jsonb k (as_object json)
      → r.name ≡ name
      → (p : Principal) × (principal_row k (some r) ≡ ok p) × Holds r.id name scopes p
  unfolding principal_row decoded_principal
  row_principal r json m raw named = elim (keeps scopes json m) [
    | inl (nothing, empty) ↦ (
      record { id = r.id; name = r.name; scopes = [] },
      rw (raw, nothing) refl,
      record {
        same_id = refl;
        same_name = named;
        same_grants = λ c v. unfold has_scope in rw empty refl;
      },
    )
    | inr (something, (s', decoded, same)) ↦ (
      record { id = r.id; name = r.name; scopes = s' },
      rw (raw, something, decoded) refl,
      record {
        same_id = refl;
        same_name = named;
        same_grants = λ c v. unfold has_scope in ap (λ vs. grants v (values vs)) (same c);
      },
    )
  ]

  -- Create hands out keys that Authenticate accepts: after a success, the secret that is returned
  -- gives the principal with the ID and the name of the new key, which has a scope if and only if
  -- the scopes given to Create grant it. JSON and JSONB keep the scopes, and the database answers.
  pub create_authenticates :
      (d : Draw) (t : KeyTable)
      → (create_key k d name scopes t).0 ≡ ok (rec, secret)
      → (p : Principal) × ((authenticate_row k none now secret (create_key k d name scopes t).1).0
          ≡ ok p)
        × Holds rec.id name scopes p
  unfolding Issued create_key validated drawn_secret encoded_scopes secret_of id_of
  create_authenticates d t =
      if-cases {A = Created} Issued (str_eq name "") (λ y h. cc)
        (λ n.
          if-cases {A = Created} Issued (ltb 64 (KeyTools.byte_length k name)) (λ y h. cc)
            (λ n. checked (validate_scopes k scopes)))
    where
      accepted :
          (s json : String)
          → KeyTools.marshal k scopes ≡ some json
          → str_eq s "" ≡ false
          → Issued (ok (record_of k (new_row k d name s json), s), new_row k d name s json ∷ t)
      accepted s json m filled h =
          unfold authenticate_row queried find_row is_active new_row record_of in
          let same : s ≡ secret = ap (secret_of) h in
          let id : d.uuid ≡ rec.id = ap id_of h in
          let hits : str_eq (KeyTools.sha256 k s) (KeyTools.sha256 k secret) ≡ true =
            (str_eq_iff _ _).1 (ap (KeyTools.sha256 k) same) in
          let filled' : str_eq secret "" ≡ false = rw⁻¹ same filled in
          let (p, given, holds) = row_principal (new_row k d name s json) json m refl refl in
          (p, rw (filled', hits) given, subst (λ i. Holds i name scopes p) id holds)

      inserted :
          (o : Option Fault) (json s : String)
          → KeyTools.marshal k scopes ≡ some json
          → str_eq s "" ≡ false
          → Issued (insert_row k o (new_row k d name s json) s t)
      inserted (some why) json s m filled h = unfold insert_row in cc
      inserted none json s m filled h =
          unfold insert_row in
          if-cases {A = Created} Issued (taken (new_row k d name s json) t) (λ y h. cc)
            (λ n. accepted s json m filled) h

      written :
          (s : String) (o : Option String)
          → KeyTools.marshal k scopes ≡ o
          → str_eq s "" ≡ false
          → Issued (encoded_scopes k d name s o t)
      written s none e filled h = cc
      written s (some json) e filled h = inserted d.fault json s e filled h

      drawn :
          (o : Option String)
          → generate_secret k d.random ≡ o
          → Issued (drawn_secret k d name scopes o t)
      drawn none e h = cc
      drawn (some s) e h = written s _ refl (secret_nonempty d.random k s e) h

      checked : (o : Option String) → Issued (validated k d name scopes o t)
      checked (some why) h = cc
      checked none h = drawn _ refl h
