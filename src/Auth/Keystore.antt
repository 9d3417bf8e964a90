-- ===== src/Auth/Keystore.antt =====
-- internal/auth/keystore.go and postgres.go: the table of API keys. An SQL statement is a function on
-- the rows of api_keys, whose ID and hash are unique; `fault` is what the driver fails with. A store
-- has a pool. A time is a number.
pub mod Rows
pub mod Life
pub mod Issue
pub mod Listing
pub mod Uses
use Prim.Native.String.{◌++◌ as append}
use x_beacon.Prelude.{
  ℕ, zero, suc, ltb, Bool, true, false, ◌||◌, ◌&&◌, not, Result, ok, err, Option, none, some,
  String, List, [], ◌∷◌, map, length, any, str_eq, if◌then◌else◌,
}
use x_beacon.Prelude.Maps.{GoMap}
use x_beacon.Auth.{AuthError, missing_credentials, invalid_credentials, internal, Principal, Answer}

abbrev pub Scopes : Type 0
Scopes = GoMap (List String)

pub record KeyRow : Type 0 where
  pub id : String
  pub key_hash : String
  pub name : String
  pub scopes : String  -- JSONB, as the text that a query gives
  pub created_at : ℕ
  pub last_used_at : Option ℕ
  pub revoked_at : Option ℕ

abbrev pub KeyTable : Type 0
KeyTable = List KeyRow

pub record KeyRecord : Type 0 where
  pub id : String
  pub id_preview : String
  pub name : String
  pub hash_hex_short : String
  pub scopes : Scopes
  pub created_at : ℕ
  pub last_used_at : Option ℕ
  pub revoked_at : Option ℕ

-- ErrKeyNotFound, or any other error by its text
pub data KeyError : Type 0 where
  key_not_found : KeyError
  key_error : String → KeyError

-- the libraries, and what Postgres does to texts and to the order of rows
pub record KeyTools : Type 0 where
  pub sha256 : String → String
  pub hex : String → String
  pub base64url : String → String
  pub byte_length : String → ℕ
  pub first_bytes : ℕ → String → String  -- s[:n] of a longer text
  pub scope_pattern : String → Bool
  pub marshal : Scopes → Option String
  pub unmarshal : String → Option Scopes
  pub jsonb : String → String  -- what a JSONB column gives back
  pub like : String → String → Bool  -- name LIKE pattern
  pub newest_first : KeyTable → KeyTable  -- ORDER BY created_at DESC

-- a failure that the driver reports, and whether the statement was carried out all the same
pub record Fault : Type 0 where
  pub text : String
  pub committed : Bool

-- what a call of Create draws: the UUID, the random bytes, the time, and the driver's failure
pub record Draw : Type 0 where
  pub uuid : String
  pub random : Option String
  pub now : ℕ
  pub fault : Option Fault

unfoldable pub no_scopes : String → Bool
no_scopes raw = str_eq raw "" || str_eq raw "{}" || str_eq raw "null"

-- COALESCE(revoked_at, now())
unfoldable pub coalesce : Option ℕ → ℕ → Option ℕ
coalesce none now = some now
coalesce (some t) now = some t

abbrev pub is_null : Option ℕ → Bool
is_null none = true
is_null (some t) = false

unfoldable pub is_active : KeyRow → Bool
is_active r = is_null r.revoked_at

-- UPDATE api_keys SET revoked_at = COALESCE(revoked_at, now()) WHERE id = $1
unfoldable pub revoke_row : String → ℕ → KeyRow → KeyRow
unfolding coalesce
revoke_row id now r =
    if str_eq r.id id then record r { revoked_at = coalesce r.revoked_at now } else r

unfoldable pub find_row : (KeyRow → Bool) → KeyTable → Option KeyRow
find_row p [] = none
find_row p (r ∷ t) = let rest = find_row p t in if p r then some r else rest

-- UPDATE api_keys SET last_used_at = now() WHERE key_hash = $1 AND revoked_at IS NULL
unfoldable pub touch_row : String → ℕ → KeyRow → KeyRow
touch_row hash now r =
    if str_eq r.key_hash hash && is_active r then record r { last_used_at = some now } else r

or_then : Option String → Option String → Option String
or_then (some why) rest = some why
or_then none rest = rest

or_nothing : Option Scopes → Scopes
or_nothing none = []
or_nothing (some s) = s

-- the scopes as they are written: never the text null
unfoldable pub as_object : String → String
as_object json = if str_eq json "null" then "{}" else json

taken : KeyRow → KeyTable → Bool
taken r t = any (λ o. str_eq o.id r.id || str_eq o.key_hash r.key_hash) t

abbrev pub Created : Type 0
Created = Result KeyError (KeyRecord × String) × KeyTable

-- the result, the rows, and the keys of the cache that are deleted
abbrev pub Revoked : Type 0
Revoked = Result KeyError KeyRecord × KeyTable × List String

module _ (k : KeyTools) where
  open k use {sha256, hex, byte_length, first_bytes, marshal, unmarshal}

  unfoldable pub decode_scopes : String → Scopes
  unfolding or_nothing
  decode_scopes raw = if no_scopes raw then [] else or_nothing (unmarshal raw)

  -- idPreview and shortHashHex: the first `w` bytes, or the whole text when it is not longer
  unfoldable pub preview : ℕ → String → String
  preview w s = if ltb w (byte_length s) then first_bytes w s else s

  unfoldable pub record_of : KeyRow → KeyRecord
  unfolding preview decode_scopes
  record_of r = record {
    id = r.id;
    id_preview = preview 8 r.id;
    name = r.name;
    hash_hex_short = preview 12 (hex r.key_hash);
    scopes = decode_scopes r.scopes;
    created_at = r.created_at;
    last_used_at = r.last_used_at;
    revoked_at = r.revoked_at;
  }

  -- the first scope that is refused
  unfoldable pub validate_values : String → List String → Option String
  validate_values cat [] = none
  validate_values cat (v ∷ vals) =
      let rest = validate_values cat vals in
      if k.scope_pattern (append cat (append ":" v))
      then rest
      else some "auth: scope invalid (must match)"

  unfoldable pub validate_scopes : Scopes → Option String
  unfolding or_then validate_values
  validate_scopes [] = none
  validate_scopes ((cat, []) ∷ m) = some "auth: scope category has no values"
  validate_scopes ((cat, v ∷ vals) ∷ m) =
      or_then (validate_values cat (v ∷ vals)) (validate_scopes m)

  unfoldable pub generate_secret : Option String → Option String
  generate_secret none = none
  generate_secret (some random) = some (append "sk-" (k.base64url random))

  new_row : Draw → String → String → String → KeyRow
  new_row d name secret json = record {
    id = d.uuid;
    key_hash = sha256 secret;
    name = name;
    scopes = k.jsonb (as_object json);
    created_at = d.now;
    last_used_at = none;
    revoked_at = none;
  }

  -- INSERT INTO api_keys
  unfoldable pub insert_row : Option Fault → KeyRow → String → KeyTable → Created
  unfolding taken record_of
  insert_row (some f) r secret t = (
    err (key_error (append "auth: insert api_key: " f.text)),
    if f.committed && not (taken r t) then r ∷ t else t,
  )
  insert_row none r secret t =
      if taken r t
      then (
        err (key_error "auth: insert api_key: duplicate key value violates unique constraint"),
        t,
      )
      else (ok (record_of r, secret), r ∷ t)

  encoded_scopes : Draw → String → String → Option String → KeyTable → Created
  unfolding insert_row new_row
  encoded_scopes d name secret none t = (err (key_error "auth: encode scopes: "), t)
  encoded_scopes d name secret (some json) t =
      insert_row d.fault (new_row d name secret json) secret t

  drawn_secret : Draw → String → Scopes → Option String → KeyTable → Created
  unfolding encoded_scopes
  drawn_secret d name scopes none t = (err (key_error "auth: generate secret: "), t)
  drawn_secret d name scopes (some secret) t = encoded_scopes d name secret (marshal scopes) t

  validated : Draw → String → Scopes → Option String → KeyTable → Created
  unfolding drawn_secret
  validated d name scopes (some why) t = (err (key_error why), t)
  validated d name scopes none t = drawn_secret d name scopes (generate_secret d.random) t

  -- Keystore.Create
  unfoldable pub create_key : Draw → String → Scopes → KeyTable → Created
  unfolding validated validate_scopes
  create_key d name scopes t =
      if str_eq name ""
      then (err (key_error "auth: name is required"), t)
      else if ltb 64 (byte_length name)
      then (err (key_error "auth: name must be <= 64 chars"), t)
      else validated d name scopes (validate_scopes scopes) t

  returned_row : Bool → Option KeyRow → KeyTable → Revoked
  unfolding record_of
  returned_row has_cache none t = (err key_not_found, t, [])
  returned_row has_cache (some r) t =
      (ok (record_of r), t, if has_cache then append "auth:k:" (hex r.key_hash) ∷ [] else [])

  after_fault : Option Fault → Bool → String → ℕ → KeyTable → Revoked
  unfolding returned_row revoke_row find_row
  after_fault (some f) has_cache id now t = (
    err (key_error (append "auth: revoke api_key: " f.text)),
    if f.committed then map (revoke_row id now) t else t,
    [],
  )
  after_fault none has_cache id now t =
      let t' = map (revoke_row id now) t in
      returned_row has_cache (find_row (λ r. str_eq r.id id) t') t'

  -- Keystore.Revoke; a failed DEL is only logged
  unfoldable pub revoke_key : Option Fault → Bool → String → ℕ → KeyTable → Revoked
  unfolding after_fault
  revoke_key fault has_cache id now t =
      if str_eq id ""
      then (err (key_error "auth: id is required"), t, [])
      else after_fault fault has_cache id now t

  decoded_principal : KeyRow → Option Scopes → Answer
  decoded_principal r none = err (internal "auth: decode scopes")
  decoded_principal r (some s) = ok (record { id = r.id; name = r.name; scopes = s })

  unfoldable pub principal_row : Option KeyRow → Answer
  unfolding decoded_principal
  principal_row none = err invalid_credentials
  principal_row (some r) =
      if no_scopes r.scopes
      then ok (record { id = r.id; name = r.name; scopes = [] })
      else decoded_principal r (unmarshal r.scopes)

  queried : Option Fault → String → ℕ → KeyTable → Answer × KeyTable
  unfolding touch_row principal_row find_row
  queried (some f) hash now t = (
    err (internal (append "auth: query api_keys: " f.text)),
    if f.committed then map (touch_row hash now) t else t,
  )
  queried none hash now t = (
    principal_row (find_row (λ r. str_eq r.key_hash hash && is_active r) t),
    map (touch_row hash now) t,
  )

  -- PostgresAuthenticator.Authenticate
  unfoldable pub authenticate_row : Option Fault → ℕ → String → KeyTable → Answer × KeyTable
  unfolding queried
  authenticate_row fault now key t =
      if str_eq key "" then (err missing_credentials, t) else queried fault (sha256 key) now t
