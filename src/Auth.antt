-- ===== src/Auth.antt =====
-- internal/auth/auth.go, static.go and cached.go: who a key belongs to. SHA-256, the JSON codec and
-- Redis are parameters.
pub mod Static
pub mod Cached
pub mod Keystore
use Prim.Native.String.{◌++◌ as append}
use x_beacon.Prelude.{
  ℕ, ◌≡◌, Bool, true, false, ◌||◌, ◌&&◌, ◌⊎◌, not, Result, ok, err, Option, none, some, String,
  List, [], ◌∷◌, ◌++◌, str_eq, if◌then◌else◌,
}
use x_beacon.Prelude.Int.{ℤ, pos, ltz}
use x_beacon.Prelude.Maps.{GoMap, lookup, put, contains}

pub data AuthError : Type 0 where
  missing_credentials invalid_credentials : AuthError
  wrapped_auth : String → AuthError → AuthError  -- %w
  internal : String → AuthError

-- errors.Is(err, ErrInvalidCredentials)
unfoldable pub is_invalid : AuthError → Bool
is_invalid missing_credentials = false
is_invalid invalid_credentials = true
is_invalid (wrapped_auth s e) = is_invalid e
is_invalid (internal s) = false

pub record Principal : Type 0 where
  pub id : String
  pub name : String
  pub scopes : GoMap (List String)

-- the loop of HasScope
unfoldable pub grants : String → List String → Bool
grants value [] = false
grants value (v ∷ vs) = (str_eq v "*" || str_eq v value) || grants value vs

abbrev pub values : Option (List String) → List String
values none = []
values (some vs) = vs

-- HasScope; `none` is a nil principal
unfoldable pub has_scope : Option Principal → String → String → Bool
unfolding grants
has_scope none category value = false
has_scope (some p) category value = grants value (values (lookup category p.scopes))

pub record StaticEntry : Type 0 where
  pub id : String
  pub name : String
  pub secret : String
  pub scopes : GoMap (List String)

abbrev pub principal_of : StaticEntry → Principal
principal_of e = record { id = e.id; name = e.name; scopes = e.scopes }

-- the variables of the loop of NewStatic
pub record Loaded : Type 0 where
  pub by_hash : GoMap Principal
  pub seen_id : List String
  pub errs : List String

pub record StaticAuthenticator : Type 0 where
  pub by_hash : GoMap Principal

module _ (hash : String → String) where
  unfoldable pub load_entry : StaticEntry → Loaded → Loaded
  load_entry e l =
      let refuse : String → Loaded = λ why. record l { errs = l.errs ++ why ∷ [] } in
      if str_eq e.id ""
      then refuse "id is required"
      else if str_eq e.secret ""
      then refuse "secret is required"
      else if contains e.id l.seen_id
      then refuse "duplicate id"
      else (let seen = e.id ∷ l.seen_id in
          elim (lookup (hash e.secret) l.by_hash) [
            | some existing ↦ record l {
              seen_id = seen;
              errs = l.errs ++ "secret collides with id" ∷ [];
            }
            | none ↦ record l {
              seen_id = seen;
              by_hash = put (hash e.secret) (principal_of e) l.by_hash;
            }
          ])

  unfoldable pub load_entries : List StaticEntry → Loaded → Loaded
  load_entries [] l = l
  load_entries (e ∷ es) l = load_entries es (load_entry e l)

  loaded : Loaded → Result (List String) StaticAuthenticator
  loaded l = elim l.errs [
    | [] ↦ ok (record { by_hash = l.by_hash })
    | why ∷ more ↦ err (why ∷ more)
  ]

  -- NewStatic; the joined errors are a list
  unfoldable pub new_static : List StaticEntry → Result (List String) StaticAuthenticator
  unfolding loaded
  new_static [] = err ("auth: at least one key entry is required" ∷ [])
  new_static (e ∷ es) =
      loaded (load_entries (e ∷ es) (record { by_hash = []; seen_id = []; errs = [] }))

  unfoldable pub authenticate : StaticAuthenticator → String → Result AuthError Principal
  authenticate s key =
      if str_eq key ""
      then err missing_credentials
      else elim (lookup (hash key) s.by_hash) [ none ↦ err invalid_credentials | some p ↦ ok p ]

-- What a Redis GET gives: no entry, a failure, or the bytes.
pub data CacheReply : Type 0 where
  nil failed : CacheReply
  found : String → CacheReply

-- Redis, in which an entry may be lost or a command fail at any time, and the JSON codec.
pub record AuthCache : Type 1 where
  pub S : Type 0
  pub get : String → S → CacheReply
  pub set : String → String → ℤ → S → S
  pub marshal : Principal → Option String
  pub unmarshal : String → Option Principal
  -- after a SET the key holds the new value, or what it held, or nothing that can be read
  pub set_get :
      (k : String) (v : String) (ttl : ℤ) (s : S) (j body : String)
      → get j (set k v ttl s) ≡ found body
      → (get j s ≡ found body) ⊎ ((k ≡ j) × (v ≡ body))
  -- an encoded principal decodes to itself, and is not the text `null`
  pub round_trip :
      (p : Principal) {body : String}
      → marshal p ≡ some body
      → (unmarshal body ≡ some p) × (str_eq body "null" ≡ false)

abbrev pub Answer : Type 0
Answer = Result AuthError Principal

-- `inner` is nil, or the authenticator behind the cache
pub record CachedAuthenticator : Type 0 where
  pub inner : Option (String → Answer)
  pub pos_ttl : ℤ
  pub neg_ttl : ℤ

-- how a read ends: a miss, a malformed value, or a hit
pub data CacheHit : Type 0 where
  missed malformed : CacheHit
  hit : Answer → CacheHit

module _ (cache : AuthCache) where
  open cache use {S, get, set, marshal, unmarshal}

  decoded : Option Principal → CacheHit
  decoded none = malformed
  decoded (some p) = hit (ok p)

  value_of : CacheReply → CacheHit
  unfolding decoded
  value_of nil = missed
  value_of failed = missed
  value_of (found raw) =
      if str_eq raw "null" then hit (err invalid_credentials) else decoded (unmarshal raw)

  unfoldable pub read : String → S → CacheHit
  unfolding value_of
  read cache_key s = value_of (get cache_key s)

  encoded : String → ℤ → Option String → S → S
  encoded cache_key ttl none s = s
  encoded cache_key ttl (some body) s = set cache_key body ttl s

  unfoldable pub write : CachedAuthenticator → String → Answer → S → S
  unfolding encoded
  write c cache_key (ok p) s =
      if ltz (pos 0) c.pos_ttl then encoded cache_key c.pos_ttl (marshal p) s else s
  write c cache_key (err e) s =
      if is_invalid e && ltz (pos 0) c.neg_ttl then set cache_key "null" c.neg_ttl s else s

  -- the call of the inner authenticator, by one caller of the single flight
  ask : CachedAuthenticator → (String → Answer) → String → String → S → Answer × S
  unfolding write
  ask c inner cache_key key s = (inner key, write c cache_key (inner key) s)

  after_read : CacheHit → Answer × S → S → Answer × S
  after_read missed asked s = asked
  after_read malformed asked s = asked
  after_read (hit a) asked s = (a, s)

  -- CachedAuthenticator.Authenticate
  unfoldable pub authenticate_cached :
      (hash : String → String) → CachedAuthenticator → String → S → Answer × S
  unfolding ask after_read read
  authenticate_cached hash c key s =
      if str_eq key "" then (err missing_credentials, s) else elim c.inner [
        | none ↦ (err (internal "auth: cached authenticator has no inner"), s)
        | some inner ↦
            (let cache_key = append "auth:k:" (hash key) in
              after_read (read cache_key s) (ask c inner cache_key key s) s)
      ]
