-- ===== src/Tests/Auth.antt =====
-- Two keys, and a cache that keeps everything.
use x_beacon.Prelude.{
  ◌≡◌, ◌⊎◌, inl, inr, refl, ap, sym, ◌∙◌, true, false, not, ◌&&◌, ok, err, Option, none, some,
  String, List, [], ◌∷◌, str_eq, str_eq_iff, if◌then◌else◌, Bool-cases, All,
}
use x_beacon.Prelude.Int.{ℤ, pos}
use x_beacon.Prelude.Maps.{GoMap, lookup, put, lookup-put, contains}
use x_beacon.Auth.{
  missing_credentials, Principal, StaticEntry, principal_of, StaticAuthenticator, new_static,
  authenticate, CacheReply, nil, found, AuthCache, Answer, CachedAuthenticator, authenticate_cached,
  read, load_entries, load_entry,
}
use x_beacon.Auth.Static.{AnyOf, new_static-authenticate}
use x_beacon.Auth.Cached.{SameAnswer, IsHonest, authenticate_cached-SameAnswer}

abbrev plain : String → String
plain s = s

abbrev entries : List StaticEntry
entries =
    record { id = "a"; name = "A"; secret = "s1"; scopes = [] }
    ∷ record { id = "b"; name = "B"; secret = "s2"; scopes = [] }
    ∷ []

abbrev static : StaticAuthenticator
static = record {
  by_hash =
      ("s2", record { id = "b"; name = "B"; scopes = [] })
      ∷ ("s1", record { id = "a"; name = "A"; scopes = [] })
      ∷ [];
}

builds : new_static plain entries ≡ ok static
unfolding new_static load_entries load_entry contains lookup put
builds = refl

new_static-authenticate_example :
    All (λ e. authenticate plain static e.secret ≡ ok (principal_of e)) entries
    × ((key : String) (p : Principal)
        → authenticate plain static key ≡ ok p
        → (str_eq key "" ≡ false) × AnyOf (λ e. (e.secret ≡ key) × (principal_of e ≡ p)) entries)
new_static-authenticate_example = new_static-authenticate plain entries static builds

abbrev reply : Option String → CacheReply
reply none = nil
reply (some body) = found body

reply_found : (o : Option String) (body : String) → reply o ≡ found body → o ≡ some body
reply_found none body h = cc
reply_found (some b) body h = let same : b ≡ body = cc in ap (λ x. some x) same

-- principals without name and scopes are encoded
abbrev encode_parts : String → String → GoMap (List String) → Option String
encode_parts id name [] = if str_eq name "" && not (str_eq id "null") then some id else none
encode_parts id name (s ∷ scopes) = none

abbrev marshal : Principal → Option String
marshal p = encode_parts p.id p.name p.scopes

abbrev unmarshal : String → Option Principal
unmarshal body = some (record { id = body; name = ""; scopes = [] })

parts_back :
    (id name : String) (scopes : GoMap (List String)) {body : String}
    → encode_parts id name scopes ≡ some body
    → (unmarshal body ≡ some (record { id = id; name = name; scopes = scopes }))
      × (str_eq body "null" ≡ false)
parts_back id name [] {body} h = elim (Bool-cases (str_eq name "")) [
  | inr named ↦ let h' : ◌≡◌ {A = Option String} none (some body) = rw named at h in cc
  | inl unnamed ↦ elim (Bool-cases (str_eq id "null")) [
    | inl null ↦ let h' : ◌≡◌ {A = Option String} none (some body) = rw (unnamed, null) at h in cc
    | inr fine ↦
        let h' : ◌≡◌ {A = Option String} (some id) (some body) = rw (unnamed, fine) at h in
        let same : id ≡ body = cc in
        let blank : name ≡ "" = (str_eq_iff name "").0 unnamed in
        (
          ap (λ x. some (record { id = x; name = ""; scopes = [] })) (sym same)
              ∙ ap (λ n. some (record { id = id; name = n; scopes = [] })) (sym blank),
          ap (λ x. str_eq x "null") (sym same) ∙ fine,
        )
  ]
]
parts_back id name (s ∷ scopes) h = cc

set_get :
    (k v : String) (ttl : ℤ) (s : GoMap String) (j body : String)
    → reply (lookup j (put k v s)) ≡ found body
    → (reply (lookup j s) ≡ found body) ⊎ ((k ≡ j) × (v ≡ body))
set_get k v ttl s j body h =
    let e = sym (lookup-put k j v s) ∙ reply_found (lookup j (put k v s)) body h in
    elim (Bool-cases (str_eq k j)) [
      | inl same ↦
          let value : ◌≡◌ {A = Option String} (some v) (some body) = rw same at e in
          inr ((str_eq_iff k j).0 same, (cc value))
      | inr differs ↦ let value : lookup j s ≡ some body = rw differs at e in inl (ap reply value)
    ]

abbrev memory : AuthCache
memory = record {
  S = GoMap String;
  get = λ k s. reply (lookup k s);
  set = λ k v ttl s. put k v s;
  marshal = marshal;
  unmarshal = unmarshal;
  set_get = set_get;
  round_trip = λ p {body} h. parts_back p.id p.name p.scopes h;
}

-- an authenticator that knows every key as `a`
abbrev anyone : String → Answer
anyone key = ok (record { id = "a"; name = ""; scopes = [] })

abbrev cached : CachedAuthenticator
cached = record { inner = some anyone; pos_ttl = pos 60; neg_ttl = pos 5 }

abbrev nothing_cached : GoMap String
nothing_cached = []

empty_cache : IsHonest memory plain anyone nothing_cached
unfolding read lookup
empty_cache key a some_key h = cc

authenticate_cached_example :
    (str_eq "s1" "" ≡ true
      → (authenticate_cached memory plain cached "s1" nothing_cached).0 ≡ err missing_credentials)
    × (str_eq "s1" "" ≡ false
        → SameAnswer (authenticate_cached memory plain cached "s1" nothing_cached).0 (anyone "s1"))
    × IsHonest memory plain anyone (authenticate_cached memory plain cached "s1" nothing_cached).1
authenticate_cached_example =
    authenticate_cached-SameAnswer memory plain anyone cached "s1" nothing_cached refl
      (λ j k hj hk e. refl) empty_cache
