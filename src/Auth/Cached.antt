-- ===== src/Auth/Cached.antt =====
-- The cache in front of an authenticator changes no answer.
use Prim.Native.String.{◌++◌ as append}
use x_beacon.Prelude.{
  ◌≡◌, ◌⊎◌, inl, inr, refl, ap, ◌∙◌, sym, Bool, true, false, ◌&&◌, ok, err, some, String, str_eq,
  Bool-cases, Option-cases, arith, subst,
}
use x_beacon.Prelude.Int.{ℤ, pos, ltz}
use x_beacon.Auth.{
  AuthError, missing_credentials, invalid_credentials, is_invalid, Principal, CacheReply, nil,
  failed, found, AuthCache, Answer, CachedAuthenticator, CacheHit, missed, malformed, hit, decoded,
  value_of, read, encoded, write, authenticate_cached,
}

-- the same principal, or a refusal in each
abbrev pub SameAnswer : Answer → Answer → Type 0
SameAnswer a b =
    (a ≡ b)
    ⊎ ((a ≡ err invalid_credentials) × (e : AuthError) × (b ≡ err e) × (is_invalid e ≡ true))

module _ (cache : AuthCache) (hash : String → String) (inner : String → Answer) where
  open cache use {S, get}

  abbrev key_of : String → String
  key_of key = append "auth:k:" (hash key)

  -- what can be read for a key is the answer of the authenticator behind, or malformed
  abbrev pub IsHonest : S → Type 0
  IsHonest s =
      (key : String) (a : Answer)
      → str_eq key "" ≡ false
      → read cache (key_of key) s ≡ hit a
      → SameAnswer a (inner key)

  -- the authenticator behind sees a key by its hash only
  abbrev pub ByHash : Type 0
  ByHash =
      (j k : String)
      → str_eq j "" ≡ false
      → str_eq k "" ≡ false
      → key_of j ≡ key_of k
      → inner j ≡ inner k

  read_set :
      (k v : String) (ttl : ℤ) (s : S) (j : String) (a : Answer)
      → read cache j (cache.set k v ttl s) ≡ hit a
      → (read cache j s ≡ hit a) ⊎ ((k ≡ j) × (value_of cache (found v) ≡ hit a))
  unfolding read
  read_set k v ttl s j a h = go (get j (cache.set k v ttl s)) refl h
    where
      go :
          (o : CacheReply)
          → get j (cache.set k v ttl s) ≡ o
          → value_of cache (get j (cache.set k v ttl s)) ≡ hit a
          → (value_of cache (get j s) ≡ hit a) ⊎ ((k ≡ j) × (value_of cache (found v) ≡ hit a))
      go nil e h = let gone : missed ≡ hit a = ap (value_of cache) (sym e) ∙ h in cc
      go failed e h = let gone : missed ≡ hit a = ap (value_of cache) (sym e) ∙ h in cc
      go (found body) e h = elim (cache.set_get k v ttl s j body e) [
        | inl before ↦ inl (ap (value_of cache) (before ∙ sym e) ∙ h)
        | inr (same, is_body) ↦
            inr
              (same, ap (λ b. value_of cache (found b)) is_body ∙ (ap (value_of cache) (sym e) ∙ h))
      ]

  -- a value is written for a key only if it reads as the answer
  Writes : String → String → Type 0
  Writes key v = (a : Answer) → value_of cache (found v) ≡ hit a → SameAnswer a (inner key)

  set-IsHonest :
      (key v : String) (ttl : ℤ) (s : S)
      → str_eq key "" ≡ false
      → ByHash
      → Writes key v
      → IsHonest s
      → IsHonest (cache.set (key_of key) v ttl s)
  unfolding Writes
  set-IsHonest key v ttl s some_key by_hash w honest j a some_j h =
      elim (read_set (key_of key) v ttl s (key_of j) a h) [
        | inl before ↦ honest j a some_j before
        | inr (same, value) ↦ subst (SameAnswer a) (by_hash key j some_key some_j same) (w a value)
      ]

  hit_same : {a b : Answer} → hit a ≡ hit b → a ≡ b
  hit_same h = cc

  body-Writes :
      (key body : String) (p : Principal)
      → inner key ≡ ok p
      → cache.marshal p ≡ some body
      → Writes key body
  unfolding Writes value_of decoded
  body-Writes key body p is m a h =
      let (back, no_null) = cache.round_trip p m in
      let value : hit (ok p) ≡ hit a = rw (no_null, back) at h in
      inl (sym (hit_same value) ∙ sym is)

  null-Writes :
      (key : String) (e : AuthError) → inner key ≡ err e → is_invalid e ≡ true → Writes key "null"
  unfolding Writes value_of
  null-Writes key e is bad a h =
      let value : hit (err invalid_credentials) ≡ hit a = h in
      inr (sym (hit_same value), e, is, bad)

  both : (a b : Bool) → (a && b) ≡ true → a ≡ true
  both a b h = ground arith

  write-IsHonest :
      (c : CachedAuthenticator) (key : String) (s : S) (r : Answer)
      → str_eq key "" ≡ false
      → ByHash
      → inner key ≡ r
      → IsHonest s
      → IsHonest (write cache c (key_of key) r s)
  unfolding write encoded
  write-IsHonest c key s (ok p) some_key by_hash is honest =
      elim (Bool-cases (ltz (pos 0) c.pos_ttl)) [
        | inr off ↦ rw off honest
        | inl on ↦ elim (Option-cases (cache.marshal p)) [
          | inl none_made ↦ rw (on, none_made) honest
          | inr (body, m) ↦
              rw (on, m)
                (set-IsHonest key body c.pos_ttl s some_key by_hash (body-Writes key body p is m)
                  honest)
        ]
      ]
  write-IsHonest c key s (err e) some_key by_hash is honest =
      elim (Bool-cases (is_invalid e && ltz (pos 0) c.neg_ttl)) [
        | inr off ↦ rw off honest
        | inl on ↦ rw on (
            set-IsHonest key "null" c.neg_ttl s some_key by_hash
              (null-Writes key e is (both (is_invalid e) (ltz (pos 0) c.neg_ttl) on)) honest)
      ]

  read_cases :
      (k : String) (s : S)
      → (read cache k s ≡ missed)
        ⊎ (read cache k s ≡ malformed)
        ⊎ ((a : Answer) × (read cache k s ≡ hit a))
  read_cases k s = go (read cache k s) refl
    where
      go :
          (h : CacheHit)
          → read cache k s ≡ h
          → (read cache k s ≡ missed)
            ⊎ (read cache k s ≡ malformed)
            ⊎ ((a : Answer) × (read cache k s ≡ hit a))
      go missed e = inl e
      go malformed e = inr (inl e)
      go (hit a) e = inr (inr (a, e))

  module _ (c : CachedAuthenticator) (key : String) (s : S) (wired : c.inner ≡ some inner) where
    asks :
        str_eq key "" ≡ false
        → (read cache (key_of key) s ≡ missed) ⊎ (read cache (key_of key) s ≡ malformed)
        → authenticate_cached cache hash c key s
          ≡ (inner key, write cache c (key_of key) (inner key) s)
    unfolding authenticate_cached
    asks some_key (inl e) = rw (some_key, wired, e)
    asks some_key (inr e) = rw (some_key, wired, e)

    hits :
        {a : Answer}
        → str_eq key "" ≡ false
        → read cache (key_of key) s ≡ hit a
        → authenticate_cached cache hash c key s ≡ (a, s)
    unfolding authenticate_cached
    hits some_key e = rw (some_key, wired, e)

    refuses :
        str_eq key "" ≡ true → authenticate_cached cache hash c key s ≡ (err missing_credentials, s)
    unfolding authenticate_cached
    refuses empty = rw empty

    -- As long as what is cached is the truth, the cache changes no answer: a key authenticates as
    -- the same principal as without the cache, or is refused as without it, whatever Redis loses or
    -- fails to do; an empty key is refused at once. What is cached is still the truth afterwards.
    -- The authenticator behind sees a key by its hash only, and its answers do not change.
    pub authenticate_cached-SameAnswer :
        ByHash
        → IsHonest s
        → (str_eq key "" ≡ true
            → (authenticate_cached cache hash c key s).0 ≡ err missing_credentials)
          × (str_eq key "" ≡ false
              → SameAnswer (authenticate_cached cache hash c key s).0 (inner key))
          × IsHonest (authenticate_cached cache hash c key s).1
    authenticate_cached-SameAnswer by_hash honest = elim (Bool-cases (str_eq key "")) [
      | inl empty ↦
          let e = refuses empty in
          (λ h. ap (λ x. x.0) e, λ h. cc, subst (λ x. IsHonest x.1) (sym e) honest)
      | inr some_key ↦ elim (read_cases (key_of key) s) [
        | inl miss ↦ asked some_key (asks some_key (inl miss))
        | inr (inl bad) ↦ asked some_key (asks some_key (inr bad))
        | inr (inr (a, h)) ↦
            let e = hits some_key h in
            (
              λ h. cc,
              λ _. subst (λ x. SameAnswer x.0 (inner key)) (sym e) (honest key a some_key h),
              subst (λ x. IsHonest x.1) (sym e) honest,
            )
      ]
    ]
      where
        asked :
            str_eq key "" ≡ false
            → authenticate_cached cache hash c key s
              ≡ (inner key, write cache c (key_of key) (inner key) s)
            → (str_eq key "" ≡ true
                → (authenticate_cached cache hash c key s).0 ≡ err missing_credentials)
              × (str_eq key "" ≡ false
                  → SameAnswer (authenticate_cached cache hash c key s).0 (inner key))
              × IsHonest (authenticate_cached cache hash c key s).1
        asked some_key e = (
          λ h. cc,
          λ _. inl (ap (λ x. x.0) e),
          subst (λ x. IsHonest x.1) (sym e)
              (write-IsHonest c key s (inner key) some_key by_hash refl honest),
        )
