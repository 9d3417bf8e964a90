-- ===== src/Middleware/Guards.antt =====
-- Which requests reach the handlers behind the middleware.
use x_beacon.Prelude.{
  ℕ, ◌+◌, ◌*◌, ◌/◌, ◌≤◌, ◌<◌, ◌==◌, ◌≡◌, refl, Bool, true, false, not, Result, ok, err, Option,
  none, some, String, [], ◌∷◌, if-cases, arith,
}
use x_beacon.Prelude.Int.{pos}
use x_beacon.Errors.Http.{MappedError, answer}
use x_beacon.Auth.{is_invalid, AuthError, Principal, has_scope}
use x_beacon.Chat.Effects.{error_reply, Out}
use x_beacon.Middleware.{
  is_missing, Library, Headers, Handler, credential_from, auth, require_scope, retry_after_seconds,
  turned_away, after_authenticate, after_credential, map_auth_error,
}

not-not : (b : Bool) → not b ≡ false → b ≡ true
not-not true h = refl
not-not false h = cc

not-false : (b : Bool) → not b ≡ true → b ≡ false
not-false true h = cc
not-false false h = refl

auth_status : (e : AuthError) → ((map_auth_error e).status == 200) ≡ false
unfolding map_auth_error answer
auth_status e =
    let P : MappedError → Type 0 = λ m. (m.status == 200) ≡ false in
    if-cases P (is_missing e) (λ y. refl) (λ n. if-cases P (is_invalid e) (λ y. refl) (λ n. refl))

module _ (go : Library) {W : Type 0} where
  -- an answer of the middleware itself, in place of the handler's
  pub data Guarded (authenticate : String → W → Result AuthError Principal × W) (h : Headers)
      (allows : Principal → Type 0) (next : Handler W) (w : W) : Out W → Type 0 where
    refused :
        (m : MappedError) (w' : W)
        → (m.status == 200) ≡ false
        → Guarded authenticate h allows next w (record { effects = error_reply m ∷ []; world = w' })
    let_in :
        (key : String) (p : Principal) (w' : W)
        → credential_from go h ≡ some key
        → authenticate key w ≡ (ok p, w')
        → allows p
        → Guarded authenticate h allows next w (next (some p) w')

  module _ (authenticate : String → W → Result AuthError Principal × W) (h : Headers)
      (category value : String) (next : Handler W) (w : W) where
    abbrev Ends : Out W → Type 0
    Ends = Guarded authenticate h (λ p. has_scope (some p) category value ≡ true) next w

    answer-Guarded :
        (key : String)
        → credential_from go h ≡ some key
        → (r : Result AuthError Principal × W) → authenticate key w ≡ r
        → Ends (after_authenticate go (require_scope go category value next) r)
    unfolding after_authenticate require_scope turned_away answer
    answer-Guarded key given (err e, w') answered = refused _ w' (auth_status e)
    answer-Guarded key given (ok p, w') answered =
        if-cases {A = Out W} Ends (not (has_scope (some p) category value))
          (λ lacks. refused _ w' refl) (λ has. let_in key p w' given answered (not-not _ has))

    credential-Guarded :
        (o : Option String)
        → credential_from go h ≡ o
        → Ends (after_credential go authenticate (require_scope go category value next) w o)
    unfolding after_credential turned_away answer
    credential-Guarded none absent = refused _ w refl
    credential-Guarded (some key) given = answer-Guarded key given (authenticate key w) refl

  -- A handler behind Auth and RequireScope runs only for a key that the authenticator has accepted
  -- and whose principal has the scope; every other request is answered with an error, and the
  -- handler is not run.
  pub require_scope-Guarded :
      (authenticate : String → W → Result AuthError Principal × W) (h : Headers)
      (category value : String) (next : Handler W) (before : Option Principal) (w : W)
      → Guarded authenticate h
          (λ p. has_scope (some p) category value ≡ true)
          next
          w
          (auth go authenticate h (require_scope go category value next) before w)
  unfolding auth
  require_scope-Guarded authenticate h category value next before w =
      credential-Guarded authenticate h category value next w (credential_from go h) refl

-- The hint of a denial is rounded up to whole seconds: waiting for it is enough, and a second less
-- is not.
pub retry_after_seconds_bounds :
    (n : ℕ)
    → 0 < n
    → (s : ℕ) × (retry_after_seconds (pos n) ≡ pos s)
      × (n ≤ s * 1_000_000_000)
      × (s * 1_000_000_000 < n + 1_000_000_000)
unfolding retry_after_seconds
retry_after_seconds_bounds n h =
    ((n + 999_999_999) / 1_000_000_000, ground arith, omega arith, omega arith)
