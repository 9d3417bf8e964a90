-- ===== src/Cache/Keys.antt =====
-- Which requests share a cached answer, and what they get.
use Prim.Native.String.{◌++◌ as append}
use text.Mathlib.TextLemmas.{append_cancel_left}
use x_beacon.Prelude.{◌≡◌, ◌↔◌, refl, ap, false, Result, ok, err, some, String}
use x_beacon.Prelude.Int.{ℤ, pos, lez}
use x_beacon.Errors.{Err}
use x_beacon.Wire.{ChatRequest, ChatResponse}
use x_beacon.Cache.{key_payload, Codec, hashed, key, entry, Redis, get_cached, set_cached}

abbrev digest : Result Err String → String
digest (ok s) = s
digest (err e) = ""

-- the fields that a cached answer may depend on
abbrev pub Agree : ChatRequest → ChatRequest → Type 0
Agree a b =
    (a.model ≡ b.model)
    × (a.messages ≡ b.messages)
    × (a.temperature ≡ b.temperature)
    × (a.top_p ≡ b.top_p)
    × (a.max_tokens ≡ b.max_tokens)
    × (a.stop ≡ b.stop)

fields_of : (a b : ChatRequest) → key_payload a ≡ key_payload b → Agree a b
fields_of a b h = (
  ap (λ p. p.model) h,
  ap (λ p. p.messages) h,
  ap (λ p. p.temperature) h,
  ap (λ p. p.top_p) h,
  ap (λ p. p.max_tokens) h,
  ap (λ p. p.stop) h,
)

payload_of_fields : (a b : ChatRequest) → Agree a b → key_payload a ≡ key_payload b
payload_of_fields a b (model, messages, temperature, top_p, max_tokens, stop) =
    rw (model, messages, temperature, top_p, max_tokens, stop) refl

-- Two requests whose keys can be computed have the same key exactly if they agree in the model, the
-- messages, the temperature, top_p, the token limit and the stop words, whatever their stream flag, choice count, user and extra
-- fields are. The digests and encodings of the two do not collide.
pub key_agrees :
    (c : Codec) (a b : ChatRequest) (buf_a buf_b : String)
    → c.marshal_payload (key_payload a) ≡ some buf_a
    → c.marshal_payload (key_payload b) ≡ some buf_b
    → (c.sha256 buf_a ≡ c.sha256 buf_b → buf_a ≡ buf_b)
    → (buf_a ≡ buf_b → key_payload a ≡ key_payload b)
    → key c (some a) ≡ key c (some b) ↔ Agree a b
unfolding key
key_agrees c a b buf_a buf_b coded_a coded_b digests codes = (
  (λ same.
      let h : ◌≡◌ {A = Result Err String} (ok (append "cache:exact:" (c.sha256 buf_a)))
          (ok (append "cache:exact:" (c.sha256 buf_b))) =
        rw (coded_a, coded_b) at same in
      fields_of a b (
        codes (
          digests
            (append_cancel_left "cache:exact:" (c.sha256 buf_a) (c.sha256 buf_b) (ap digest h))))),
  λ same. ap (λ p. hashed c (c.marshal_payload p)) (payload_of_fields a b same),
)

-- What has been written with a success is read again.
pub set_cached-get_cached :
    (c : Codec) (r : Redis) (k : String) (resp : ChatResponse) (ttl : ℤ) (s : Redis.S r)
    (buf : String)
    → lez ttl (pos 0) ≡ false
    → c.marshal resp ≡ some buf
    → c.unmarshal buf ≡ some resp
    → (Redis.get r k (Redis.set r k buf ttl s).1).0 ≡ entry buf
    → (get_cached c r k (set_cached c r k resp ttl s).1).0 ≡ ok resp
unfolding get_cached set_cached
set_cached-get_cached c r k resp ttl s buf lives coded decoded kept =
    rw (lives, coded, kept, decoded) refl
