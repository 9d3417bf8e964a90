-- ===== src/Messages/Comes.antt =====
-- What a list of effects of the endpoint of internal/server/messages.go comes to.
use Prim.Native.String.{◌++◌ as append}
use text.Mathlib.TextLemmas.{nil-append, append_assoc as text_append_assoc}
use x_beacon.Prelude.{
  ℕ, ◌+◌, ◌≡◌, refl, sym, ap, ◌∙◌, Bool, true, false, String, List, [], ◌∷◌, ◌++◌, count_if,
  count_if-append, if-cases, str_eq, arith,
}
use x_beacon.Messages.{
  NativeEffect, forwarded, native_error, passed_header, status_line, wrote, observed, tokens_added,
  native_billed, passed,
}

-- the bytes that the client gets
abbrev pub written : List NativeEffect → String
written [] = ""
written (wrote s ∷ l) = append s (written l)
written (forwarded b h ∷ l) = written l
written (native_error s t m ∷ l) = written l
written (passed_header k v ∷ l) = written l
written (status_line s ∷ l) = written l
written (observed p m s ∷ l) = written l
written (tokens_added p m u ∷ l) = written l
written (native_billed ev ∷ l) = written l

abbrev pub is_answer : NativeEffect → Bool
is_answer (native_error s t m) = true
is_answer (status_line s) = true
is_answer (forwarded b h) = false
is_answer (passed_header k v) = false
is_answer (wrote s) = false
is_answer (observed p m s) = false
is_answer (tokens_added p m u) = false
is_answer (native_billed ev) = false

abbrev pub is_billed : NativeEffect → Bool
is_billed (native_billed ev) = true
is_billed (native_error s t m) = false
is_billed (status_line s) = false
is_billed (forwarded b h) = false
is_billed (passed_header k v) = false
is_billed (wrote s) = false
is_billed (observed p m s) = false
is_billed (tokens_added p m u) = false

abbrev pub is_call : NativeEffect → Bool
is_call (forwarded b h) = true
is_call (native_error s t m) = false
is_call (status_line s) = false
is_call (passed_header k v) = false
is_call (wrote s) = false
is_call (observed p m s) = false
is_call (tokens_added p m u) = false
is_call (native_billed ev) = false

-- what a list of effects comes to: the bytes, the answers, the bills and the upstream calls
pub record Comes (l : List NativeEffect) (bytes : String) (answers bills calls : ℕ) : Type 0 where
  pub bytes_are : written l ≡ bytes
  pub answers_are : count_if is_answer l ≡ answers
  pub bills_are : count_if is_billed l ≡ bills
  pub calls_are : count_if is_call l ≡ calls

pub written-append : (k l : List NativeEffect) → written (k ++ l) ≡ append (written k) (written l)
written-append [] l = sym (nil-append (written l))
written-append (wrote s ∷ k) l =
    ap (append s) (written-append k l) ∙ sym (text_append_assoc s (written k) (written l))
written-append (forwarded b h ∷ k) l = written-append k l
written-append (native_error s t m ∷ k) l = written-append k l
written-append (passed_header h v ∷ k) l = written-append k l
written-append (status_line s ∷ k) l = written-append k l
written-append (observed p m s ∷ k) l = written-append k l
written-append (tokens_added p m u ∷ k) l = written-append k l
written-append (native_billed ev ∷ k) l = written-append k l

pub Comes-append :
    {k l : List NativeEffect} {s t : String} {a b c a' b' c' : ℕ}
    → Comes k s a b c
    → Comes l t a' b' c'
    → Comes (k ++ l) (append s t) (a + a') (b + b') (c + c')
Comes-append {k} {l} h h' = record {
  bytes_are = written-append k l ∙ cc (h.bytes_are, h'.bytes_are);
  answers_are = omega (arith, count_if-append is_answer k l, h.answers_are, h'.answers_are);
  bills_are = omega (arith, count_if-append is_billed k l, h.bills_are, h'.bills_are);
  calls_are = omega (arith, count_if-append is_call k l, h.calls_are, h'.calls_are);
}

-- effects that come to nothing, before others
pub silent-Comes :
    {k l : List NativeEffect} {t : String} {a b c : ℕ}
    → Comes k "" 0 0 0
    → Comes l t a b c
    → Comes (k ++ l) t a b c
silent-Comes {t = t} h h' =
    let both = Comes-append h h' in
    record {
      bytes_are = both.bytes_are ∙ nil-append t;
      answers_are = omega (arith, both.answers_are);
      bills_are = omega (arith, both.bills_are);
      calls_are = omega (arith, both.calls_are);
    }

pub passed-Comes :
    (headers : String → String) (names : List String) → Comes (passed headers names) "" 0 0 0
unfolding passed
passed-Comes headers [] = record {
  bytes_are = refl;
  answers_are = refl;
  bills_are = refl;
  calls_are = refl;
}
passed-Comes headers (h ∷ names) =
    let ih = passed-Comes headers names in
    if-cases {A = List NativeEffect} (λ l. Comes l "" 0 0 0) (str_eq (headers h) "") (λ y. ih)
      (λ n. record {
        bytes_are = ih.bytes_are;
        answers_are = omega (arith, ih.answers_are);
        bills_are = omega (arith, ih.bills_are);
        calls_are = omega (arith, ih.calls_are);
      })
