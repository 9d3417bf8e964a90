-- ===== src/Adapters/Sse/Laws.antt =====
-- Lines and frames: what is written as a frame is read as its payload.
use Prim.Native.Nat.{zero}
use Prim.Native.String as Text
use Prim.Native.String.{◌++◌ as append}
use text.Mathlib.TextLemmas.{nil-append, cons-append, append_assoc as text_append_assoc}
use x_beacon.Prelude.{
  Bool-cases, inl, inr, str_eq_iff, if-cases, arith, arith, ℕ, suc, ◌≡◌, refl, sym, ap, ◌∙◌, Bool,
  true, false, Option, none, some, String, List, [], ◌∷◌, str_eq,
}
use x_beacon.Prelude.Runes.{take_runes, drop_runes}
use x_beacon.Wire.{ChatStreamChunk}
use x_beacon.Router.Stream.{StreamEvent, chunk, failed}
use x_beacon.Adapters.Sse.{scan_failure, payload_of, trim_space, Conn, send_event, end_of_lines}

take-append : (n : ℕ) (p s : String) → Text.count p ≡ n → take_runes n (append p s) ≡ p
unfolding take_runes
take-append zero Text.[] s h = refl
take-append zero (Text.◌∷◌ c p) s h = absurd (omega (arith, Text.count.cons c p, h))
take-append (suc n) Text.[] s h = absurd (omega (arith, h))
take-append (suc n) (Text.◌∷◌ c p) s h =
    ap (take_runes (suc n)) (cons-append c p s)
    ∙ ap (Text.◌∷◌ c) (take-append n p s (omega (arith, Text.count.cons c p, h)))

drop-append : (n : ℕ) (p s : String) → Text.count p ≡ n → drop_runes n (append p s) ≡ s
unfolding drop_runes
drop-append zero Text.[] s h = nil-append s
drop-append zero (Text.◌∷◌ c p) s h = absurd (omega (arith, Text.count.cons c p, h))
drop-append (suc n) Text.[] s h = absurd (omega (arith, h))
drop-append (suc n) (Text.◌∷◌ c p) s h =
    ap (drop_runes (suc n)) (cons-append c p s)
    ∙ drop-append n p s (omega (arith, Text.count.cons c p, h))

-- a text that begins with a rune is not blank
begins-not_blank : (s p : String) → take_runes 1 s ≡ p → str_eq "" p ≡ false → str_eq s "" ≡ false
unfolding take_runes
begins-not_blank s p e h = elim (Bool-cases (str_eq s "")) [
  | inr n ↦ n
  | inl y ↦
      let blank : "" ≡ p = ap (take_runes 1) (sym ((str_eq_iff s "").0 y)) ∙ e in
      let h' : ◌≡◌ {A = Bool} true false = sym ((str_eq_iff "" p).1 blank) ∙ h in cc
]

pub payload_of-data : (payload : String) → payload_of (append "data: " payload) ≡ some payload
unfolding payload_of trim_space
payload_of-data payload =
    let first : take_runes 1 (append "data: " payload) ≡ "d" =
      ap (take_runes 1) (text_append_assoc "d" "ata: " payload)
      ∙ take-append 1 "d" (append "ata: " payload) refl in
    let field : take_runes 5 (append "data: " payload) ≡ "data:" =
      ap (take_runes 5) (text_append_assoc "data:" " " payload)
      ∙ take-append 5 "data:" (append " " payload) refl in
    let rest : drop_runes 5 (append "data: " payload) ≡ append " " payload =
      ap (drop_runes 5) (text_append_assoc "data:" " " payload)
      ∙ drop-append 5 "data:" (append " " payload) refl in
    rw
      (
        begins-not_blank _ "d" first refl,
        first,
        field,
        rest,
        take-append 1 " " payload refl,
        drop-append 1 " " payload refl,
      )
      refl

pub payload_of-comment : (text : String) → payload_of (append ": " text) ≡ none
unfolding payload_of
payload_of-comment text =
    let first : take_runes 1 (append ": " text) ≡ ":" =
      ap (take_runes 1) (text_append_assoc ":" " " text)
      ∙ take-append 1 ":" (append " " text) refl in
    rw (begins-not_blank _ ":" first refl, first) refl

pub payload_of-event : (type : String) → payload_of (append "event: " type) ≡ none
unfolding payload_of
payload_of-event type =
    let first : take_runes 1 (append "event: " type) ≡ "e" =
      ap (take_runes 1) (text_append_assoc "e" "vent: " type)
      ∙ take-append 1 "e" (append "vent: " type) refl in
    let field : take_runes 5 (append "event: " type) ≡ "event" =
      ap (take_runes 5) (text_append_assoc "event" ": " type)
      ∙ take-append 5 "event" (append ": " type) refl in
    rw (begins-not_blank _ "e" first refl, first, field) refl

pub payload_of-blank : payload_of "" ≡ none
unfolding payload_of
payload_of-blank = refl

-- no event follows one that has failed
abbrev pub FailsLast : List (StreamEvent ChatStreamChunk) → Type 0
FailsLast [] = Unit
FailsLast (chunk ch ∷ events) = FailsLast events
FailsLast (failed e ∷ events) = events ≡ []

pub send_event-FailsLast :
    (c : Conn) (i : ℕ) (ev : StreamEvent ChatStreamChunk)
    (rest : List (StreamEvent ChatStreamChunk))
    → FailsLast (ev ∷ rest)
    → FailsLast (send_event c i ev rest)
unfolding send_event
send_event-FailsLast c i ev rest h = if-cases FailsLast (c.takes i) (λ y. h) (λ n. tt)

failure_last :
    (name truncated : String) (o : Option String) → FailsLast (scan_failure name truncated o ∷ [])
unfolding scan_failure
failure_last name truncated none = refl
failure_last name truncated (some why) = refl

pub end_of_lines-FailsLast :
    (c : Conn) (name truncated : String) (i : ℕ) → FailsLast (end_of_lines c name truncated i)
unfolding end_of_lines
end_of_lines-FailsLast c name truncated i =
    if-cases FailsLast c.gone (λ y. tt)
      (λ n. send_event-FailsLast c i _ [] (failure_last name truncated c.scan_error))
