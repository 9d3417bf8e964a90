-- ===== src/Messages/Laws.antt =====
-- The endpoint hands requests and answers on untouched, answers once and bills once.
use Prim.Native.String.{◌++◌ as append}
use text.Mathlib.TextLemmas.{append-nil as text_append-nil}
use x_beacon.Prelude.{
  map, not, if-cases, ℕ, suc, ◌≡◌, refl, ap, ◌∙◌, Bool, true, false, ◌&&◌, ◌==◌, ok, Option, some,
  String, List, [], ◌∷◌, ◌++◌, str_eq, if◌then◌else◌, arith, Bool-cases, inl, inr,
}
use x_beacon.Messages.{
  passed, passed_header, NativeUsage, NativeEffect, forwarded, status_line, wrote, NativeResponse,
  NativeProvider, NativeWorld, NativeRequest, no_usage, joined, passed_names, scan_usage_line,
  pipe_sse, settle_native, usage_of_body, whole_answer, streamed_answer, pass_response,
  messages_handler,
}
use x_beacon.Prelude.Pages.{filter_rows}
use x_beacon.Messages.Comes.{written, Comes, Comes-append, silent-Comes, passed-Comes}

-- the headers that the client gets
abbrev pub header_effects : (String → String) → List NativeEffect
header_effects headers =
    map (λ h. passed_header h (headers h))
      (filter_rows (λ h. not (str_eq (headers h) ""))
        ("Content-Type" ∷ "Retry-After" ∷ "Request-Id" ∷ "Anthropic-Ratelimit-Requests-Remaining"
          ∷ "Anthropic-Ratelimit-Tokens-Remaining" ∷ []))

passed-map :
    (headers : String → String) (names : List String)
    → passed headers names
      ≡ map
          (λ h. passed_header h (headers h))
          (filter_rows (λ h. not (str_eq (headers h) "")) names)
unfolding passed filter_rows
passed-map headers [] = refl
passed-map headers (h ∷ names) = elim (Bool-cases (str_eq (headers h) "")) [
  | inl unset ↦ rw unset (passed-map headers names)
  | inr set ↦ rw set (ap (λ l. passed_header h (headers h) ∷ l) (passed-map headers names))
]

passed-header_effects :
    (headers : String → String) → passed headers passed_names ≡ header_effects headers
passed-header_effects headers = passed-map headers passed_names

module _ (n : NativeWorld) (r : NativeRequest) where
  -- whether an answer of this status is billed
  abbrev pub bills : ℕ → ℕ
  bills status = if (status == 200) && n.bill then 1 else 0

  settle_native-Comes :
      (name model : String) (streamed : Bool) (resp : NativeResponse) (u : NativeUsage)
      → Comes (settle_native n r name model streamed resp u) "" 0 (bills resp.status) 0
  unfolding settle_native
  settle_native-Comes name model streamed resp u = elim (Bool-cases (resp.status == 200)) [
    | inr other ↦
        rw other
          (record { bytes_are = refl; answers_are = refl; bills_are = refl; calls_are = refl })
    | inl good ↦ elim (Bool-cases n.bill) [
      | inl b ↦
          rw (good, b)
            (record { bytes_are = refl; answers_are = refl; bills_are = refl; calls_are = refl })
      | inr b ↦
          rw (good, b)
            (record { bytes_are = refl; answers_are = refl; bills_are = refl; calls_are = refl })
    ]
  ]

  -- what the loop writes is no answer, no bill and no call
  pipe_sse-Comes :
      (i : ℕ) (lines : List String) (u : NativeUsage)
      → let l = (pipe_sse n r.writes i lines u).0 in Comes l (written l) 0 0 0
  unfolding pipe_sse
  pipe_sse-Comes i [] u = record {
    bytes_are = refl;
    answers_are = refl;
    bills_are = refl;
    calls_are = refl;
  }
  pipe_sse-Comes i (line ∷ lines) u =
      let ih = pipe_sse-Comes (suc i) lines (scan_usage_line n line u) in
      elim (Bool-cases (r.writes i)) [
        | inl b ↦ rw b (record {
          bytes_are = refl;
          answers_are = omega (arith, ih.answers_are);
          bills_are = omega (arith, ih.bills_are);
          calls_are = omega (arith, ih.calls_are);
        })
        | inr b ↦
            rw b
              (record { bytes_are = refl; answers_are = refl; bills_are = refl; calls_are = refl })
      ]

  -- the lines go through as they are while the client takes them
  pipe_sse-joined :
      (i : ℕ) (lines : List String) (u : NativeUsage)
      → ((j : ℕ) → r.writes j ≡ true)
      → written (pipe_sse n r.writes i lines u).0 ≡ joined lines
  unfolding pipe_sse
  pipe_sse-joined i [] u all = refl
  pipe_sse-joined i (line ∷ lines) u all =
      rw (all i) (ap (append line) (pipe_sse-joined (suc i) lines (scan_usage_line n line u) all))

  module _ (name model : String) (resp : NativeResponse) where
    -- the status line, what is written, and what is settled after it
    answered-Comes :
        {l : List NativeEffect} {bytes : String} (streamed : Bool) (u : NativeUsage)
        → Comes l bytes 0 0 0
        → Comes
            (status_line resp.status ∷ (l ++ settle_native n r name model streamed resp u))
            bytes
            1
            (bills resp.status)
            0
    answered-Comes {l} {bytes} streamed u h =
        let t = Comes-append h (settle_native-Comes name model streamed resp u) in
        record {
          bytes_are = t.bytes_are ∙ text_append-nil bytes;
          answers_are = omega (arith, t.answers_are);
          bills_are = omega (arith, t.bills_are);
          calls_are = omega (arith, t.calls_are);
        }

    module _ (all : (j : ℕ) → r.writes j ≡ true) where
      streamed_answer-Comes :
          Comes (streamed_answer n r name model resp) (joined resp.lines) 1 (bills resp.status) 0
      unfolding streamed_answer
      streamed_answer-Comes =
          let u = (pipe_sse n r.writes 0 resp.lines no_usage).1 in
          let h = pipe_sse-Comes 0 resp.lines no_usage in
          answered-Comes true u (record {
            bytes_are = pipe_sse-joined 0 resp.lines no_usage all;
            answers_are = h.answers_are;
            bills_are = h.bills_are;
            calls_are = h.calls_are;
          })

      whole_answer-Comes :
          resp.read_fails ≡ false
          → Comes (whole_answer n r name model resp) (joined resp.lines) 1 (bills resp.status) 0
      unfolding whole_answer
      whole_answer-Comes fine =
          rw (fine, all 0)
            (answered-Comes {l = wrote (joined resp.lines) ∷ []} false
              (usage_of_body n resp.status (joined resp.lines))
              (record {
                bytes_are = text_append-nil (joined resp.lines);
                answers_are = refl;
                bills_are = refl;
                calls_are = refl;
              }))

      pass_response-Comes :
          resp.read_fails ≡ false
          → Comes (pass_response n r name model resp) (joined resp.lines) 1 (bills resp.status) 0
      unfolding pass_response
      pass_response-Comes fine =
          let streams = n.is_event_stream (resp.headers "Content-Type") in
          let h = passed-Comes resp.headers passed_names in
          elim (Bool-cases streams) [
            | inl b ↦ rw b (silent-Comes h streamed_answer-Comes)
            | inr b ↦ rw b (silent-Comes h (whole_answer-Comes fine))
          ]

  -- the status line comes first in the answer
  answer_headed :
      (name model : String) (resp : NativeResponse)
      → resp.read_fails ≡ false
      → (rest : List NativeEffect) × (pass_response n r name model resp
          ≡ header_effects resp.headers ++ status_line resp.status ∷ rest)
  unfolding pass_response streamed_answer whole_answer
  answer_headed name model resp fine =
      let streams = n.is_event_stream (resp.headers "Content-Type") in
      let (rest, e) =
        if-cases {A = List NativeEffect}
          (λ l. (rest : List NativeEffect) × (l ≡ status_line resp.status ∷ rest)) streams
          {x = streamed_answer n r name model resp} {y = whole_answer n r name model resp}
          (λ h. (_, refl)) (λ h. rw fine (_, refl)) in
      (
        rest,
        ap
              (λ l.
                l
                ++ (if streams
                    then streamed_answer n r name model resp
                    else whole_answer n r name model resp))
              (passed-header_effects resp.headers)
            ∙ ap (λ l. header_effects resp.headers ++ l) e,
      )

  -- The call of the upstream comes first, with the request's body and beta header as they are; then
  -- come the upstream's headers of the list, those that are set, with their values, and its status. What
  -- follows the call gives the client the upstream's body, has no second status line or error, and bills
  -- an answer of status 200 once where billing is on.
  pub record HandsOn (body : String) (resp : NativeResponse) : Type 0 where
    pub after : List NativeEffect
    pub rest : List NativeEffect
    pub is_forwarded : messages_handler n r ≡ forwarded body r.beta ∷ after
    pub is_headed : after ≡ header_effects resp.headers ++ status_line resp.status ∷ rest
    pub comes : Comes after (joined resp.lines) 1 (bills resp.status) 0

  module _ {body model : String} {stream : Bool} {p : NativeProvider}
      {send : String → String → Option NativeResponse} {resp : NativeResponse} where
    -- A request whose body is read, whose model is named and served by a provider that forwards, and
    -- whose upstream answers, is handed on with its body and beta header, and the answer comes back
    -- with its status, the headers of the list that are set, and its body, when the answer is read to
    -- its end and the client takes every write; it is billed once if its status is 200 and billing is
    -- on.
    pub messages_handler-HandsOn :
        r.body ≡ ok body
        → n.peek body ≡ some (model, stream)
        → str_eq model "" ≡ false
        → n.resolve model ≡ some p
        → p.forward ≡ some send
        → send body r.beta ≡ some resp
        → resp.read_fails ≡ false
        → ((j : ℕ) → r.writes j ≡ true)
        → HandsOn body resp
    unfolding messages_handler
    messages_handler-HandsOn read peek_eq named resolves forwards answers fine all = record {
      after = pass_response n r p.name model resp;
      rest = (answer_headed p.name model resp fine).0;
      is_headed = (answer_headed p.name model resp fine).1;
      is_forwarded = rw (read, peek_eq, named, resolves, forwards, answers) refl;
      comes = pass_response-Comes p.name model resp all fine;
    }
