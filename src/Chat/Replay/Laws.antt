-- ===== src/Chat/Replay/Laws.antt =====
-- A stream that was gathered into a response is replayed as a stream that gathers into the same one.
use x_beacon.Prelude.{
  ◌≡◌, refl, ap, ◌∙◌, sym, Bool, true, false, ◌||◌, Option, none, some, String, List, [], ◌∷◌, inl,
  inr, Bool-cases, arith, str_eq, str_eq_iff, if◌then◌else◌,
}
use x_beacon.Prelude.Int.{ℤ, pos, ltz, lez}
use x_beacon.Wire.{ChatRequest, Choice, Usage, ChatResponse, StreamChoice, ChatStreamChunk}
use x_beacon.Chat.Stats.{
  StreamStats, no_stats, is_zero, or_keep, or_keep_count, observe_usage, observe_choices, observe,
  observe_all, usage_of, to_cached_response, cacheable_choices, should_cache_response,
}
use x_beacon.Chat.Replay.{replay_frames}
use x_beacon.Chat.Replay.Gather.{one_choice, observe-replay}

-- what the observation of a stream keeps
record IsObserved (s : StreamStats) : Type 0 where
  anonymous : s.provider ≡ ""
  prompt_kept : or_keep_count s.prompt_usage (pos 0) ≡ s.prompt_usage
  output_kept : or_keep_count s.output_usage (pos 0) ≡ s.output_usage

kept_again :
    (new old : ℤ)
    → or_keep_count old (pos 0) ≡ old
    → or_keep_count (or_keep_count new old) (pos 0) ≡ or_keep_count new old
kept_again new old h = elim (Bool-cases (ltz (pos 0) new)) [ inl y ↦ rw (y, y) | inr n ↦ rw n h ]

observe_choices-IsObserved :
    (l : List StreamChoice) (s : StreamStats) → IsObserved s → IsObserved (observe_choices l s)
unfolding observe_choices
observe_choices-IsObserved [] s h = h
observe_choices-IsObserved (c ∷ l) s h =
    observe_choices-IsObserved l _
      (record { anonymous = h.anonymous; prompt_kept = h.prompt_kept; output_kept = h.output_kept })

observe_usage-IsObserved :
    (u : Option Usage) (s : StreamStats) → IsObserved s → IsObserved (observe_usage u s)
unfolding observe_usage
observe_usage-IsObserved none s h = h
observe_usage-IsObserved (some u) s h = record {
  anonymous = h.anonymous;
  prompt_kept = kept_again u.prompt_tokens s.prompt_usage h.prompt_kept;
  output_kept = kept_again u.completion_tokens s.output_usage h.output_kept;
}

observe_all-IsObserved :
    (cs : List ChatStreamChunk) (s : StreamStats) → IsObserved s → IsObserved (observe_all cs s)
unfolding observe_all observe
observe_all-IsObserved [] s h = h
observe_all-IsObserved (c ∷ cs) s h = observe_all-IsObserved cs _ (
    observe_choices-IsObserved c.choices _ (
      observe_usage-IsObserved c.usage _ (record {
        anonymous = h.anonymous;
        prompt_kept = h.prompt_kept;
        output_kept = h.output_kept;
      })))

or_keep-nonempty : (new old : String) → str_eq old "" ≡ false → str_eq (or_keep new old) "" ≡ false
or_keep-nonempty new old h = elim (Bool-cases (str_eq new "")) [ inl y ↦ rw y h | inr n ↦ rw n n ]

neither : (a b : Bool) → (a || b) ≡ false → (a ≡ false) × (b ≡ false)
neither a b h = ground arith

nothing_kept : (p : ℤ) → or_keep_count p (pos 0) ≡ p → ltz (pos 0) p ≡ false → p ≡ pos 0
nothing_kept p h no_more = sym h ∙ rw no_more

module _ (id model : String) (created : ℤ) (buf reason : String) (s : StreamStats)
    (h : IsObserved s) where
  abbrev gathered : ℤ → ℤ → StreamStats
  gathered p o = record {
    provider = "";
    id = id;
    created = created;
    model = model;
    content_buf = buf;
    finish_reason = reason;
    prompt_usage = p;
    output_usage = o;
  }

  usage_again :
      observe_usage (usage_of s) (gathered (pos 0) (pos 0)) ≡ gathered s.prompt_usage s.output_usage
  unfolding observe_usage usage_of
  usage_again = elim (Bool-cases (ltz (pos 0) s.prompt_usage || ltz (pos 0) s.output_usage)) [
    | inl some_used ↦ rw (some_used, h.prompt_kept, h.output_kept)
    | inr unused ↦
        let (no_prompt, no_output) = neither _ _ unused in
        rw unused (
          ap (λ p. gathered p (pos 0)) (sym (nothing_kept s.prompt_usage h.prompt_kept no_prompt))
          ∙ ap (gathered s.prompt_usage)
              (sym (nothing_kept s.output_usage h.output_kept no_output)))
  ]

  regathered :
      (now : ℤ) (req : ChatRequest) (has_id : str_eq id "" ≡ false)
      (has_model : str_eq model "" ≡ false) (has_date : is_zero created ≡ false)
      → to_cached_response now req (gathered s.prompt_usage s.output_usage)
        ≡ one_choice id model created has_id has_model has_date (pos 0) buf reason (usage_of s) ""
  unfolding to_cached_response usage_of
  regathered now req has_id has_model has_date = rw (has_id, has_model, has_date)

gate_reason :
    (resp : ChatResponse) (prompt_tok : ℤ) (first : Choice)
    → resp.choices ≡ first ∷ []
    → should_cache_response resp prompt_tok ≡ true
    → first.finish_reason ≡ "stop"
unfolding should_cache_response cacheable_choices
gate_reason resp prompt_tok first e h = elim (Bool-cases (str_eq first.finish_reason "stop")) [
  | inl y ↦ (str_eq_iff first.finish_reason "stop").0 y
  | inr n ↦ elim (Bool-cases (lez prompt_tok (pos 0))) [
    | inl free ↦ let h' : ◌≡◌ {A = Bool} false true = rw (e, free) at h in cc
    | inr paid ↦ let h' : ◌≡◌ {A = Bool} false true = rw (e, paid, n) at h in cc
  ]
]

dated :
    (now created : ℤ)
    → is_zero now ≡ false
    → is_zero (if is_zero created then now else created) ≡ false
dated now created h = elim (Bool-cases (is_zero created)) [ inl y ↦ rw y h | inr n ↦ rw n n ]

-- A response that a stream was gathered into and that passes the gate of the cache is replayed as a
-- stream that gathers into that response again: its ID, date, model, content, finish reason and
-- usage survive the way through the cache, however the content is cut into chunks, and for
-- whatever request it is replayed. The clock is past 0, and the first request names a model.
pub replay_cached-round_trip :
    (chunks : List ChatStreamChunk) (now : ℤ) (req : ChatRequest) (prompt_tok : ℤ)
    → is_zero now ≡ false
    → str_eq req.model "" ≡ false
    → should_cache_response (to_cached_response now req (observe_all chunks no_stats)) prompt_tok
      ≡ true
    → (now' : ℤ) (req_id : String) (req' : ChatRequest)
    → to_cached_response now' req' (
        observe_all
          (replay_frames now' req_id (to_cached_response now req (observe_all chunks no_stats)))
          no_stats)
      ≡ to_cached_response now req (observe_all chunks no_stats)
replay_cached-round_trip chunks now req prompt_tok later named gate now' req_id req' =
    let s = observe_all chunks no_stats in
    let seen =
      observe_all-IsObserved chunks no_stats
        (record { anonymous = refl; prompt_kept = refl; output_kept = refl }) in
    let id = or_keep s.id "chatcmpl-stream" in
    let model = or_keep s.model req.model in
    let created = if is_zero s.created then now else s.created in
    let has_id = or_keep-nonempty s.id "chatcmpl-stream" refl in
    let has_model = or_keep-nonempty s.model req.model named in
    let has_date : is_zero created ≡ false = dated now s.created later in
    let reason = s.finish_reason in
    let buf = s.content_buf in
    let u = usage_of s in
    let whole = one_choice id model created has_id has_model has_date (pos 0) buf reason u "" in
    let kept : to_cached_response now req s ≡ whole =
      unfold to_cached_response in
      ap (one_choice id model created has_id has_model has_date (pos 0) buf reason u)
        seen.anonymous in
    let ended : str_eq reason "" ≡ false =
      ap (λ r. str_eq r "")
        (gate_reason whole prompt_tok _ refl
          (ap (λ r. should_cache_response r prompt_tok) (sym kept) ∙ gate)) in
    let again =
      observe-replay id model created has_id has_model has_date now' req_id buf reason "" (pos 0) u
        ended
      ∙ usage_again id model created buf reason s seen in
    ap (λ r. to_cached_response now' req' (observe_all (replay_frames now' req_id r) no_stats)) kept
    ∙ (ap (to_cached_response now' req') again
        ∙ (regathered id model created buf reason s seen now' req' has_id has_model has_date
            ∙ sym kept))
