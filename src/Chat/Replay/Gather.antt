-- ===== src/Chat/Replay/Gather.antt =====
-- What the observation of a stream gathers from a role, slices of content and a reason to end.
use Prim.Native.String as Text
use Prim.Native.String.{◌++◌ as append}
use text.Mathlib.TextLemmas.{
  nil-append, append-nil as text_append-nil, append_assoc as text_append_assoc,
}
use x_beacon.Prelude.{
  ℕ, zero, suc, ◌≤◌, ◌≡◌, refl, ap, ◌∙◌, sym, false, Option, none, some, String, List, [], ◌∷◌,
  ◌++◌, append-nil, arith, str_eq,
}
use x_beacon.Prelude.Int.{ℤ, pos}
use x_beacon.Prelude.Runes.{take_runes, drop_runes, take-drop, count-drop}
use x_beacon.Wire.{Usage, ChatResponse, StreamChoice, ChatStreamChunk, plain_message}
use x_beacon.Chat.Stats.{
  StreamStats, no_stats, is_zero, observe_usage, observe_choices, observe, observe_all,
}
use x_beacon.Chat.Replay.{no_delta, pieces, content_choice, frame, content_frames, replay_frames}

-- the pieces, one after the other
abbrev pub join : List String → String
join [] = ""
join (s ∷ l) = append s (join l)

join-pieces : (fuel : ℕ) (s : String) → Text.count s ≤ fuel → join (pieces fuel s) ≡ s
unfolding pieces
join-pieces zero Text.[] h = refl
join-pieces zero (Text.◌∷◌ c s) h = absurd (omega (arith, Text.count.cons c s))
join-pieces (suc fuel) Text.[] h = refl
join-pieces (suc fuel) (Text.◌∷◌ c s) h =
    ap (append (take_runes 32 (Text.◌∷◌ c s)))
      (join-pieces fuel (drop_runes 31 s) (omega (arith, Text.count.cons c s, count-drop 31 s)))
    ∙ take-drop 32 (Text.◌∷◌ c s)

module _ (id model : String) (created : ℤ) (has_id : str_eq id "" ≡ false)
    (has_model : str_eq model "" ≡ false) (has_date : is_zero created ≡ false) where
  -- the state in the course of the replay
  abbrev pub at : String → String → ℤ → ℤ → StreamStats
  at buf reason p o = record {
    provider = "";
    id = id;
    created = created;
    model = model;
    content_buf = buf;
    finish_reason = reason;
    prompt_usage = p;
    output_usage = o;
  }

  observe-frame :
      (choices : List StreamChoice) (usage : Option Usage) (s : StreamStats)
      → observe (frame id created model choices usage) s
        ≡ observe_choices choices
            (observe_usage usage (record s { id = id; created = created; model = model }))
  unfolding observe
  observe-frame choices usage s = rw (has_id, has_model, has_date)

  observe-content :
      (index : ℤ) (l : List String) (rest : List ChatStreamChunk) (buf : String)
      → observe_all (content_frames id created model index l ++ rest) (at buf "" (pos 0) (pos 0))
        ≡ observe_all rest (at (append buf (join l)) "" (pos 0) (pos 0))
  unfolding observe_all content_frames
  observe-content index [] rest buf =
      ap (λ b. observe_all rest (at b "" (pos 0) (pos 0))) (sym (text_append-nil buf))
  observe-content index (piece ∷ l) rest buf =
      ap (λ s. observe_all (content_frames id created model index l ++ rest) s)
        (observe-frame (content_choice index piece ∷ []) none (at buf "" (pos 0) (pos 0)))
      ∙ (observe-content index l rest (append buf piece)
          ∙ ap (λ b. observe_all rest (at b "" (pos 0) (pos 0)))
              (text_append_assoc buf piece (join l)))

  -- a response with one choice that says how it has ended
  abbrev pub one_choice : ℤ → String → String → Option Usage → String → ChatResponse
  one_choice index buf reason usage q = record {
    id = id;
    object = "chat.completion";
    created = created;
    model = model;
    choices =
        record {
          index = index;
          message = plain_message "assistant" buf;
          finish_reason = reason;
          extra = [];
        }
        ∷ [];
    usage = usage;
    provider = q;
  }

  abbrev pub role_choice : ℤ → StreamChoice
  role_choice index = record {
    index = index;
    delta = record no_delta { role = "assistant" };
    finish_reason = "";
  }

  abbrev pub finish_choice : ℤ → String → StreamChoice
  finish_choice index reason = record { index = index; delta = no_delta; finish_reason = reason }

  replay_frames_one :
      (now : ℤ) (req_id buf reason q : String) (index : ℤ) (usage : Option Usage)
      → str_eq reason "" ≡ false
      → replay_frames now req_id (one_choice index buf reason usage q)
        ≡ frame id created model (role_choice index ∷ []) none
          ∷ (content_frames id created model index (pieces (Text.count buf) buf)
              ++ frame id created model (finish_choice index reason ∷ []) usage ∷ [])
  unfolding replay_frames
  replay_frames_one now req_id buf reason q index usage ended =
      rw (has_id, has_date, ended, append-nil)

  observe-finish :
      (usage : Option Usage) (index : ℤ) (buf reason : String)
      → str_eq reason "" ≡ false
      → observe_choices
          (finish_choice index reason ∷ [])
          (observe_usage usage (at buf "" (pos 0) (pos 0)))
        ≡ observe_usage usage (at buf reason (pos 0) (pos 0))
  unfolding observe_choices observe_usage
  observe-finish none index buf reason ended = rw (text_append-nil buf, ended)
  observe-finish (some u) index buf reason ended = rw (text_append-nil buf, ended)

  observe_all-cons :
      (c : ChatStreamChunk) (cs : List ChatStreamChunk) (s : StreamStats)
      → observe_all (c ∷ cs) s ≡ observe_all cs (observe c s)
  unfolding observe_all
  observe_all-cons c cs s = refl

  observe_all-nil : (s : StreamStats) → observe_all [] s ≡ s
  unfolding observe_all
  observe_all-nil s = refl

  observe-role :
      (index : ℤ)
      → observe (frame id created model (role_choice index ∷ []) none) no_stats
        ≡ at "" "" (pos 0) (pos 0)
  observe-role index =
      observe-frame (role_choice index ∷ []) none no_stats
      ∙ (unfold observe_choices observe_usage in refl)

  -- a stream that opens with the role, brings the content in slices, and ends with a reason
  pub observe-slices :
      (slices : List String) (reason : String) (index : ℤ) (usage : Option Usage)
      → str_eq reason "" ≡ false
      → observe_all
          (frame id created model (role_choice index ∷ []) none
            ∷ (content_frames id created model index slices
                ++ frame id created model (finish_choice index reason ∷ []) usage ∷ []))
          no_stats
        ≡ observe_usage usage (at (join slices) reason (pos 0) (pos 0))
  observe-slices slices reason index usage ended =
      let last = frame id created model (finish_choice index reason ∷ []) usage in
      observe_all-cons _ _ no_stats
      ∙ (ap (λ s. observe_all (content_frames id created model index slices ++ last ∷ []) s)
            (observe-role index)
          ∙ (observe-content index slices (last ∷ []) ""
              ∙ (ap (λ b. observe_all (last ∷ []) (at b "" (pos 0) (pos 0)))
                    (nil-append (join slices))
                  ∙ (observe_all-cons last [] _
                      ∙ (observe_all-nil _
                          ∙ (observe-frame (finish_choice index reason ∷ []) usage
                                (at (join slices) "" (pos 0) (pos 0))
                              ∙ observe-finish usage index (join slices) reason ended))))))

  pub observe-replay :
      (now : ℤ) (req_id buf reason q : String) (index : ℤ) (usage : Option Usage)
      → str_eq reason "" ≡ false
      → observe_all (replay_frames now req_id (one_choice index buf reason usage q)) no_stats
        ≡ observe_usage usage (at buf reason (pos 0) (pos 0))
  observe-replay now req_id buf reason q index usage ended =
      ap (λ l. observe_all l no_stats) (replay_frames_one now req_id buf reason q index usage ended)
      ∙ (observe-slices (pieces (Text.count buf) buf) reason index usage ended
          ∙ ap (λ b. observe_usage usage (at b reason (pos 0) (pos 0)))
              (join-pieces (Text.count buf) buf (omega arith)))
