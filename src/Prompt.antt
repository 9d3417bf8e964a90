-- ===== src/Prompt.antt =====
-- internal/prompt/compressor.go: a prompt that is too long loses its oldest messages.
pub mod Tokens
pub mod Kept
pub mod Fits
use x_beacon.Prelude.{
  ℕ, ◌+◌, ◌*◌, ◌≤◌, ◌≡◌, Bool, true, false, ◌||◌, ◌&&◌, not, ◌==◌, Option, none, some, String, List,
  [], ◌∷◌, ◌++◌, str_eq, ltb, leb, length, if◌then◌else◌,
}
use x_beacon.Prelude.Int.{ℤ, pos, lez}
use x_beacon.Prelude.Maps.{GoMap, lookup}
use x_beacon.Wire.{Message}
use x_beacon.Prompt.Tokens.{Tokenizer}

-- The arithmetic of float64 that is used: comparisons, and `int(float64(n) * r)`.
pub record Ratios : Type 1 where
  pub R : Type 0
  pub not_positive : R → Bool
  pub above_one : R → Bool
  pub four_fifths : R
  pub part : R → ℕ → ℕ

pub record CompressorOptions (rt : Ratios) : Type 0 where
  pub tokenizer : Option (String → Tokenizer)
  pub default_window : ℤ
  pub windows : GoMap ℤ
  pub trigger_ratio : rt.R
  pub min_keep_messages : ℤ

pub record SlidingWindow (rt : Ratios) : Type 0 where
  pub tk : String → Tokenizer
  pub default_window : ℕ
  pub windows : GoMap ℤ
  pub trigger_ratio : rt.R
  pub min_keep_messages : ℕ

-- a positive option as it is, any other by its default
unfoldable pub or_default : ℕ → ℤ → ℕ
or_default d (pos n) = if n == 0 then d else n
or_default d n = d

pub record Compression : Type 0 where
  pub compressed : Bool
  pub tokens_before : ℕ
  pub tokens_after : ℕ
  pub removed_messages : ℕ

abbrev pub no_compression : Compression
no_compression = record {
  compressed = false;
  tokens_before = 0;
  tokens_after = 0;
  removed_messages = 0;
}

unfoldable pub is_system : Message → Bool
is_system m = str_eq m.role "system"

-- the two lists into which the messages are parted
unfoldable pub systems : List Message → List Message
systems [] = []
systems (m ∷ ms) = let later = systems ms in if is_system m then m ∷ later else later

unfoldable pub others : List Message → List Message
others [] = []
others (m ∷ ms) = let later = others ms in if is_system m then later else m ∷ later

-- The walk from the tail, at the point where it has passed the messages behind: whether it has
-- broken off, what it keeps, and `keepTokens`.
pub record Walk : Type 0 where
  pub stopped : Bool
  pub kept : List Message
  pub keep_tokens : ℕ
  pub keep_start : ℕ

module _ (t : Tokenizer) (system_tokens budget min_keep : ℕ) where
  -- one turn of the loop, unless it has broken off
  unfoldable pub walk_step : Message → Walk → Walk
  walk_step m w =
      let msg_tokens = t.count_messages (m ∷ []) in
      let fits = leb (system_tokens + w.keep_tokens + msg_tokens) budget in
      let must_keep = leb (length w.kept + 1) min_keep in
      if w.stopped
      then record w { keep_start = w.keep_start + 1 }
      else if not fits && not must_keep
      then record w { stopped = true; keep_start = 1 }
      else record w { kept = m ∷ w.kept; keep_tokens = w.keep_tokens + msg_tokens }

  unfoldable pub walk : List Message → Walk
  walk [] = record { stopped = false; kept = []; keep_tokens = 0; keep_start = 0 }
  walk (m ∷ rest) = walk_step m (walk rest)

window_of : ℕ → Option ℤ → ℕ
window_of d none = d
window_of d (some w) = or_default d w

unfoldable pub system_cost : Tokenizer → List Message → ℕ
system_cost t [] = 0
system_cost t (m ∷ ms) = t.count_messages (m ∷ ms)

module _ {rt : Ratios} where
  unfoldable pub new_sliding_window : CompressorOptions rt → Option (SlidingWindow rt)
  new_sliding_window opts = elim opts.tokenizer [
    | none ↦ none
    | some tk ↦ some (record {
      tk = tk;
      default_window = or_default 128_000 opts.default_window;
      windows = opts.windows;
      trigger_ratio =
          if rt.not_positive opts.trigger_ratio || rt.above_one opts.trigger_ratio
          then rt.four_fifths
          else opts.trigger_ratio;
      min_keep_messages = or_default 2 opts.min_keep_messages;
    })
  ]

  unfoldable pub window_for : SlidingWindow rt → String → ℕ
  unfolding window_of
  window_for c model = window_of c.default_window (lookup model c.windows)

  unfoldable pub budget_for : SlidingWindow rt → String → ℕ
  budget_for c model = rt.part c.trigger_ratio (window_for c model)

  -- the walk over the messages that are not the system's
  unfoldable pub walk_request : SlidingWindow rt → String → List Message → Walk
  walk_request c model ms =
      let t = c.tk model in
      walk t (system_cost t (systems ms)) (budget_for c model) c.min_keep_messages (others ms)

  -- Compress, on a request of this model with at least one message
  unfoldable pub compress_request :
      SlidingWindow rt → String → List Message → Compression × List Message
  compress_request c model ms =
      let t = c.tk model in
      let tokens_before = t.count_messages ms in
      let w = walk_request c model ms in
      let trimmed = systems ms ++ w.kept in
      let unchanged = record no_compression {
        tokens_before = tokens_before;
        tokens_after = tokens_before;
      } in
      if leb tokens_before (budget_for c model)
      then (unchanged, ms)
      else if w.keep_start == 0
      then (unchanged, ms)
      else (
        record {
          compressed = true;
          tokens_before = tokens_before;
          tokens_after = t.count_messages trimmed;
          removed_messages = w.keep_start;
        },
        trimmed,
      )

  -- Compress: a missing compressor and a request without messages change nothing
  unfoldable pub compress :
      Option (SlidingWindow rt) → String → List Message → Compression × List Message
  compress none model ms = (no_compression, ms)
  compress (some c) model [] = (no_compression, [])
  compress (some c) model (m ∷ ms) = compress_request c model (m ∷ ms)
