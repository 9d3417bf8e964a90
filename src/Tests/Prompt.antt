-- ===== src/Tests/Prompt.antt =====
-- A compressor with a window of ten tokens, where a word counts one.
use x_beacon.Prelude.Maps.{lookup}
use x_beacon.Prelude.{
  ℕ, ◌+◌, ◌*◌, ◌/◌, ◌≤◌, ◌<◌, ◌≡◌, ◌⊎◌, refl, true, false, Option, some, String, List, [], ◌∷◌,
  ◌++◌, str_eq, length, arith,
}
use x_beacon.Wire.{Message, plain_message}
use x_beacon.Prompt.Tokens.{Strings, Tokenizer, tokenizer_for, openai_bpe, count_messages}
use x_beacon.Prompt.Tokens.Subadditive.{IsSubadditive, tokenizer_for-IsSubadditive}
use x_beacon.Prompt.{
  Ratios, SlidingWindow, systems, others, budget_for, compress_request, window_for, walk_request,
  walk, is_system, walk_step, system_cost,
}
use x_beacon.Prompt.Fits.{compress_request_keeps, compress_request_fits}

abbrev pub strings : Strings
strings = record {
  runes = λ s. [];
  to_lower = λ s. s;
  has_prefix = λ s p. str_eq s p;
  has_part = λ s p. str_eq s p;
}

abbrev one_each : String → Option ℕ
one_each s = some 1

abbrev product : ℕ → ℕ
product n = (115 * n + 50) / 100

product-IsProduct : (n : ℕ) → (115 * n ≤ 100 * product n + 100) × (100 * product n ≤ 115 * n + 100)
product-IsProduct n = (omega arith, omega arith)

abbrev tokens : String → Tokenizer
tokens = tokenizer_for strings one_each product

tokens-IsSubadditive : IsSubadditive (tokens "gpt")
tokens-IsSubadditive = tokenizer_for-IsSubadditive strings one_each product product-IsProduct "gpt"

abbrev percent : Ratios
percent = record {
  R = ℕ;
  not_positive = λ r. false;
  above_one = λ r. false;
  four_fifths = 80;
  part = λ r n. r * n / 100;
}

abbrev compressor : SlidingWindow percent
compressor = record {
  tk = tokens;
  default_window = 35;
  windows = [];
  trigger_ratio = 80;
  min_keep_messages = 2;
}

abbrev said : String → Message
said role = plain_message role "x"

abbrev talk : List Message
talk = said "user" ∷ said "system" ∷ said "assistant" ∷ said "user" ∷ said "user" ∷ said "user" ∷ []

compress_run :
    (compress_request compressor "gpt" talk).1 ≡ said "system" ∷ said "user" ∷ said "user" ∷ []
unfolding compress_request tokenizer_for openai_bpe count_messages budget_for window_for lookup
    walk_request walk others is_system walk_step system_cost systems
compress_run = refl

compresses : (compress_request compressor "gpt" talk).0.compressed ≡ true
unfolding compress_request tokenizer_for openai_bpe count_messages budget_for window_for lookup
    walk_request walk others is_system walk_step system_cost systems
compresses = refl

compress_request_keeps_example :
    (systems (compress_request compressor "gpt" talk).1 ≡ systems talk)
    × ((lost : List Message) × (others talk
          ≡ lost ++ others (compress_request compressor "gpt" talk).1)
        × (length lost ≡ (compress_request compressor "gpt" talk).0.removed_messages))
    × ((compress_request compressor "gpt" talk).0.compressed ≡ true
        → 2 ≤ length (others (compress_request compressor "gpt" talk).1))
    × ((compress_request compressor "gpt" talk).0.compressed ≡ false
        → (compress_request compressor "gpt" talk).1 ≡ talk)
    × ((compress_request compressor "gpt" talk).0.tokens_before
        ≡ (tokens "gpt").count_messages talk)
    × ((compress_request compressor "gpt" talk).0.tokens_after
        ≡ (tokens "gpt").count_messages (compress_request compressor "gpt" talk).1)
compress_request_keeps_example = compress_request_keeps compressor "gpt" talk

compress_request_fits_example :
    (budget_for compressor "gpt" < (compress_request compressor "gpt" talk).0.tokens_before)
    × (((compress_request compressor "gpt" talk).0.tokens_after ≤ budget_for compressor "gpt")
        ⊎ (length (others (compress_request compressor "gpt" talk).1) ≡ 2))
compress_request_fits_example =
    compress_request_fits compressor "gpt" talk tokens-IsSubadditive compresses
