-- ===== src/Prompt/Tokens.antt =====
-- pkg/tokenizer/tokenizer.go: the token counts by which prompts are measured. The BPE codec and the
-- float product of the Anthropic estimate are parameters.
pub mod Subadditive
use x_beacon.Prelude.{
  ℕ, ◌+◌, ◌*◌, ◌/◌, ◌≤◌, ◌≡◌, Bool, true, false, ◌||◌, ◌==◌, Option, none, some, String, List, [],
  ◌∷◌, str_eq, ltb, length, if◌then◌else◌,
}
use x_beacon.Wire.{Message}

-- What the Go library does with strings: the runes, `strings.ToLower`, `HasPrefix`, `Contains`.
pub record Strings : Type 0 where
  pub runes : String → List ℕ
  pub to_lower : String → String
  pub has_prefix : String → String → Bool
  pub has_part : String → String → Bool

-- the interface Tokenizer
pub record Tokenizer : Type 0 where
  pub count_messages : List Message → ℕ
  pub count_text : String → ℕ

unfoldable pub is_space : ℕ → Bool
is_space r = r == b' ' || (r == 9 || (r == 10 || r == 13))

-- the runes that are no white space
unfoldable pub count_chars : List ℕ → ℕ
unfolding is_space
count_chars [] = 0
count_chars (r ∷ rs) = let rest = count_chars rs in if is_space r then rest else rest + 1

module _ (go : Strings) where
  unfoldable pub char_estimate : String → ℕ
  unfolding count_chars
  char_estimate text =
      if str_eq text ""
      then 0
      else (let chars = count_chars (go.runes text) in if ltb chars 4 then 1 else chars / 4)

  -- `encode` gives the number of tokens, or fails
  module _ (encode : String → Option ℕ) where
    unfoldable pub count_text : String → ℕ
    unfolding char_estimate
    count_text text =
        if str_eq text "" then 0 else elim (encode text) [ none ↦ char_estimate text | some n ↦ n ]

    -- what a message adds to the total
    unfoldable pub message_tokens : Message → ℕ
    unfolding count_text
    message_tokens m =
        3
        + count_text m.role
        + count_text m.content
        + (if str_eq m.name "" then 0 else count_text m.name)

    unfoldable pub add_messages : ℕ → List Message → ℕ
    unfolding message_tokens
    add_messages total [] = total
    add_messages total (m ∷ ms) = add_messages (total + message_tokens m) ms

    unfoldable pub count_messages : List Message → ℕ
    unfolding add_messages
    count_messages [] = 0
    count_messages (m ∷ ms) = add_messages 3 (m ∷ ms)

    unfoldable pub openai_bpe : Tokenizer
    openai_bpe = record { count_messages = count_messages; count_text = count_text }

    -- `product n` is int(float64(n) * 1.15 + 0.5)
    module _ (product : ℕ → ℕ) where
      unfoldable pub scale_tokens : ℕ → ℕ
      scale_tokens n = if n == 0 then 0 else product n

      unfoldable pub anthropic_approx : Tokenizer
      unfolding scale_tokens
      anthropic_approx = record {
        count_messages = λ ms. scale_tokens (count_messages ms);
        count_text = λ text. scale_tokens (count_text text);
      }

      -- Selector.For
      unfoldable pub tokenizer_for : String → Tokenizer
      tokenizer_for model =
          if go.has_prefix (go.to_lower model) "claude" then anthropic_approx else openai_bpe
