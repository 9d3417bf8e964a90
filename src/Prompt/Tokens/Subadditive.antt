-- ===== src/Prompt/Tokens/Subadditive.antt =====
-- A list of messages never counts for more than its parts.
use x_beacon.Prelude.{
  ℕ, ◌+◌, ◌*◌, ◌≤◌, ◌≡◌, refl, ap, Option, String, List, [], ◌∷◌, ◌++◌, arith, inl, inr, Bool-cases,
  ◌∙◌, append-nil,
}
use x_beacon.Wire.{Message}
use x_beacon.Prompt.Tokens.{
  Strings, Tokenizer, message_tokens, add_messages, count_messages, openai_bpe, scale_tokens,
  anthropic_approx, tokenizer_for,
}

-- What the compressor relies on: nothing counts as 0, and two lists together count no more than
-- apart.
pub record IsSubadditive (t : Tokenizer) : Type 0 where
  pub of_nothing : t.count_messages [] ≡ 0
  pub together :
      (xs ys : List Message)
      → t.count_messages (xs ++ ys) ≤ t.count_messages xs + t.count_messages ys

module _ (go : Strings) (encode : String → Option ℕ) where
  add_messages_from :
      (a b : ℕ) (ms : List Message)
      → add_messages go encode (a + b) ms ≡ a + add_messages go encode b ms
  unfolding add_messages
  add_messages_from a b [] = refl
  add_messages_from a b (m ∷ ms) =
      ap (λ n. add_messages go encode n ms) (omega arith)
      ∙ add_messages_from a (b + message_tokens go encode m) ms

  add_messages-append :
      (n : ℕ) (xs ys : List Message)
      → add_messages go encode n (xs ++ ys)
        ≡ add_messages go encode (add_messages go encode n xs) ys
  unfolding add_messages
  add_messages-append n [] ys = refl
  add_messages-append n (x ∷ xs) ys = add_messages-append (n + message_tokens go encode x) xs ys

  add_messages_zero :
      (n : ℕ) (ms : List Message) → add_messages go encode n ms ≡ n + add_messages go encode 0 ms
  add_messages_zero n ms =
      ap (λ k. add_messages go encode k ms) (omega arith) ∙ add_messages_from n 0 ms

  count_messages_cons :
      (m : Message) (ms : List Message)
      → count_messages go encode (m ∷ ms) ≡ 3 + add_messages go encode 0 (m ∷ ms)
  unfolding count_messages
  count_messages_cons m ms = add_messages_zero 3 (m ∷ ms)

  -- the priming is counted once
  count_messages-append :
      (x : Message) (xs : List Message) (y : Message) (ys : List Message)
      → count_messages go encode (x ∷ xs ++ y ∷ ys) + 3
        ≡ count_messages go encode (x ∷ xs) + count_messages go encode (y ∷ ys)
  count_messages-append x xs y ys = omega (
    arith,
    count_messages_cons x (xs ++ y ∷ ys),
    count_messages_cons x xs,
    count_messages_cons y ys,
    add_messages-append 0 (x ∷ xs) (y ∷ ys),
    add_messages_zero (add_messages go encode 0 (x ∷ xs)) (y ∷ ys),
  )

  count_none : count_messages go encode [] ≡ 0
  unfolding count_messages
  count_none = refl

  count_nonempty : (x : Message) (xs : List Message) → 3 ≤ count_messages go encode (x ∷ xs)
  count_nonempty x xs = omega (arith, count_messages_cons x xs)

  together_nil : (f : List Message → ℕ) (xs : List Message) → f (xs ++ []) ≤ f xs + f []
  together_nil f xs = omega (arith, ap f (append-nil xs))

  openai_bpe-IsSubadditive : IsSubadditive (openai_bpe go encode)
  unfolding openai_bpe
  openai_bpe-IsSubadditive = record { of_nothing = count_none; together = together }
    where
      together :
          (xs ys : List Message)
          → count_messages go encode (xs ++ ys)
            ≤ count_messages go encode xs + count_messages go encode ys
      together [] ys = omega arith
      together (x ∷ xs) [] = together_nil (count_messages go encode) (x ∷ xs)
      together (x ∷ xs) (y ∷ ys) = omega (arith, count_messages-append x xs y ys)

  -- The float product is the exact one, 1.15 * n, up to one token.
  abbrev pub IsProduct : (ℕ → ℕ) → Type 0
  IsProduct product =
      (n : ℕ) → (115 * n ≤ 100 * product n + 100) × (100 * product n ≤ 115 * n + 100)

  scale_sum :
      (product : ℕ → ℕ)
      → IsProduct product
      → (a b c : ℕ) → 3 ≤ a
      → 3 ≤ b
      → c + 3 ≡ a + b
      → scale_tokens go encode product c
        ≤ scale_tokens go encode product a + scale_tokens go encode product b
  unfolding scale_tokens
  scale_sum product near a b c ha hb e = ground (arith, near a, near b, near c)

  scale_zero : (product : ℕ → ℕ) (n : ℕ) → n ≡ 0 → scale_tokens go encode product n ≡ 0
  unfolding scale_tokens
  scale_zero product n h = rw h

  anthropic_approx-IsSubadditive :
      (product : ℕ → ℕ) → IsProduct product → IsSubadditive (anthropic_approx go encode product)
  unfolding anthropic_approx
  anthropic_approx-IsSubadditive product near = record {
    of_nothing = scale_zero product (counted []) count_none;
    together = together;
  }
    where
      counted : List Message → ℕ
      counted ms = count_messages go encode ms

      estimate : List Message → ℕ
      estimate ms = scale_tokens go encode product (counted ms)

      together : (xs ys : List Message) → estimate (xs ++ ys) ≤ estimate xs + estimate ys
      together [] ys = omega arith
      together (x ∷ xs) [] = together_nil estimate (x ∷ xs)
      together (x ∷ xs) (y ∷ ys) =
          scale_sum product near _ _ _ (count_nonempty x xs) (count_nonempty y ys)
            (count_messages-append x xs y ys)

  -- The tokenizer of every model is subadditive: a list of messages never counts for more than its
  -- two parts, and no messages count for nothing. The float product of the Anthropic estimate is
  -- taken to be exact up to one token.
  pub tokenizer_for-IsSubadditive :
      (product : ℕ → ℕ)
      → IsProduct product
      → (model : String) → IsSubadditive (tokenizer_for go encode product model)
  unfolding tokenizer_for
  tokenizer_for-IsSubadditive product near model =
      elim (Bool-cases (go.has_prefix (go.to_lower model) "claude")) [
        | inl claude ↦ rw claude (anthropic_approx-IsSubadditive product near)
        | inr other ↦ rw other openai_bpe-IsSubadditive
      ]
