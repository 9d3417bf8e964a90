-- ===== src/Prompt/Fits.antt =====
-- What a compression keeps, and that it fits the budget.
use x_beacon.Prelude.{
  ◌≤◌, ◌<◌, ◌≡◌, refl, ap, ◌∙◌, sym, subst, true, false, ◌==◌, ◌⊎◌, inl, inr, String, List, [], ◌∷◌,
  ◌++◌, leb, length, Bool-cases, All, arith,
}
use x_beacon.Wire.{Message}
use x_beacon.Prompt.Tokens.{Tokenizer}
use x_beacon.Prompt.Tokens.Subadditive.{IsSubadditive}
use x_beacon.Prompt.{
  Ratios, SlidingWindow, Compression, is_system, systems, others, Walk, budget_for, system_cost,
  walk_request, compress_request,
}
use x_beacon.Prompt.Kept.{
  apart, KeepsTail, walk-KeepsTail, others-AreOthers, right_part, parts_of_systems,
}

apart_lem :
    (t : Tokenizer) → IsSubadditive t → (ms : List Message) → t.count_messages ms ≤ apart t ms
apart_lem t sub [] = omega (arith, sub.of_nothing)
apart_lem t sub (m ∷ ms) = omega (arith, apart_lem t sub ms, sub.together (m ∷ []) ms)

system_cost_lem :
    (t : Tokenizer) → IsSubadditive t → (ms : List Message) → t.count_messages ms ≡ system_cost t ms
unfolding system_cost
system_cost_lem t sub [] = sub.of_nothing
system_cost_lem t sub (m ∷ ms) = refl

module _ {rt : Ratios} (c : SlidingWindow rt) (model : String) (ms : List Message) where
  abbrev w : Walk
  w = walk_request c model ms

  walked :
      KeepsTail
        (c.tk model)
        (system_cost (c.tk model) (systems ms))
        (budget_for c model)
        c.min_keep_messages
        (others ms)
        w
  unfolding walk_request
  walked = walk-KeepsTail _ _ _ _ (others ms)

  -- the result and the messages of a request that is left as it is
  abbrev Unchanged : Compression × List Message → Type 0
  Unchanged r =
      (r.0.compressed ≡ false)
      × (r.0.removed_messages ≡ 0)
      × (r.1 ≡ ms)
      × (r.0.tokens_before ≡ (c.tk model).count_messages ms)
      × (r.0.tokens_after ≡ (c.tk model).count_messages ms)

  -- and of one that is trimmed
  abbrev Trimmed : Compression × List Message → Type 0
  Trimmed r =
      (r.0.compressed ≡ true)
      × (r.0.removed_messages ≡ w.keep_start)
      × (r.1 ≡ systems ms ++ w.kept)
      × (r.0.tokens_before ≡ (c.tk model).count_messages ms)
      × (r.0.tokens_after ≡ (c.tk model).count_messages (systems ms ++ w.kept))
      × (w.stopped ≡ true)
      × (leb ((c.tk model).count_messages ms) (budget_for c model) ≡ false)

  two_ways : Unchanged (compress_request c model ms) ⊎ Trimmed (compress_request c model ms)
  unfolding compress_request
  two_ways = elim (Bool-cases (leb ((c.tk model).count_messages ms) (budget_for c model))) [
    | inl short ↦ inl (rw short, rw short, rw short, rw short, rw short)
    | inr long ↦ elim (Bool-cases (w.keep_start == 0)) [
      | inl all ↦
          inl (rw (long, all), rw (long, all), rw (long, all), rw (long, all), rw (long, all))
      | inr some_lost ↦ inr (
        rw (long, some_lost),
        rw (long, some_lost),
        rw (long, some_lost),
        rw (long, some_lost),
        rw (long, some_lost),
        stopped some_lost,
        long,
      )
    ]
  ]
    where
      stopped : (w.keep_start == 0) ≡ false → w.stopped ≡ true
      stopped h = elim (Bool-cases w.stopped) [
        | inl yes_it_did ↦ yes_it_did
        | inr going ↦ ground (arith, h, walked.going going)
      ]

  kept_parts :
      (systems (systems ms ++ w.kept) ≡ systems ms) × (others (systems ms ++ w.kept) ≡ w.kept)
  kept_parts =
      let all_others =
        subst (λ l. All (λ m. is_system m ≡ false) l) walked.split (others-AreOthers ms) in
      parts_of_systems ms w.kept (right_part walked.dropped w.kept all_others)

  -- Whatever the budget, a compression keeps all system messages in their order and drops only the
  -- oldest of the other messages, as many as it says; if it drops any, at least MinKeepMessages of
  -- the others are left. Without a compression the request is as before. The two token counts are
  -- those of the messages before and after.
  pub compress_request_keeps :
      (systems (compress_request c model ms).1 ≡ systems ms)
      × ((lost : List Message) × (others ms ≡ lost ++ others (compress_request c model ms).1)
          × (length lost ≡ (compress_request c model ms).0.removed_messages))
      × ((compress_request c model ms).0.compressed ≡ true
          → c.min_keep_messages ≤ length (others (compress_request c model ms).1))
      × ((compress_request c model ms).0.compressed ≡ false → (compress_request c model ms).1 ≡ ms)
      × ((compress_request c model ms).0.tokens_before ≡ (c.tk model).count_messages ms)
      × ((compress_request c model ms).0.tokens_after
          ≡ (c.tk model).count_messages (compress_request c model ms).1)
  compress_request_keeps = elim two_ways [
    | inl (plain, none_lost, same, before, left) ↦ (
      ap systems same,
      ([], ap others (sym same), sym none_lost),
      λ h. cc,
      λ h. same,
      before,
      left ∙ ap (c.tk model).count_messages (sym same),
    )
    | inr (short, lost, cut, before, left, stopped, _) ↦
        let rest = ap others cut ∙ kept_parts.1 in
        (
          ap systems cut ∙ kept_parts.0,
          (
            walked.dropped,
            walked.split ∙ ap (λ l. walked.dropped ++ l) (sym rest),
            walked.dropped_length ∙ sym lost,
          ),
          λ h. subst (λ l. c.min_keep_messages ≤ length l) (sym rest) (walked.ended stopped),
          λ h. cc,
          before,
          left ∙ ap (c.tk model).count_messages (sym cut),
        )
  ]

  -- A compressed prompt fits the budget of its model, unless it has been cut down to the floor of
  -- MinKeepMessages; and only a prompt over the budget is compressed. The tokenizer is taken to be
  -- subadditive.
  pub compress_request_fits :
      IsSubadditive (c.tk model)
      → (compress_request c model ms).0.compressed ≡ true
      → (budget_for c model < (compress_request c model ms).0.tokens_before)
        × (((compress_request c model ms).0.tokens_after ≤ budget_for c model)
            ⊎ (length (others (compress_request c model ms).1) ≡ c.min_keep_messages))
  compress_request_fits sub yes_compressed = elim two_ways [
    | inl (plain, _, _, _, _) ↦ cc
    | inr (short, lost, cut, before, left, stopped, long) ↦ (
      ground (arith, long, before),
      elim walked.within [
        | inl few ↦
            let rest = ap others cut ∙ kept_parts.1 in
            inr (omega (arith, few, walked.ended stopped, ap (length {A = Message}) rest))
        | inr within ↦ inl (
            omega (
              arith,
              within,
              left,
              walked.cost,
              sub.together (systems ms) w.kept,
              system_cost_lem (c.tk model) sub (systems ms),
              apart_lem (c.tk model) sub w.kept,
            ))
      ],
    )
  ]
