-- ===== src/Prompt/Kept.antt =====
-- The walk of the compressor from the tail, and the messages by their roles.
use x_beacon.Prelude.{
  All, ℕ, ◌+◌, ◌≤◌, ◌≡◌, refl, ap, ◌∙◌, sym, true, false, ◌⊎◌, inl, inr, List, [], ◌∷◌, ◌++◌, leb,
  length, if◌then◌else◌, Bool-cases, arith,
}
use x_beacon.Wire.{Message}
use x_beacon.Prompt.Tokens.{Tokenizer}
use x_beacon.Prompt.{is_system, systems, others, Walk, walk_step, walk}

-- what a list counts, message by message
abbrev pub apart : Tokenizer → List Message → ℕ
apart t [] = 0
apart t (m ∷ ms) = t.count_messages (m ∷ []) + apart t ms

module _ (t : Tokenizer) (system_tokens budget min_keep : ℕ) where
  abbrev Go : List Message → Walk
  Go = walk t system_tokens budget min_keep

  -- the messages kept are the tail of the list, and what they cost is known
  pub record KeepsTail (ms : List Message) (w : Walk) : Type 0 where
    pub dropped : List Message
    pub split : ms ≡ dropped ++ w.kept
    pub dropped_length : length dropped ≡ w.keep_start
    pub going : w.stopped ≡ false → w.keep_start ≡ 0
    pub ended : w.stopped ≡ true → min_keep ≤ length w.kept
    pub cost : w.keep_tokens ≡ apart t w.kept
    pub within : (length w.kept ≤ min_keep) ⊎ (system_tokens + w.keep_tokens ≤ budget)

  walk_stopped :
      (m : Message) (w : Walk)
      → w.stopped ≡ true
      → walk_step t system_tokens budget min_keep m w ≡ record w { keep_start = w.keep_start + 1 }
  unfolding walk_step
  walk_stopped m w h = rw h

  walk_breaks :
      (m : Message) (w : Walk)
      → w.stopped ≡ false
      → leb (system_tokens + w.keep_tokens + t.count_messages (m ∷ [])) budget ≡ false
      → leb (length w.kept + 1) min_keep ≡ false
      → walk_step t system_tokens budget min_keep m w ≡ record w { stopped = true; keep_start = 1 }
  unfolding walk_step
  walk_breaks m w h a b = rw (h, a, b)

  walk_keeps :
      (m : Message) (w : Walk)
      → w.stopped ≡ false
      → (leb (system_tokens + w.keep_tokens + t.count_messages (m ∷ [])) budget ≡ true)
        ⊎ (leb (length w.kept + 1) min_keep ≡ true)
      → walk_step t system_tokens budget min_keep m w
        ≡ record w { kept = m ∷ w.kept; keep_tokens = w.keep_tokens + t.count_messages (m ∷ []) }
  unfolding walk_step
  walk_keeps m w h (inl a) = rw (h, a)
  walk_keeps m w h (inr b) =
      elim (Bool-cases (leb (system_tokens + w.keep_tokens + t.count_messages (m ∷ [])) budget)) [
        | inl a ↦ rw (h, a)
        | inr a ↦ rw (h, a, b)
      ]

  -- a walk that has not broken off has dropped nothing
  all_kept : (ms : List Message) (w : Walk) → KeepsTail ms w → w.stopped ≡ false → ms ≡ w.kept
  all_kept ms w h going =
      h.split ∙ ap (λ l. l ++ w.kept) (nothing h.dropped (h.dropped_length ∙ h.going going))
    where
      nothing : (l : List Message) → length l ≡ 0 → l ≡ []
      nothing [] e = refl
      nothing (x ∷ l) e = cc

  keeps-KeepsTail :
      (m : Message) (ms : List Message) (w : Walk)
      → KeepsTail ms w
      → w.stopped ≡ false
      → (leb (system_tokens + w.keep_tokens + t.count_messages (m ∷ [])) budget ≡ true)
        ⊎ (leb (length w.kept + 1) min_keep ≡ true)
      → KeepsTail (m ∷ ms) (walk_step t system_tokens budget min_keep m w)
  keeps-KeepsTail m ms w h going may = rw (walk_keeps m w going may) (record {
    dropped = [];
    split = ap (λ l. m ∷ l) (all_kept ms w h going);
    dropped_length = sym (h.going going);
    going = h.going;
    ended = λ e. cc;
    cost = omega (arith, h.cost);
    within = fits may;
  })
    where
      fits :
          (leb (system_tokens + w.keep_tokens + t.count_messages (m ∷ [])) budget ≡ true)
            ⊎ (leb (length w.kept + 1) min_keep ≡ true)
          → (length (m ∷ w.kept) ≤ min_keep)
            ⊎ (system_tokens + (w.keep_tokens + t.count_messages (m ∷ [])) ≤ budget)
      fits (inl a) = inr (ground (arith, a))
      fits (inr b) = inl (ground (arith, b))

  walk_step-KeepsTail :
      (m : Message) (ms : List Message) (w : Walk)
      → KeepsTail ms w
      → KeepsTail (m ∷ ms) (walk_step t system_tokens budget min_keep m w)
  walk_step-KeepsTail m ms w h = elim (Bool-cases w.stopped) [
    | inl stopped ↦ rw (walk_stopped m w stopped) (record {
      dropped = m ∷ h.dropped;
      split = ap (λ l. m ∷ l) h.split;
      dropped_length = omega (arith, h.dropped_length);
      going = λ e. cc;
      ended = h.ended;
      cost = h.cost;
      within = h.within;
    })
    | inr going ↦
        elim (Bool-cases (leb (system_tokens + w.keep_tokens + t.count_messages (m ∷ [])) budget)) [
          | inl a ↦ keeps-KeepsTail m ms w h going (inl a)
          | inr a ↦ elim (Bool-cases (leb (length w.kept + 1) min_keep)) [
            | inl b ↦ keeps-KeepsTail m ms w h going (inr b)
            | inr b ↦ rw (walk_breaks m w going a b) (record {
              dropped = m ∷ [];
              split = ap (λ l. m ∷ l) (all_kept ms w h going);
              dropped_length = refl;
              going = λ e. cc;
              ended = λ e. ground (arith, b);
              cost = h.cost;
              within = h.within;
            })
          ]
        ]
  ]

  pub walk-KeepsTail : (ms : List Message) → KeepsTail ms (Go ms)
  unfolding walk
  walk-KeepsTail [] = record {
    dropped = [];
    split = refl;
    dropped_length = refl;
    going = λ h. refl;
    ended = λ h. cc;
    cost = refl;
    within = inl (omega arith);
  }
  walk-KeepsTail (m ∷ ms) = walk_step-KeepsTail m ms (Go ms) (walk-KeepsTail ms)

abbrev pub AreOthers : List Message → Type 0
AreOthers ms = All (λ m. is_system m ≡ false) ms

systems_lem :
    (m : Message) (ms : List Message)
    → systems (m ∷ ms) ≡ (if is_system m then m ∷ systems ms else systems ms)
unfolding systems
systems_lem m ms = refl

others_lem :
    (m : Message) (ms : List Message)
    → others (m ∷ ms) ≡ (if is_system m then others ms else m ∷ others ms)
unfolding others
others_lem m ms = refl

none_left : (systems [] ≡ []) × (others [] ≡ [])
unfolding systems others
none_left = (refl, refl)

pub others-AreOthers : (ms : List Message) → AreOthers (others ms)
others-AreOthers [] = rw none_left.1 tt
others-AreOthers (m ∷ ms) = elim (Bool-cases (is_system m)) [
  | inl y ↦ rw (others_lem m ms, y) (others-AreOthers ms)
  | inr n ↦ rw (others_lem m ms, n) (n, others-AreOthers ms)
]

pub right_part : (xs ys : List Message) → AreOthers (xs ++ ys) → AreOthers ys
right_part [] ys h = h
right_part (x ∷ xs) ys h = right_part xs ys h.1

-- messages that are not the system's, after the system's
parts_of_others : (ys : List Message) → AreOthers ys → (systems ys ≡ []) × (others ys ≡ ys)
parts_of_others [] h = none_left
parts_of_others (y ∷ ys) (h, k) =
    let (a, b) = parts_of_others ys k in
    (rw (systems_lem y ys, h) a, rw (others_lem y ys, h) (ap (λ l. y ∷ l) b))

pub parts_of_systems :
    (ms ys : List Message)
    → AreOthers ys
    → (systems (systems ms ++ ys) ≡ systems ms) × (others (systems ms ++ ys) ≡ ys)
parts_of_systems [] ys h = rw none_left.0 (parts_of_others ys h)
parts_of_systems (m ∷ ms) ys h =
    let (a, b) = parts_of_systems ms ys h in
    elim (Bool-cases (is_system m)) [
      | inl y ↦
          rw (systems_lem m ms, y)
            (
              rw (systems_lem m (systems ms ++ ys), y) (ap (λ l. m ∷ l) a),
              rw (others_lem m (systems ms ++ ys), y) b,
            )
      | inr n ↦ rw (systems_lem m ms, n) (a, b)
    ]
