-- ===== src/Observability/TimeSeries/Laws.antt =====
-- What the ring shows of a history of requests.
use x_beacon.Prelude.{
  ℕ, zero, suc, ◌+◌, ◌-◌, ◌*◌, ◌/◌, ◌%◌, ◌≤◌, ◌<◌, ◌≡◌, ◌≢◌, refl, sym, ap, ◌∙◌, true, false, ◌&&◌,
  not, Option, none, some, List, [], ◌∷◌, ◌==◌, if◌then◌else◌, All, All-map, count_if, arith,
  Bool-cases, inl, inr, subst, if-cases,
}
use native.Mathlib.Decide.{ℕ_discrete}
use x_beacon.Prelude.Int.{ℤ, pos, lez}
use x_beacon.Observability.TimeSeries.{
  TsSlot, TimePoint, Slots, slot_dur, no_slots, truncate, slot_index, starts_at, fresh_slot,
  count_status, record_status, point_of, points, snapshot,
}

-- a request that has ended, by the time and its status
pub record Ended : Type 0 where
  pub at : ℕ
  pub status : ℤ

-- the ring after a history, which has the latest request first
abbrev pub record_all : List Ended → Slots
record_all [] = no_slots
record_all (e ∷ older) = record_status e.at e.status (record_all older)

-- the clock does not go back
abbrev pub IsOrdered : List Ended → Type 0
IsOrdered [] = Unit
IsOrdered (e ∷ older) = All (λ o. o.at ≤ e.at) older × IsOrdered older

-- the requests of a minute that went well, or not
abbrev pub successes : ℕ → List Ended → ℕ
successes b l = count_if (λ e. (truncate e.at == b) && not (lez (pos 400) e.status)) l

abbrev pub errors : ℕ → List Ended → ℕ
errors b l = count_if (λ e. (truncate e.at == b) && lez (pos 400) e.status) l

abbrev pub tally : ℕ → List Ended → TimePoint
tally b l = record { at = b; success = successes b l; error = errors b l }

-- the tallies of the last `n` minutes, from the oldest on
abbrev pub tallies : ℕ → ℕ → List Ended → List TimePoint
tallies zero now l = []
tallies (suc n) now l = tally (now - n * slot_dur) l ∷ tallies n now l

index_of_minute : (m : ℕ) → slot_index (m * slot_dur) ≡ m % 60
unfolding slot_index
index_of_minute m = omega arith

abbrev point_in : Slots → ℕ → TimePoint
point_in slots b = point_of b (slots (slot_index b))

eq_same : (a : ℕ) → (a == a) ≡ true
eq_same a = ground arith

eq_other : (a b : ℕ) → a ≢ b → (a == b) ≡ false
eq_other a b h = ground arith

zero_plus : (n : ℕ) → 0 + n ≡ n
zero_plus n = omega arith

one_plus : (n : ℕ) → 1 + n ≡ suc n
one_plus n = omega arith

-- one request more
abbrev bump : ℤ → TimePoint → TimePoint
bump status p =
    if lez (pos 400) status
    then record p { error = suc p.error }
    else record p { success = suc p.success }

tally_same :
    (e : Ended) (l : List Ended)
    → tally (truncate e.at) (e ∷ l) ≡ bump e.status (tally (truncate e.at) l)
tally_same e l = elim (Bool-cases (lez (pos 400) e.status)) [
  | inl y ↦ rw (eq_same (truncate e.at), y, zero_plus, one_plus)
  | inr n ↦ rw (eq_same (truncate e.at), n, zero_plus, one_plus)
]

tally_other : (b : ℕ) (e : Ended) (l : List Ended) → truncate e.at ≢ b → tally b (e ∷ l) ≡ tally b l
tally_other b e l h =
    rw (eq_other (truncate e.at) b h, zero_plus (successes b l), zero_plus (errors b l))

none_later :
    (m n : ℕ) (l : List Ended)
    → n < m
    → All (λ e. e.at / slot_dur ≤ n) l
    → tally (m * slot_dur) l ≡ record { at = m * slot_dur; success = 0; error = 0 }
none_later m n [] h a = refl
none_later m n (e ∷ l) h a =
    tally_other (m * slot_dur) e l (λ same. absurd (omega (arith, a.0))) ∙ none_later m n l h a.1

starts_at-true : (o : Option ℕ) (b : ℕ) → starts_at o b ≡ true → o ≡ some b
starts_at-true none b h = cc
starts_at-true (some a) b h = ap some (ground arith)

fresh_start : (a : ℕ) (s : TsSlot) → (fresh_slot a s).start ≡ some a
unfolding fresh_slot
fresh_start a s =
    if-cases {A = TsSlot} (λ r. r.start ≡ some a) (starts_at s.start a)
      (λ y. starts_at-true s.start a y) (λ n. refl)

counted_start : (status : ℤ) (s : TsSlot) → (count_status status s).start ≡ s.start
unfolding count_status
counted_start status s =
    if-cases {A = TsSlot} (λ r. r.start ≡ s.start) (lez (pos 400) status) (λ y. refl) (λ n. refl)

counted_same :
    (b : ℕ) (status : ℤ) (s : TsSlot)
    → point_of b (count_status status (fresh_slot b s)) ≡ bump status (point_of b s)
unfolding point_of fresh_slot count_status
counted_same b status s = elim (Bool-cases (starts_at s.start b)) [
  | inl y ↦ elim (Bool-cases (lez (pos 400) status)) [ inl z ↦ rw (y, z, y) | inr z ↦ rw (y, z, y) ]
  | inr n ↦ elim (Bool-cases (lez (pos 400) status)) [
    | inl z ↦ rw (n, z, eq_same b)
    | inr z ↦ rw (n, z, eq_same b)
  ]
]

module _ (at : ℕ) (status : ℤ) (slots : Slots) where
  point_same :
      point_in (record_status at status slots) (truncate at)
      ≡ bump status (point_in slots (truncate at))
  unfolding record_status
  point_same =
      rw (eq_same (slot_index (truncate at)))
        (counted_same (truncate at) status (slots (slot_index (truncate at))))

  point_elsewhere :
      (b : ℕ)
      → slot_index b ≢ slot_index (truncate at)
      → point_in (record_status at status slots) b ≡ point_in slots b
  unfolding record_status
  point_elsewhere b h = rw (eq_other _ _ h)

  point_stale :
      (b : ℕ)
      → slot_index b ≡ slot_index (truncate at)
      → truncate at ≢ b
      → point_in (record_status at status slots) b ≡ record { at = b; success = 0; error = 0 }
  unfolding record_status point_of
  point_stale b same other =
      let s = slots (slot_index (truncate at)) in
      let stale : starts_at (count_status status (fresh_slot (truncate at) s)).start b ≡ false =
        ap (λ o. starts_at o b)
          (counted_start status (fresh_slot (truncate at) s) ∙ fresh_start (truncate at) s)
        ∙ eq_other (truncate at) b other in
      rw (same, eq_same (slot_index (truncate at)), stale)

read_lem :
    (l : List Ended) (now m : ℕ)
    → IsOrdered l
    → All (λ e. e.at / slot_dur ≤ now) l
    → now < m + 60
    → point_in (record_all l) (m * slot_dur) ≡ tally (m * slot_dur) l
read_lem [] now m o a h = unfold point_of in refl
read_lem (e ∷ l) now m o a h =
    let n = e.at / slot_dur in
    let before : All (λ o. o.at / slot_dur ≤ n) l =
      All-map (λ o. o.at ≤ e.at) (λ o. o.at / slot_dur ≤ n) (λ o le. omega arith) l o.0 in
    elim (ℕ_discrete n m) [
      | yes same ↦
          let at_m : truncate e.at ≡ m * slot_dur = omega arith in
          subst (λ b. point_in (record_all (e ∷ l)) b ≡ tally b (e ∷ l)) at_m
            (point_same e.at e.status (record_all l)
              ∙ (ap (bump e.status) (read_lem l n n o.1 before (omega arith))
                  ∙ sym (tally_same e l)))
      | no other ↦
          let not_here : truncate e.at ≢ m * slot_dur = λ same. other (omega arith) in
          elim (ℕ_discrete (slot_index (m * slot_dur)) (slot_index (n * slot_dur))) [
            | no elsewhere ↦
                point_elsewhere e.at e.status (record_all l) (m * slot_dur) elsewhere
                ∙ (read_lem l n m o.1 before (omega (arith, a.0))
                    ∙ sym (tally_other (m * slot_dur) e l not_here))
            | yes here ↦
                let later : n < m =
                  omega (arith, a.0, sym (index_of_minute m) ∙ (here ∙ index_of_minute n)) in
                point_stale e.at e.status (record_all l) (m * slot_dur) here not_here
                ∙ sym (none_later m n (e ∷ l) later (omega arith, before))
          ]
    ]

points_lem :
    (k now : ℕ) (l : List Ended)
    → IsOrdered l
    → All (λ e. e.at / slot_dur ≤ now) l
    → k ≤ 60
    → k ≤ now + 1
    → points k (now * slot_dur) (record_all l) ≡ tallies k (now * slot_dur) l
unfolding points
points_lem zero now l o a h r = refl
points_lem (suc k) now l o a h r =
    let b : now * slot_dur - k * slot_dur ≡ (now - k) * slot_dur = omega arith in
    cc (
      ap (point_in (record_all l)) b,
      read_lem l now (now - k) o a (omega arith),
      ap (λ b. tally b l) b,
      points_lem k now l o a (omega arith) (omega arith),
    )

-- A snapshot of the ring shows, for each of the last 60 minutes from the oldest on, how many of the
-- recorded requests ended in that minute well and with a status of 400 or more. This holds after
-- any history under a clock that does not go back and stands at least 59 minutes after 1970: no
-- request is lost, and a slot that is used again shows none of an earlier hour.
pub snapshot_lem :
    (l : List Ended) (now : ℕ)
    → IsOrdered l
    → All (λ e. e.at ≤ now) l
    → 59 * slot_dur ≤ now
    → snapshot now (record_all l) ≡ tallies 60 (truncate now) l
unfolding snapshot
snapshot_lem l now o a h =
    points_lem 60 (now / slot_dur) l o
      (All-map (λ e. e.at ≤ now) (λ e. e.at / slot_dur ≤ now / slot_dur) (λ e le. omega arith) l a)
      (omega arith) (omega arith)
