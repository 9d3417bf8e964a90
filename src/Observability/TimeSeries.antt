-- ===== src/Observability/TimeSeries.antt =====
-- internal/observability/timeseries.go: a ring of 60 slots of a minute. A time is a number of
-- nanoseconds since 1970, which begins a minute of the Go clock as well.
pub mod Laws
use x_beacon.Prelude.{
  ℕ, zero, suc, ◌+◌, ◌-◌, ◌*◌, ◌/◌, ◌%◌, Bool, false, Option, none, some, List, [], ◌∷◌, ◌==◌,
  if◌then◌else◌,
}
use x_beacon.Prelude.Int.{ℤ, pos, lez}

abbrev pub slot_dur : ℕ
slot_dur = 60_000_000_000

-- a slot of the ring; `none` is the zero time of an unused one
pub record TsSlot : Type 0 where
  pub start : Option ℕ
  pub success : ℕ
  pub error : ℕ

pub record TimePoint : Type 0 where
  pub at : ℕ
  pub success : ℕ
  pub error : ℕ

-- the array of slots, by the index
abbrev pub Slots : Type 0
Slots = ℕ → TsSlot

abbrev pub empty_slot : TsSlot
empty_slot = record { start = none; success = 0; error = 0 }

abbrev pub no_slots : Slots
no_slots = λ i. empty_slot

abbrev pub set_slot : ℕ → TsSlot → Slots → Slots
set_slot i s slots = λ j. if j == i then s else slots j

-- now.Truncate(slotDur)
abbrev pub truncate : ℕ → ℕ
truncate t = t / slot_dur * slot_dur

unfoldable pub slot_index : ℕ → ℕ
slot_index bucket = bucket / 1_000_000_000 / 60 % 60

abbrev pub starts_at : Option ℕ → ℕ → Bool
starts_at none b = false
starts_at (some a) b = a == b

-- the slot of a bucket, made anew when it is stale
unfoldable pub fresh_slot : ℕ → TsSlot → TsSlot
fresh_slot bucket s =
    if starts_at s.start bucket then s else record { start = some bucket; success = 0; error = 0 }

unfoldable pub count_status : ℤ → TsSlot → TsSlot
count_status status s =
    if lez (pos 400) status
    then record s { error = suc s.error }
    else record s { success = suc s.success }

-- Record at a time
unfoldable pub record_status : ℕ → ℤ → Slots → Slots
unfolding slot_index fresh_slot count_status
record_status now status slots =
    let bucket = truncate now in
    let idx = slot_index bucket in
    set_slot idx (count_status status (fresh_slot bucket (slots idx))) slots

-- the point of a bucket in a snapshot
unfoldable pub point_of : ℕ → TsSlot → TimePoint
point_of bucket s =
    if starts_at s.start bucket
    then record { at = bucket; success = s.success; error = s.error }
    else record { at = bucket; success = 0; error = 0 }

-- the points of the last `n` minutes, from the oldest on
unfoldable pub points : ℕ → ℕ → Slots → List TimePoint
unfolding slot_index point_of
points zero now slots = []
points (suc n) now slots =
    let bucket = now - n * slot_dur in
    point_of bucket (slots (slot_index bucket)) ∷ points n now slots

-- Snapshot at a time
unfoldable pub snapshot : ℕ → Slots → List TimePoint
unfolding points
snapshot now slots = points 60 (truncate now) slots
