-- ===== src/Tests/Observability.antt =====
-- A history of three requests over two minutes.
use x_beacon.Prelude.{◌≡◌, List, [], ◌∷◌, arith}
use x_beacon.Prelude.Int.{pos}
use x_beacon.Observability.TimeSeries.{truncate, snapshot}
use x_beacon.Observability.TimeSeries.Laws.{Ended, record_all, tallies, snapshot_lem}

abbrev history : List Ended
history =
    record { at = 3_661_000_000_000; status = pos 502 }
    ∷ record { at = 3_660_000_000_000; status = pos 200 }
    ∷ record { at = 60_000_000_000; status = pos 200 }
    ∷ []

snapshot_example :
    snapshot 3_662_000_000_000 (record_all history)
    ≡ tallies 60 (truncate 3_662_000_000_000) history
snapshot_example = snapshot_lem history 3_662_000_000_000 (omega arith) (omega arith) (omega arith)
