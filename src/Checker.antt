-- ===== src/Checker.antt =====
-- rr.rs: the trait `RecordEventChecker`, as the function that a type implements it by.
use rr_channel.Prelude.{Result, ok, err, pure, ◌>>=◌}
use rr_channel.Event.{TivoEvent}
use rr_channel.Error.{DesyncError, event_mismatch}
use rr_channel.RecordLog.{RecordEntry, RecordMetadata, check_mismatch}
use rr_channel.World.{Call}

-- `check_recorded_event`: nothing, or the event that was expected.
abbrev pub Checker : Type 0 → Type 0
Checker Q = TivoEvent → Call Q (Result (Unit {0}) TivoEvent)

module _ {Q : Type 0} where
  unfoldable pub check_event_mismatch :
      Checker Q → RecordEntry → RecordMetadata → Call Q (Result (Unit {0}) DesyncError)
  check_event_mismatch check_recorded_event e m = do
    r ← check_recorded_event e.event
    elim r [
      | err expected ↦ pure (err (event_mismatch e.event expected))
      | ok _ ↦ pure (check_mismatch e m)
    ]
