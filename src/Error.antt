-- ===== src/Error.antt =====
-- error.rs: why a replay has left the recorded execution.
use rr_channel.Prelude.{ℕ, String, Option, none}
use rr_channel.Event.{ChannelVariant, DetChannelId, TivoEvent, RecvTimeoutError}

-- What the errors of different channels come down to.
pub data RecvErrorRr : Type 0 where
  timeout disconnected : RecvErrorRr

pub data DesyncError : Type 0 where
  no_entry_in_log : DesyncError
  channel_variant_mismatch : (logged actual : ChannelVariant) → DesyncError
  channel_mismatch : (logged actual : DetChannelId) → DesyncError
  event_mismatch : (logged actual : TivoEvent) → DesyncError
  missing_receiver : ℕ → DesyncError
  select_existing_entry : ℕ → DesyncError
  desynchronized : DesyncError
  channel_closed_expected : DesyncError
  disconnected : DesyncError
  channel_closed_unexpected : ℕ → DesyncError
  timeout : Option String → DesyncError
  desynchronized_wakeup : DesyncError
  cannot_write_event_to_log : DesyncError

-- `impl From<RecvTimeoutError> for RecvErrorRR`
abbrev pub from_recv_timeout : RecvTimeoutError → RecvErrorRr
from_recv_timeout RecvTimeoutError.timeout = RecvErrorRr.timeout
from_recv_timeout RecvTimeoutError.disconnected = RecvErrorRr.disconnected

-- `impl From<RecvErrorRR> for DesyncError`
abbrev pub from_recv_rr : RecvErrorRr → DesyncError
from_recv_rr RecvErrorRr.disconnected = DesyncError.disconnected
from_recv_rr RecvErrorRr.timeout = DesyncError.timeout none
