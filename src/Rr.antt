-- ===== src/Rr.antt =====
-- rr.rs: the logic of record and replay that all channels share.
pub mod Pending
pub mod Searches
use rr_channel.Prelude.{
  ℕ, zero, suc, String, none, some, Result, ok, err, pure, panic, ◌>>=◌, ◌>>◌, ◌==◌, out_of_fuel,
  if◌then◌else◌,
}
use rr_channel.Prelude.Map.Queues.{pop_front, push_back}
use rr_channel.DetThread.Id.{DetThreadId, id_eq}
use rr_channel.DetThread.Tls.{get_det_id}
use rr_channel.Event.{TivoEvent}
use rr_channel.Error.{
  DesyncError, RecvErrorRr, from_recv_rr, no_entry_in_log, desynchronized, desynchronized_wakeup,
  timeout,
}
use rr_channel.RecordLog.{RecordEntry, RecordMetadata, LogQueue}
use rr_channel.World.{Call, RrMode, record_mode, replay_mode, no_rr}
use rr_channel.Checker.{Checker, check_event_mismatch}
use rr_channel.Recorder.{get_log_entry, write_event_to_record}
use rr_channel.Desync.{DetMessage, Endpoint, message, program_desynced, sleep_until_desync}

module _ {Q C T : Type 0}
    (receiver_with_timeout : C → Call Q (Result (DetMessage T) RecvErrorRr × C)) where
  -- The loop of `recv_expected_message`; a round that keeps a message for later takes one unit of
  -- fuel.
  unfoldable pub recv_loop :
      ℕ → DetThreadId → Endpoint C T → Call Q (Result T DesyncError × Endpoint C T)
  recv_loop zero expected_sender r = λ _. out_of_fuel
  recv_loop (suc fuel) expected_sender r = do
    (received, channel) ← receiver_with_timeout r.channel
    elim received [
      | err e ↦ pure (err (from_recv_rr e), record r { channel = channel })
      | ok (msg_sender, msg) ↦
          let later =
            recv_loop fuel expected_sender
              (record { buffer = push_back r.buffer msg_sender msg; channel = channel }) in
          if msg_sender == expected_sender
          then pure (ok msg, record r { channel = channel })
          else later
    ]

  -- A message that is in the buffer already is taken from there, with no look at the channel.
  unfoldable pub recv_expected_message :
      ℕ → DetThreadId → Endpoint C T → Call Q (Result T DesyncError × Endpoint C T)
  recv_expected_message fuel expected_sender r = elim (pop_front r.buffer expected_sender) [
    | some (val, buffer) ↦ pure (ok val, record r { buffer = buffer })
    | none ↦ recv_loop fuel expected_sender r
  ]

-- The trait `RecvRecordReplay<T, E>` as implemented by a receiver with the state `R`.
pub record RecvRecordReplay (Q R T E : Type 0) : Type 0 where
  pub check_recorded_event : Checker Q
  pub recorded_event_succ : DetThreadId → TivoEvent
  pub recorded_event_err : E → TivoEvent
  pub replay_recorded_event : TivoEvent → R → Call Q (Result (Result T E) DesyncError × R)

-- The trait `SendRecordReplay<T, E>` as implemented by a sender with the state `C`.
pub record SendRecordReplay (Q C T E : Type 0) : Type 0 where
  pub check_recorded_event : Checker Q
  pub event_variant : TivoEvent
  pub underlying_send : DetThreadId → T → C → Call Q (Result (Unit {0}) E × C)

-- A timeout learns the type of the message that did not come.
abbrev pub name_timeout : {A : Type 0} → String → Result A DesyncError → Result A DesyncError
name_timeout type_name (err (timeout none)) = err (timeout (some type_name))
name_timeout type_name r = r

-- `get_log_entry` for a thread that may block: a thread at the end of its log sleeps, and wakes
-- up only to a desynchronisation.
unfoldable pub entry_or_sleep : {Q : Type 0} → Call Q (Result RecordEntry DesyncError)
entry_or_sleep = do
  record_entry ← get_log_entry
  elim record_entry [
    | ok e ↦ pure (ok e)
    | err no_entry_in_log ↦ do sleep_until_desync; pure (err desynchronized_wakeup)
    | err e ↦ pure (err e)
  ]

module _ {Q R T E : Type 0} ⦃q : LogQueue Q⦄ (impl : RecvRecordReplay Q R T E) where
  recorded_event : Result (DetMessage T) E → TivoEvent
  recorded_event (ok (sender_thread, msg)) = impl.recorded_event_succ sender_thread
  recorded_event (err e) = impl.recorded_event_err e

  record_recv :
      RecordMetadata
      → (R → Call Q (Result (DetMessage T) E × R))
      → R
      → Call Q (Result (Result T E) DesyncError × R)
  record_recv metadata recv_message r = do
    (received, r') ← recv_message r
    written ← write_event_to_record (recorded_event received) metadata
    elim written [ err e ↦ pure (err e, r') | ok _ ↦ pure (ok (message received), r') ]

  replay_entry : RecordMetadata → R → RecordEntry → Call Q (Result (Result T E) DesyncError × R)
  replay_entry metadata r entry = do
    checked ← check_event_mismatch impl.check_recorded_event entry metadata
    elim checked [
      | err e ↦ pure (err e, r)
      | ok _ ↦ do
        (received, r') ← impl.replay_recorded_event entry.event r
        pure (name_timeout entry.type_name received, r')
    ]

  replay_recv : RecordMetadata → R → Call Q (Result (Result T E) DesyncError × R)
  replay_recv metadata r = do
    found ← entry_or_sleep
    elim found [ err e ↦ pure (err e, r) | ok entry ↦ replay_entry metadata r entry ]

  unfoldable pub record_replay_recv :
      RrMode
      → RecordMetadata
      → (R → Call Q (Result (DetMessage T) E × R))
      → R
      → Call Q (Result (Result T E) DesyncError × R)
  unfolding recorded_event record_recv replay_entry replay_recv
  record_replay_recv mode metadata recv_message r = elim mode [
    | record_mode ↦ record_recv metadata recv_message r
    | replay_mode ↦ replay_recv metadata r
    | no_rr ↦ do (received, r') ← recv_message r; pure (ok (message received), r')
  ]

module _ {Q C T E : Type 0} ⦃q : LogQueue Q⦄ (impl : SendRecordReplay Q C T E) where
  record_send :
      T
      → RecordMetadata
      → DetThreadId
      → C
      → Call Q (Result (Result (Unit {0}) E) (DesyncError × T) × C)
  record_send msg metadata det_id c = do
    (result, c') ← impl.underlying_send det_id msg c
    written ← write_event_to_record impl.event_variant metadata
    elim written [ err _ ↦ panic | ok _ ↦ pure (ok result, c') ]

  send_checked :
      T
      → RecordMetadata
      → DetThreadId
      → C
      → RecordEntry
      → Call Q (Result (Result (Unit {0}) E) (DesyncError × T) × C)
  send_checked msg metadata det_id c entry = do
    checked ← check_event_mismatch impl.check_recorded_event entry metadata
    elim checked [
      | err e ↦ pure (err (e, msg), c)
      | ok _ ↦ do (result, c') ← impl.underlying_send det_id msg c; pure (ok result, c')
    ]

  replay_send :
      T
      → RecordMetadata
      → DetThreadId
      → C
      → Call Q (Result (Result (Unit {0}) E) (DesyncError × T) × C)
  replay_send msg metadata det_id c = do
    found ← entry_or_sleep
    elim found [
      | err e ↦ pure (err (e, msg), c)
      | ok entry ↦ send_checked msg metadata det_id c entry
    ]

  send_in_mode :
      T
      → RrMode
      → RecordMetadata
      → DetThreadId
      → C
      → Call Q (Result (Result (Unit {0}) E) (DesyncError × T) × C)
  send_in_mode msg mode metadata det_id c = elim mode [
    | record_mode ↦ record_send msg metadata det_id c
    | replay_mode ↦ replay_send msg metadata det_id c
    | no_rr ↦ do (result, c') ← impl.underlying_send det_id msg c; pure (ok result, c')
  ]

  -- The error carries the message back to the caller.
  unfoldable pub record_replay_send :
      T → RrMode → RecordMetadata → C → Call Q (Result (Result (Unit {0}) E) (DesyncError × T) × C)
  unfolding record_send send_checked replay_send send_in_mode
  record_replay_send msg mode metadata c = do
    desynced ← program_desynced
    if desynced
        then pure (err (desynchronized, msg), c)
        else do det_id ← get_det_id; send_in_mode msg mode metadata det_id c
