-- ===== src/Ipc/Set/Select.antt =====
-- ipc_channel/mod.rs: `IpcReceiverSet::select`.
use rr_channel.Prelude.{
  ℕ, none, some, List, [], ◌∷◌, ◌++◌, map, Option, Result, ok, err, pure, panic, ◌>>=◌, ◌>>◌,
  if◌then◌else◌,
}
use rr_channel.DetThread.Tls.{fake_channel_id}
use rr_channel.Event.{TivoEvent, ChannelVariant, IpcSelectEvent, ipc_select}
use rr_channel.Error.{DesyncError, desynchronized, event_mismatch}
use rr_channel.RecordLog.{RecordMetadata, LogQueue}
use rr_channel.World.{
  Call, RrMode, DesyncMode, record_mode, replay_mode, no_rr, panic_mode, keep_going,
}
use rr_channel.Recorder.{write_event_to_record}
use rr_channel.Desync.{BufferedValues, program_desynced, mark_program_as_desynced}
use rr_channel.Rr.{entry_or_sleep}
use rr_channel.Channel.{lift}
use rr_channel.Ipc.Set.{
  IpcSelectionResult, message_received, channel_closed, RealSet, IpcReceiverSet,
  move_receivers_to_set,
}
use rr_channel.Ipc.Set.Entry.{Buffer, deserialize_id, replay_select_event}

-- The entries of the queues of one receiver, in the order of the map.
unfoldable pub drain_queues : {M : Type 0} → ℕ → BufferedValues M → List (IpcSelectionResult M)
drain_queues index [] = []
drain_queues index ((_, queue) ∷ m) =
    map (λ entry. message_received index entry) queue ++ drain_queues index m

unfoldable pub drain_all : {M : Type 0} → Buffer M → List (IpcSelectionResult M)
drain_all [] = []
drain_all ((index, m) ∷ buffer) = drain_queues index m ++ drain_all buffer

unless_empty : {M : Type 0} → List (IpcSelectionResult M) → Option (List (IpcSelectionResult M))
unless_empty [] = none
unless_empty (e ∷ entries) = some (e ∷ entries)

unfoldable pub get_buffered_entries :
    {R K D M : Type 0}
    → IpcReceiverSet R K D M
    → Option (List (IpcSelectionResult M)) × IpcReceiverSet R K D M
unfolding unless_empty
get_buffered_entries rs = (unless_empty (drain_all rs.buffer), record rs { buffer = [] })

-- The answers of a select: its results or ipc_channel's error `F`.
abbrev pub Selected : Type 0 → Type 0 → Type 0
Selected M F = Result (List (IpcSelectionResult M)) F

-- A desynchronised select, with the entries that it had found.
abbrev pub Halfway : Type 0 → Type 0
Halfway M = DesyncError × List (IpcSelectionResult M)

-- The event that was seen, after the entries before it.
abbrev pub also :
    {M : Type 0}
    → Option (IpcSelectionResult M)
    → List (IpcSelectionResult M)
    → List (IpcSelectionResult M)
also none events = events
also (some e) events = events ++ e ∷ []

module _ {Q R K D M X F : Type 0} (real : RealSet R K D M X F) where
  -- The answer of ipc_channel's set is taken over result by result.
  unfoldable pub do_select : IpcReceiverSet R K D M → Call Q (Selected M F × IpcReceiverSet R K D M)
  do_select rs = do
    (selected, r) ← lift (real.select rs.receiver_set)
    pure (selected, record rs { receiver_set = r })

  -- The loop that makes an event of each result.
  unfoldable pub events_of : List (IpcSelectionResult M) → Call Q (List IpcSelectEvent)
  events_of [] = pure []
  events_of (message_received index opaque_msg ∷ selected) = do
    det_id ← deserialize_id real opaque_msg
    events ← events_of selected
    pure (IpcSelectEvent.message_received index det_id ∷ events)
  events_of (channel_closed index ∷ selected) = do
    events ← events_of selected
    pure (IpcSelectEvent.channel_closed index ∷ events)

  -- The loop over the recorded events; `fuel` is that of one event.
  unfoldable pub replay_events :
      ℕ
      → List IpcSelectEvent
      → List (IpcSelectionResult M)
      → IpcReceiverSet R K D M
      → Call Q (Result (Selected M F) (Halfway M) × IpcReceiverSet R K D M)
  replay_events fuel [] events rs = pure (ok (ok events), rs)
  replay_events fuel (event ∷ select_events) events rs = do
    (found, rs') ← replay_select_event real fuel event rs
    elim found [
      | err (error, entry) ↦ pure (err (error, also entry events), rs')
      | ok entry ↦ replay_events fuel select_events (events ++ entry ∷ []) rs'
    ]

module _ {Q R K D M X F : Type 0} ⦃q : LogQueue Q⦄ (real : RealSet R K D M X F) (fuel : ℕ) where
  select_metadata : Call Q RecordMetadata
  select_metadata = do
    id ← fake_channel_id
    pure (record { type_name = "IpcSelect"; channel_variant = ChannelVariant.ipc_select; id = id })

  record_selected : List (IpcSelectionResult M) → Call Q (Unit {0})
  unfolding select_metadata
  record_selected selected = do
    recorded_events ← events_of real selected
    metadata ← select_metadata
    written ← write_event_to_record (ipc_select recorded_events) metadata
    elim written [ err _ ↦ panic | ok _ ↦ pure tt ]

  record_select :
      IpcReceiverSet R K D M → Call Q (Result (Selected M F) (Halfway M) × IpcReceiverSet R K D M)
  unfolding record_selected
  record_select rs = do
    (selected, rs') ← do_select real rs
    elim selected [
      | err e ↦ pure (ok (err e), rs')
      | ok moved_events ↦ do record_selected moved_events; pure (ok (ok moved_events), rs')
    ]

  replay_event :
      TivoEvent
      → IpcReceiverSet R K D M
      → Call Q (Result (Selected M F) (Halfway M) × IpcReceiverSet R K D M)
  replay_event (ipc_select select_events) rs = replay_events real fuel select_events [] rs
  replay_event event rs = pure (err (event_mismatch event (ipc_select []), []), rs)

  replay_select :
      IpcReceiverSet R K D M → Call Q (Result (Selected M F) (Halfway M) × IpcReceiverSet R K D M)
  unfolding replay_event
  replay_select rs = if rs.desynced then pure (err (desynchronized, []), rs) else do
    recorded_event ← entry_or_sleep
    elim recorded_event [ err e ↦ pure (err (e, []), rs) | ok entry ↦ replay_event entry.event rs ]

  select_in_mode :
      RrMode
      → IpcReceiverSet R K D M
      → Call Q (Result (Selected M F) (Halfway M) × IpcReceiverSet R K D M)
  unfolding record_select replay_select
  select_in_mode record_mode rs = record_select rs
  select_in_mode replay_mode rs = replay_select rs
  select_in_mode no_rr rs = do (selected, rs') ← do_select real rs; pure (ok selected, rs')

  unfoldable pub rr_select :
      IpcReceiverSet R K D M → Call Q (Result (Selected M F) (Halfway M) × IpcReceiverSet R K D M)
  unfolding select_in_mode
  rr_select rs = do
    is_desynced ← program_desynced
    if is_desynced then pure (err (desynchronized, []), rs) else select_in_mode rs.mode rs

  -- The entries found before the desynchronisation are not used.
  unfoldable pub select_desynced :
      DesyncMode → IpcReceiverSet R K D M → Call Q (Selected M F × IpcReceiverSet R K D M)
  select_desynced panic_mode rs = panic
  select_desynced keep_going rs = do
    mark_program_as_desynced
    moved ← move_receivers_to_set real rs
    let (entries, rs') = get_buffered_entries moved
    elim entries [ none ↦ do_select real rs' | some be ↦ pure (ok be, rs') ]

  unfoldable pub select : IpcReceiverSet R K D M → Call Q (Selected M F × IpcReceiverSet R K D M)
  unfolding select_desynced
  select rs = do
    (found, rs') ← rr_select rs
    elim found [
      | ok selected ↦ pure (selected, rs')
      | err _ ↦ λ w. select_desynced w.desync_mode rs' w
    ]
