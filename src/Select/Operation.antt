-- ===== src/Select/Operation.antt =====
-- crossbeam_select.rs: `SelectedOperation`, the end of a selection.
use rr_channel.Prelude.{
  ℕ, Option, none, some, Result, ok, err, pure, panic, ◌>>=◌, ◌==◌, if◌then◌else◌,
}
use rr_channel.Event.{
  RecvError, recv_error, variant_eq, channel_id_eq, SelectEvent, success, crossbeam_select,
}
use rr_channel.Error.{DesyncError, channel_variant_mismatch, channel_mismatch}
use rr_channel.RecordLog.{LogQueue}
use rr_channel.World.{Call}
use rr_channel.Recorder.{write_event_to_record}
use rr_channel.Desync.{DetMessage, Endpoint, message}
use rr_channel.Channel.{RealReceiver}
use rr_channel.Crossbeam.{ChannelKind, Receiver}
use rr_channel.Crossbeam.Receive.{replay_recv, get_buffered_value, on_kind}
use rr_channel.Select.{
  RealSelect, SelectedOperation, replayed, desync_buffer_entry, recorded, passed, desync, Receivers,
  assign,
}

-- `SelectedOperation::send`
unfoldable pub send_selected :
    {Q O R T : Type 0} → SelectedOperation O → R → T → Call Q (Result (Unit {0}) T)
send_selected _ _ _ = panic

module _ {S O A C T : Type 0} (real_select : RealSelect S O A C T) where
  -- `SelectedOperation::index`
  unfoldable pub selected_index : SelectedOperation O → ℕ
  selected_index (desync_buffer_entry index) = index
  selected_index (replayed (success _ index) _ _) = index
  selected_index (replayed (SelectEvent.recv_error index) _ _) = index
  selected_index (recorded selected) = real_select.index selected
  selected_index (passed selected) = real_select.index selected
  selected_index (desync selected) = real_select.index selected

module _ {Q S O A C T : Type 0} (real_select : RealSelect S O A C T) where
  unfoldable pub do_recv :
      O → Receiver A C T → Call Q (Result (DetMessage T) RecvError × Receiver A C T)
  do_recv selected r = do
    (received, channel) ←
        on_kind (real_select.recv_timer selected) (real_select.recv_message selected) r.channel
    pure (received, record r { endpoint = record r.endpoint { channel = channel } })

-- `SelectEvent` of what a selected operation received.
unfoldable pub select_event : {T : Type 0} → ℕ → Result (DetMessage T) RecvError → SelectEvent
select_event index (ok (sender_thread, msg)) = success sender_thread index
select_event index (err _) = SelectEvent.recv_error index

module _ {Q S O A C T : Type 0} ⦃q : LogQueue Q⦄ (timer : RealReceiver A T)
    (real : RealReceiver C (DetMessage T)) (real_select : RealSelect S O A C T) (fuel : ℕ) where
  expect_buffered :
      Option T × Endpoint (ChannelKind A C) T
      → Receiver A C T
      → Call Q (Result (Result T RecvError) DesyncError × Receiver A C T)
  expect_buffered (none, endpoint) r = panic
  expect_buffered (some v, endpoint) r = pure (ok (ok v), record r { endpoint = endpoint })

  record_selected :
      O → Receiver A C T → Call Q (Result (Result T RecvError) DesyncError × Receiver A C T)
  record_selected selected r = do
    (received, r') ← do_recv real_select selected r
    written ←
        write_event_to_record
          (crossbeam_select (select_event (real_select.index selected) received)) r.metadata
    elim written [ err e ↦ pure (err e, r') | ok _ ↦ pure (ok (message received), r') ]

  replay_selected :
      SelectEvent
      → Receiver A C T
      → Call Q (Result (Result T RecvError) DesyncError × Receiver A C T)
  replay_selected (success sender_thread _) r = do
    (found, endpoint) ← replay_recv timer real fuel sender_thread r.endpoint
    elim found [
      | err e ↦ pure (err e, record r { endpoint = endpoint })
      | ok msg ↦ pure (ok (ok msg), record r { endpoint = endpoint })
    ]
  replay_selected (SelectEvent.recv_error _) r = pure (ok (err recv_error), r)

  unfoldable pub rr_select_recv :
      SelectedOperation O
      → Receiver A C T
      → Call Q (Result (Result T RecvError) DesyncError × Receiver A C T)
  unfolding select_event expect_buffered record_selected replay_selected
  rr_select_recv (desync_buffer_entry _) r = expect_buffered (get_buffered_value r.endpoint) r
  rr_select_recv (desync selected) r = do
    (received, r') ← do_recv real_select selected r
    pure (ok (message received), r')
  rr_select_recv (recorded selected) r = record_selected selected r
  rr_select_recv (replayed event flavor chan_id) r =
      if flavor == r.metadata.channel_variant
      then if chan_id == r.metadata.id
        then replay_selected event r
        else pure (err (channel_mismatch chan_id r.metadata.id), r)
      else pure (err (channel_variant_mismatch flavor r.metadata.channel_variant), r)
  rr_select_recv (passed selected) r = do
    (received, r') ← do_recv real_select selected r
    pure (ok (message received), r')

  -- `SelectedOperation::recv`, given a reference to the receiver.
  unfoldable pub recv_selected :
      SelectedOperation O → ℕ → Receivers A C T → Call Q (Result T RecvError × Receivers A C T)
  recv_selected inner r rs = do
    (received, r') ← rr_select_recv inner (rs r)
    elim received [ ok v ↦ pure (v, assign rs r r') | err _ ↦ panic ]
