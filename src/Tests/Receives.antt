-- ===== src/Tests/Receives.antt =====
-- Single receives and sends.
use rr_channel.Prelude.{
  ℕ, ◌≡◌, refl, inl, true, none, some, List, [], ◌∷◌, ◌++◌, Result, ok, returns, hangs, arith,
}
use rr_channel.Prelude.Map.{keys, IsDistinct}
use rr_channel.DetThread.Id.{id_eq}
use rr_channel.Event.{RecvError, crossbeam_try_recv_succ}
use rr_channel.Error.{no_entry_in_log}
use rr_channel.RecordLog.{RecordEntry}
use rr_channel.World.{World, record_mode, replay_mode}
use rr_channel.Recorder.{entry_of}
use rr_channel.Recorder.Laws.{rest, LogLeft, reading}
use rr_channel.Desync.{DetMessage, Endpoint, handle_desync, sleep_until_desync}
use rr_channel.Desync.Laws.{desynced, Salvages, handle_desync-keep_going, sleep_until_desync_wakes}
use rr_channel.Rr.{recv_expected_message}
use rr_channel.Rr.Pending.{Receives, recv_expected_message-Receives}
use rr_channel.Channel.{RealSender, Seen, impl_recvrr, recv_with, send_with}
use rr_channel.Channel.Desyncs.{
  recv_with-replay_foreign, recv_with-replay_end, recv_with-replay_sleeps,
}
use rr_channel.Channel.Losses.{recv_with-record_closed}
use rr_channel.Channel.Sends.{send_with-replay, send_with-desynced}
use rr_channel.Crossbeam.{ChannelKind, unbounded, send_impl}
use rr_channel.Crossbeam.Receive.{kind_recv, replay_recv, poll, recv_variants}
use rr_channel.Crossbeam.Fifo.{poll_fifo}
use rr_channel.Tests.Setup.{
  main_id, alice, bob, log_list, Wire, wire, timer, wire_fifo, metadata, recording, replaying,
}

abbrev pub Port : Type 0
Port = Endpoint (ChannelKind (Unit {0}) Wire) ℕ

-- Bob's message has arrived out of turn before; Alice's is behind another of his.
abbrev pub port : Port
port = record { buffer = (bob, 8 ∷ []) ∷ []; channel = unbounded ((bob, 9) ∷ (alice, 7) ∷ []) }

recv_expected_message-Receives_example :
    Receives
      (poll_fifo {Q = List RecordEntry} timer wire wire_fifo)
      port
      alice
      recording
      (recv_expected_message (poll timer wire) 3 alice port recording)
unfolding wire_fifo
recv_expected_message-Receives_example =
    recv_expected_message-Receives (poll_fifo timer wire wire_fifo) 3 alice port recording tt
      (ground arith)

abbrev at_end : World (List RecordEntry)
at_end = record (replaying (record { replayer = [] })) {
  thread = record recording.thread { event_receiver = some [] };
}

abbrev before : RecordEntry → World (List RecordEntry)
before x = record at_end { thread = record at_end.thread { event_receiver = some (x ∷ []) } }

port-IsDistinct : IsDistinct (keys port.buffer)
port-IsDistinct = (refl, tt)

abbrev heard : Result (DetMessage ℕ) RecvError
heard = ok (bob, 9)

abbrev channel_after : ChannelKind (Unit {0}) Wire
channel_after = unbounded ((alice, 7) ∷ [])

answers_next :
    (u : World (List RecordEntry))
    → kind_recv timer wire port.channel u ≡ returns ((heard, channel_after), u)
unfolding kind_recv wire
answers_next u = refl

handle_desync-keep_going_example :
    (x : Result ℕ RecvError) × (r' : Port) × (handle_desync no_entry_in_log
        (kind_recv timer wire)
        port
        recording
      ≡ returns ((x, r'), desynced recording))
    × Salvages port heard channel_after x r'
handle_desync-keep_going_example =
    handle_desync-keep_going no_entry_in_log (kind_recv timer wire) port recording heard
      channel_after refl refl port-IsDistinct (answers_next (desynced recording))

sleep_until_desync_wakes_example :
    sleep_until_desync (record at_end { others_desync = true })
    ≡ returns (tt, desynced (record at_end { others_desync = true }))
sleep_until_desync_wakes_example =
    sleep_until_desync_wakes (record at_end { others_desync = true }) refl refl

-- The entry of a `try_recv`, before a `recv`.
abbrev other_call : RecordEntry
other_call = entry_of (crossbeam_try_recv_succ alice) metadata

other_event : recv_variants.see other_call.event ≡ Seen.other
unfolding recv_variants entry_of
other_event = refl

recv_with-replay_foreign_example :
    (a : Result ℕ RecvError) × (r' : Port) × (w' : World (List RecordEntry)) × (recv_with
        (impl_recvrr recv_variants (replay_recv timer wire 9))
        replay_mode
        metadata
        (kind_recv timer wire)
        port
        (before other_call)
      ≡ returns ((a, r'), w'))
    × Salvages port heard channel_after a r'
    × LogLeft w' []
    × (rest w' ≡ rest (desynced (before other_call)))
recv_with-replay_foreign_example =
    recv_with-replay_foreign recv_variants (replay_recv timer wire 9) metadata
      (kind_recv timer wire) port heard channel_after (before other_call) other_call [] refl refl
      refl port-IsDistinct answers_next (reading refl) (inl other_event)

recv_with-replay_end_example :
    (a : Result ℕ RecvError) × (r' : Port) × (w' : World (List RecordEntry)) × (recv_with
        (impl_recvrr recv_variants (replay_recv timer wire 9))
        replay_mode
        metadata
        (kind_recv timer wire)
        port
        (record at_end { others_desync = true })
      ≡ returns ((a, r'), w'))
    × Salvages port heard channel_after a r'
    × LogLeft w' []
    × (rest w' ≡ rest (desynced (record at_end { others_desync = true })))
recv_with-replay_end_example =
    recv_with-replay_end recv_variants (replay_recv timer wire 9) metadata (kind_recv timer wire)
      port heard channel_after (record at_end { others_desync = true }) refl refl port-IsDistinct
      answers_next (reading refl) refl

recv_with-replay_sleeps_example :
    recv_with
      (impl_recvrr recv_variants (replay_recv timer wire 9))
      replay_mode
      metadata
      (kind_recv timer wire)
      port
      at_end
    ≡ hangs
recv_with-replay_sleeps_example =
    recv_with-replay_sleeps recv_variants (replay_recv timer wire 9) metadata (kind_recv timer wire)
      port heard channel_after at_end refl (reading refl) refl

-- A sender to a channel that nobody has disconnected.
open_sender : RealSender Wire (DetMessage ℕ)
open_sender = record { send = λ m c. returns (ok tt, c ++ m ∷ []) }

sends :
    (u : World (List RecordEntry))
    → (send_impl open_sender).underlying_send main_id 5 [] u
      ≡ returns ((ok tt, (main_id, 5) ∷ []), u)
unfolding send_impl open_sender
sends u = refl

accepts :
    (u : World (List RecordEntry))
    → (send_impl open_sender).check_recorded_event
        (send_impl {Q = List RecordEntry} open_sender).event_variant
        u
      ≡ returns (ok tt, u)
unfolding send_impl
accepts u = refl

send_with-replay_example :
    (w' : World (List RecordEntry)) × (send_with
        (send_impl open_sender)
        replay_mode
        metadata
        5
        []
        (before (entry_of (send_impl {Q = List RecordEntry} open_sender).event_variant metadata))
      ≡ returns ((ok tt, (main_id, 5) ∷ []), w'))
    × LogLeft w' []
    × (rest w'
        ≡ rest (
            before
              (entry_of (send_impl {Q = List RecordEntry} open_sender).event_variant metadata)))
send_with-replay_example =
    send_with-replay (send_impl open_sender) metadata 5 [] ((main_id, 5) ∷ []) (ok tt) main_id
      (before (entry_of (send_impl {Q = List RecordEntry} open_sender).event_variant metadata)) []
      refl refl accepts (reading refl) sends

send_with-desynced_example :
    send_with (send_impl open_sender) replay_mode metadata 5 [] (desynced at_end)
    ≡ returns ((ok tt, (main_id, 5) ∷ []), desynced at_end)
send_with-desynced_example =
    send_with-desynced (send_impl open_sender) metadata 5 [] ((main_id, 5) ∷ []) (ok tt) main_id
      replay_mode (desynced at_end) refl refl refl sends

abbrev done : World (List RecordEntry)
done = record recording {
  recorder = none;
  thread = record recording.thread { event_sender = some main_id };
}

wire_answers :
    (m : DetMessage ℕ) (ms : Wire) (u : World (List RecordEntry))
    → kind_recv timer wire (unbounded (m ∷ ms)) u ≡ returns ((ok m, unbounded ms), u)
unfolding kind_recv wire
wire_answers m ms u = refl

recv_with-record_closed_example :
    (w' : World (List RecordEntry)) × (recv_with
        (impl_recvrr recv_variants (replay_recv timer wire 9))
        record_mode
        metadata
        (kind_recv timer wire)
        (record { buffer = []; channel = unbounded ((alice, 7) ∷ (bob, 8) ∷ []) })
        done
      ≡ returns ((ok 8, record { buffer = []; channel = unbounded [] }), w'))
    × (rest w' ≡ rest (desynced done))
recv_with-record_closed_example =
    recv_with-record_closed recv_variants (replay_recv timer wire 9) metadata (kind_recv timer wire)
      (unbounded ((alice, 7) ∷ (bob, 8) ∷ [])) (unbounded ((bob, 8) ∷ [])) (unbounded [])
      (ok (bob, 8)) main_id done (ok (alice, 7)) refl refl refl refl
      (wire_answers (alice, 7) ((bob, 8) ∷ [])) (wire_answers (bob, 8) [])
