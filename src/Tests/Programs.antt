-- ===== src/Tests/Programs.antt =====
-- Programs of receives, recorded and replayed.
use rr_channel.Prelude.{ℕ, ◌≡◌, refl, some, List, [], ◌∷◌, ok, err, returns, true, arith}
use rr_channel.Prelude.Map.{get, insert}
use rr_channel.Prelude.Map.Queues.{queue}
use rr_channel.DetThread.Id.{DetThreadId, id_eq, id_beq, id_beq_iff}
use rr_channel.Event.{RecvTimeoutError}
use rr_channel.RecordLog.{
  RecordEntry, Entries, GlobalReplayer, flush, get_all_entries, collect_entries, write_entries,
  add_receiver, open_log, init, GlobalRecorder,
}
use rr_channel.Recorder.Laws.{LogOpen, unconnected, LogLeft, untouched}
use rr_channel.Recorder.{write_event_to_record}
use rr_channel.DetThread.Tls.{get_det_id}
use rr_channel.Channel.{impl_recvrr, recv_with}
use rr_channel.Rr.{record_replay_recv}
use rr_channel.Crossbeam.Receive.{
  recv, try_recv, recv_timeout, kind_recv, kind_try_recv, kind_recv_timeout, recv_variants,
  try_recv_variants, recv_timeout_variants,
}
use rr_channel.World.{World, record_mode, replay_mode}
use rr_channel.Desync.{Endpoint}
use rr_channel.Rr.Pending.{from}
use rr_channel.Crossbeam.{ChannelKind, unbounded}
use rr_channel.Crossbeam.Program.{
  recv_op, try_recv_op, recv_timeout_op, Answer, recv_answer, try_answer, timeout_answer, got,
  timeout_failed, as_unbounded, call, run, entries_of, delivered, Delivers,
}
use rr_channel.Crossbeam.Record.{receiver, endpoint_at, run-record}
use rr_channel.Crossbeam.Replay.{IsSupplied, run-replay}
use rr_channel.Crossbeam.RoundTrip.{IsReplaying, record_then_replay}
use rr_channel.Tests.Setup.{
  main_id, alice, bob, log_list, Wire, wire, timer, wire_fifo, metadata, recording, replaying,
}
use rr_channel.Tests.LogFile.{ron_of, to_string_lem}

abbrev answers : List (Answer ℕ)
answers = try_answer (ok (bob, 8)) ∷ timeout_answer 5 (err RecvTimeoutError.timeout) ∷ []

abbrev first : Answer ℕ
first = recv_answer (ok (alice, 7))

abbrev recorded_wire : Wire
recorded_wire = (alice, 7) ∷ (bob, 8) ∷ []

recording_open : LogOpen main_id recording []
unfolding get init
recording_open = unconnected _ refl refl refl tt refl refl

first_delivered : Delivers wire recorded_wire (first ∷ answers)
unfolding wire
first_delivered = (_, refl, (_, refl, (_, refl, tt)))

run-record_example :
    (w' : World (List RecordEntry)) × (c' : Wire) × (run timer wire 9
        (recv_op ∷ try_recv_op ∷ recv_timeout_op 5 ∷ [])
        (receiver metadata record_mode (endpoint_at as_unbounded recorded_wire []))
        recording
      ≡ returns (
        (
          got 7 ∷ got 8 ∷ timeout_failed RecvTimeoutError.timeout ∷ [],
          receiver metadata record_mode (endpoint_at as_unbounded c' []),
        ),
        w',
      ))
    × LogOpen main_id w' (entries_of metadata (first ∷ answers))
run-record_example =
    run-record timer wire 9 metadata as_unbounded [] recorded_wire (first ∷ answers) main_id
      recording [] recording_open first_delivered

-- Alice's second message is not received, and the senders are interleaved otherwise.
abbrev replayed_wire : Wire
replayed_wire = (bob, 8) ∷ (alice, 7) ∷ (alice, 9) ∷ []

abbrev replayed : Endpoint (ChannelKind (Unit {0}) Wire) ℕ
replayed = record { buffer = []; channel = unbounded replayed_wire }

abbrev later : DetThreadId → List ℕ
later i = from i ((alice, 9) ∷ [])

replayed-IsSupplied : IsSupplied wire_fifo 9 replayed (delivered (first ∷ answers)) later
unfolding wire_fifo from queue
replayed-IsSupplied = record {
  carries_messages = tt;
  within_fuel = ground arith;
  per_sender = λ i. ground (arith, id_beq_iff alice i, id_beq_iff bob i);
}

abbrev log : Entries
log = (main_id, entries_of metadata (first ∷ answers)) ∷ []

abbrev loaded : GlobalReplayer
loaded = record { replayer = log }

replay_starts : IsReplaying main_id loaded (replaying loaded)
replay_starts = record { same_id = refl; log_untouched = refl; log_loaded = refl }

log_left : LogLeft (replaying loaded) (entries_of metadata (first ∷ answers))
unfolding get id_beq
log_left = untouched main_id refl refl refl

run-replay_example :
    (r' : Endpoint (ChannelKind (Unit {0}) Wire) ℕ) × (w' : World (List RecordEntry)) × (run timer
        wire 9
        (recv_op ∷ try_recv_op ∷ recv_timeout_op 5 ∷ [])
        (receiver metadata replay_mode replayed)
        (replaying loaded)
      ≡ returns (
        (
          got 7 ∷ got 8 ∷ timeout_failed RecvTimeoutError.timeout ∷ [],
          receiver metadata replay_mode r',
        ),
        w',
      ))
    × LogLeft w' []
    × IsSupplied wire_fifo 9 r' [] later
run-replay_example =
    run-replay timer wire 9 metadata wire_fifo (first ∷ answers) later replayed (replaying loaded)
      [] log_left replayed-IsSupplied

abbrev recorder : GlobalRecorder (List RecordEntry)
recorder = record (init "test.log") { recorder = log }

abbrev recorded : World (List RecordEntry)
recorded = record recording {
  recorder = some recorder;
  thread = record recording.thread { event_number = 3; event_sender = some main_id };
}

written : write_entries (ron_of log) (λ _ _. true) "test.log" log ≡ ok ("test.log", "the log")
unfolding write_entries
written = rw (to_string_lem log, write_entries) refl

flushed : flush (ron_of log) (λ _ _. true) recorder ≡ ok ("test.log", "the log")
unfolding flush init get_all_entries collect_entries get insert
flushed = written

reopened : open_log (ron_of log) (λ _. some "the log") "test.log" ≡ some loaded
unfolding open_log ron_of
reopened = refl

ran :
    run timer wire 9
      (recv_op ∷ try_recv_op ∷ recv_timeout_op 5 ∷ [])
      (receiver metadata record_mode (endpoint_at {A = Unit {0}} as_unbounded recorded_wire []))
      recording
    ≡ returns (
      (
        got 7 ∷ got 8 ∷ timeout_failed RecvTimeoutError.timeout ∷ [],
        receiver metadata record_mode (endpoint_at as_unbounded [] []),
      ),
      recorded,
    )
unfolding run call recv recv_with record_replay_recv kind_recv wire write_event_to_record get_det_id
    add_receiver get init insert id_beq try_recv kind_try_recv recv_timeout kind_recv_timeout
    impl_recvrr recv_timeout_variants try_recv_variants recv_variants
ran = refl

record_then_replay_example :
    (r' : Endpoint (ChannelKind (Unit {0}) Wire) ℕ) × (v' : World (List RecordEntry)) × (run timer
        wire 9
        (recv_op ∷ try_recv_op ∷ recv_timeout_op 5 ∷ [])
        (receiver metadata replay_mode replayed)
        (replaying loaded)
      ≡ returns (
        (
          got 7 ∷ got 8 ∷ timeout_failed RecvTimeoutError.timeout ∷ [],
          receiver metadata replay_mode r',
        ),
        v',
      ))
    × IsSupplied wire_fifo 9 r' [] later
record_then_replay_example =
    record_then_replay (ron_of log) (λ _ _. true) (λ _. some "the log") timer wire 9 metadata
      wire_fifo as_unbounded [] recorded_wire first answers later main_id recording recorded
      (replaying loaded) replayed _ _ recorder "test.log" "the log" loaded recording_open
      first_delivered ran refl flushed refl reopened replay_starts replayed-IsSupplied
