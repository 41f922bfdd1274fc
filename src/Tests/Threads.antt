-- ===== src/Tests/Threads.antt =====
-- Threads that are spawned, that poll, and that finish.
use rr_channel.Prelude.{
  ℕ, ◌≡◌, refl, true, some, List, [], ◌∷◌, ◌++◌, ok, err, returns, panics, arith, length, pure,
}
use rr_channel.Prelude.Map.{get, insert}
use rr_channel.Prelude.Map.Queues.{queue}
use rr_channel.DetThread.Id.{DetThreadId, id_eq, id_beq}
use rr_channel.DetThread.Id.Paths.{Represents}
use rr_channel.DetThread.Tls.Laws.{
  SpawnsAt, unspawned, children, AreChildren, children-AreChildren, channel_ids,
  channel_ids-counted,
}
use rr_channel.DetThread.Spawn.{spawn}
use rr_channel.DetThread.Spawn.Laws.{metadata, spawn-record, spawn-replay}
use rr_channel.Event.{
  RecvError, TryRecvError, RecvTimeoutError, crossbeam_sender, thread_initialized,
}
use rr_channel.RecordLog.{
  RecordEntry, Entries, GlobalRecorder, flush, write_entries, get_all_entries, collect_entries,
  init,
}
use rr_channel.World.{World, Call}
use rr_channel.Error.{cannot_write_event_to_log}
use rr_channel.Recorder.{entry_of, write_event_to_record}
use rr_channel.Recorder.Laws.{LogOpen, unconnected, LogLeft, reading}
use rr_channel.Session.{execution_done, no_recorder}
use rr_channel.Session.Laws.{execution_done_lem}
use rr_channel.Channel.{RealReceiver}
use rr_channel.Crossbeam.{unbounded}
use rr_channel.Crossbeam.Fifo.{poll_fifo}
use rr_channel.Crossbeam.Receive.{poll_entry}
use rr_channel.Crossbeam.Polling.{Polls, poll_entry-Polls, poll_entry_disconnected}
use rr_channel.Tests.Setup.{
  main_id, alice, bob, log_list, Wire, wire, timer, wire_fifo, recording, replaying,
}
use rr_channel.Tests.Setup
use rr_channel.Tests.LogFile.{ron_of, to_string_lem}
use rr_channel.Tests.Receives.{port}

main_id-Represents : Represents main_id []
main_id-Represents = record { fits = omega arith; sized = refl; padded = refl }

alice-Represents : Represents alice ([] ++ 1 ∷ [])
alice-Represents = record { fits = omega arith; sized = refl; padded = refl }

main_spawns : SpawnsAt recording [] 1
main_spawns = unspawned main_id refl refl refl main_id-Represents

children-AreChildren_example :
    (ids : List DetThreadId) × (w' : World (List RecordEntry)) × (children 3 recording
      ≡ returns (ids, w'))
    × (length ids ≡ 3)
    × AreChildren [] 1 ids
    × SpawnsAt w' [] 4
children-AreChildren_example =
    children-AreChildren 3 recording [] 1 (omega arith) (omega arith) main_spawns

channel_ids-counted_example :
    (w' : World (List RecordEntry)) × (channel_ids 2 recording
      ≡ returns (
        record { det_thread_id = main_id; channel_id = 1 }
            ∷ record { det_thread_id = main_id; channel_id = 2 }
            ∷ [],
        w',
      ))
    × (w'.det_id ≡ some main_id)
    × (w'.next_channel_id ≡ 3)
channel_ids-counted_example = channel_ids-counted 2 recording main_id 1 refl refl (omega arith)

recording_open : LogOpen main_id recording []
unfolding get init
recording_open = unconnected _ refl refl refl tt refl refl

start : DetThreadId → Call (List RecordEntry) DetThreadId
start id = pure id

spawn-record_example :
    (id : DetThreadId) × (w' : World (List RecordEntry)) × (spawn start recording ≡ start id w')
    × Represents id (1 ∷ [])
    × LogOpen main_id w' (entry_of (thread_initialized id) metadata ∷ [])
spawn-record_example =
    spawn-record start recording [] 1 main_id [] (omega arith) refl refl main_spawns recording_open

abbrev spawning : World (List RecordEntry)
spawning = record (replaying (record { replayer = [] })) {
  thread = record recording.thread {
    event_receiver = some (entry_of (thread_initialized alice) metadata ∷ []);
  };
}

spawn-replay_example :
    (w' : World (List RecordEntry)) × (spawn start spawning ≡ start alice w') × LogLeft w' []
spawn-replay_example =
    spawn-replay start spawning [] 1 alice [] (omega arith) refl refl
      (unspawned main_id refl refl refl main_id-Represents) alice-Represents (reading refl)

abbrev log : Entries
log = (main_id, entry_of crossbeam_sender Setup.metadata ∷ []) ∷ []

abbrev recorder : GlobalRecorder (List RecordEntry)
recorder = record { recorder = log; path = some "test.log" }

abbrev recorded : World (List RecordEntry)
recorded = record recording {
  recorder = some recorder;
  thread = record recording.thread { event_number = 1; event_sender = some main_id };
}

written : write_entries (ron_of log) (λ _ _. true) "test.log" log ≡ ok ("test.log", "the log")
unfolding write_entries
written = rw (to_string_lem log, write_entries) refl

flushed : flush (ron_of log) (λ _ _. true) recorder ≡ ok ("test.log", "the log")
unfolding flush get_all_entries collect_entries get insert
flushed = written

execution_done_lem_example :
    (w' : World (List RecordEntry)) × (v : World (List RecordEntry)) × (execution_done
        (ron_of log)
        (λ _ _. true)
        recorded
      ≡ returns (ok (some ("test.log", "the log")), w'))
    × (execution_done (ron_of log) (λ _ _. true) w' ≡ returns (err no_recorder, w'))
    × (write_event_to_record crossbeam_sender Setup.metadata w'
        ≡ returns (err cannot_write_event_to_log, v))
execution_done_lem_example =
    execution_done_lem (ron_of log) (λ _ _. true) recorded recorder ("test.log", "the log") main_id
      crossbeam_sender Setup.metadata refl refl flushed refl

poll_entry-Polls_example :
    Polls
      (poll_fifo {Q = List RecordEntry} timer wire wire_fifo)
      port
      alice
      recording
      (poll_entry timer wire 3 alice port recording)
unfolding wire_fifo
poll_entry-Polls_example =
    poll_entry-Polls timer wire wire_fifo 3 alice port recording tt (ground arith)

-- A channel whose senders are gone.
hung_up : RealReceiver (Unit {0}) (DetThreadId × ℕ)
hung_up = record {
  recv = λ c. returns (err RecvError.recv_error, c);
  try_recv = λ c. (err TryRecvError.disconnected, c);
  recv_timeout = λ _ c. (err RecvTimeoutError.disconnected, c);
}

poll_entry_disconnected_example :
    poll_entry timer hung_up 1 alice
      (record { buffer = (bob, 8 ∷ []) ∷ []; channel = unbounded tt })
      recording
    ≡ panics
unfolding hung_up queue id_beq
poll_entry_disconnected_example =
    poll_entry_disconnected timer hung_up 0 alice ((bob, 8 ∷ []) ∷ []) tt tt recording refl refl
