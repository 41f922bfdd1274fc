-- ===== src/Tests/Selects.antt =====
-- Selecting over crossbeam channels.
use rr_channel.Prelude.{
  ℕ, zero, suc, ◌≡◌, ◌⊎◌, refl, some, List, [], ◌∷◌, ok, returns, hangs, true, arith, nat_eq,
}
use rr_channel.Prelude.Map.{Map, get, insert}
use rr_channel.Prelude.Map.Queues.{queue}
use rr_channel.DetThread.Id.{DetThreadId, id_eq, id_beq, id_beq_iff}
use rr_channel.DetThread.Tls.{get_det_id}
use rr_channel.RecordLog.{
  RecordEntry, RecordMetadata, Entries, GlobalRecorder, GlobalReplayer, flush, get_all_entries,
  collect_entries, write_entries, add_receiver, open_log, init,
}
use rr_channel.Rr.Pending.{from}
use rr_channel.Recorder.{write_event_to_record}
use rr_channel.Recorder.Laws.{rest, LogOpen, LogLeft, unconnected, reading}
use rr_channel.World.{World, record_mode, replay_mode}
use rr_channel.Desync.{program_desynced}
use rr_channel.Crossbeam.{Receiver, unbounded}
use rr_channel.Crossbeam.Receive.{on_kind}
use rr_channel.Crossbeam.RoundTrip.{IsReplaying}
use rr_channel.Select.{RealSelect, Receivers, assign, desync, select, rr_select}
use rr_channel.Select.Adds.{IsCounting, added, add_entries, add_all, add_all-agrees}
use rr_channel.Select.Desynced.{NothingBuffered, TakesBuffered, round-desynced}
use rr_channel.Select.Operation.{selected_index, do_recv, rr_select_recv, recv_selected}
use rr_channel.Select.Supply.{Supplies}
use rr_channel.Select.Rounds.{selecting, Answer, entry_for, round, rounds, Delivers}
use rr_channel.Select.RoundTrip.{rounds_then_replay}
use rr_channel.Tests.Setup.{
  main_id, alice, bob, log_list, Wire, wire, timer, wire_fifo, metadata, recording, replaying,
}
use rr_channel.Tests.LogFile.{ron_of, to_string_lem}

-- A selector that counts its operations and always takes the first.
pub selector : RealSelect ℕ ℕ (Unit {0}) Wire ℕ
unfolding wire
selector = record {
  new = 0;
  recv = λ r s. (s, suc s);
  select = λ s channels. returns (0, s);
  ready = λ s channels. returns (0, s);
  index = λ o. o;
  recv_timer = λ o c. hangs;
  recv_message = λ o c. wire.recv c;
}

unfoldable selector_counts : IsCounting selector
unfolding selector
selector_counts = record { size = λ s. s; size-recv_0 = λ r s. refl; size-recv_1 = λ r s. refl }

abbrev Port : Type 0
Port = Receiver (Unit {0}) Wire ℕ

abbrev port : Wire → Port
port c = record {
  endpoint = record { buffer = []; channel = unbounded c };
  metadata = metadata;
  mode = record_mode;
}

-- Only the first receiver has messages.
abbrev holding : Wire → Receivers (Unit {0}) Wire ℕ
holding c zero = port c
holding c (suc i) = port []

abbrev first : Answer ℕ
first = record { index = 0; receiver = 0; outcome = ok (alice, 7) }

abbrev second : Answer ℕ
second = record { index = 0; receiver = 0; outcome = ok (bob, 8) }

abbrev added_once : Map ℕ ℕ
added_once = (0, 0) ∷ []

abbrev recorded_receivers : Receivers (Unit {0}) Wire ℕ
recorded_receivers = holding ((alice, 7) ∷ (bob, 8) ∷ [])

delivered : Delivers selector added_once 1 recorded_receivers (first ∷ second ∷ [])
unfolding selector get wire
delivered =
    (0, 1, _, refl, refl, refl, (_, refl, refl), (0, 1, _, refl, refl, refl, (_, refl, refl), tt))

abbrev md : ℕ → RecordMetadata
md i = metadata

named : (c : Wire) (i : ℕ) → (holding c i).metadata ≡ md i
named c zero = refl
named c (suc i) = refl

abbrev log : Entries
log = (main_id, entry_for md first ∷ entry_for md second ∷ []) ∷ []

abbrev loaded : GlobalReplayer
loaded = record { replayer = log }

abbrev replayed_receivers : Receivers (Unit {0}) Wire ℕ
replayed_receivers = holding ((bob, 8) ∷ (alice, 7) ∷ [])

abbrev nothing : ℕ → DetThreadId → List ℕ
nothing p i = []

supplied : Supplies wire_fifo 9 replayed_receivers (first ∷ second ∷ []) nothing
unfolding wire_fifo from queue
supplied zero = record {
  carries_messages = tt;
  within_fuel = ground arith;
  per_sender = λ i. ground (arith, id_beq_iff alice i, id_beq_iff bob i);
}
supplied (suc p) = record {
  carries_messages = tt;
  within_fuel = ground arith;
  per_sender = λ i. ground arith;
}

recording_open : LogOpen main_id recording []
unfolding get init
recording_open = unconnected _ refl refl refl tt refl refl

abbrev recorder : GlobalRecorder (List RecordEntry)
recorder = record (init "test.log") { recorder = log }

abbrev recorded_world : World (List RecordEntry)
recorded_world = record recording {
  recorder = some recorder;
  thread = record recording.thread { event_number = 2; event_sender = some main_id };
}

written : write_entries (ron_of log) (λ _ _. true) "test.log" log ≡ ok ("test.log", "the log")
unfolding write_entries
written = rw (to_string_lem log, write_entries) refl

flushed : flush (ron_of log) (λ _ _. true) recorder ≡ ok ("test.log", "the log")
unfolding flush init get_all_entries collect_entries get insert
flushed = written

reopened : open_log (ron_of log) (λ _. some "the log") "test.log" ≡ some loaded
unfolding open_log ron_of
reopened = refl

replay_starts : IsReplaying main_id loaded (replaying loaded)
replay_starts = record { same_id = refl; log_untouched = refl; log_loaded = refl }

abbrev drained : Receivers (Unit {0}) Wire ℕ
drained = assign (assign recorded_receivers 0 (port ((bob, 8) ∷ []))) 0 (port [])

ran :
    rounds timer wire selector 9 2 (selecting record_mode 1 added_once) recorded_receivers recording
    ≡ returns
        (((0, ok 7) ∷ (0, ok 8) ∷ [], selecting record_mode 1 added_once, drained), recorded_world)
unfolding rounds round select rr_select program_desynced selector selected_index recv_selected
    rr_select_recv do_recv on_kind wire write_event_to_record get_det_id add_receiver get init
    insert id_beq
ran = refl

rounds_then_replay_example :
    (rs₃ : Receivers (Unit {0}) Wire ℕ) × (v' : World (List RecordEntry)) × (rounds timer wire
        selector 9 2
        (selecting replay_mode 1 added_once)
        replayed_receivers
        (replaying loaded)
      ≡ returns (((0, ok 7) ∷ (0, ok 8) ∷ [], selecting replay_mode 1 added_once, rs₃), v'))
    × Supplies wire_fifo 9 rs₃ [] nothing
rounds_then_replay_example =
    rounds_then_replay timer wire selector 9 wire_fifo (ron_of log) (λ _ _. true)
      (λ _. some "the log") first (second ∷ []) md nothing 1 1 1 added_once recorded_receivers
      drained replayed_receivers _ main_id recording recorded_world (replaying loaded) recorder
      "test.log" "the log" loaded refl recording_open (named ((alice, 7) ∷ (bob, 8) ∷ [])) delivered
      ran refl flushed refl reopened replay_starts refl (named ((bob, 8) ∷ (alice, 7) ∷ []))
      supplied

abbrev at : List RecordEntry → World (List RecordEntry)
at es = record (replaying loaded) { thread = record recording.thread { event_receiver = some es } }

add_all-agrees_example :
    ((s' : ℕ) × (w' : World (List RecordEntry)) × (add_all selector
          (3 ∷ 4 ∷ [])
          recorded_receivers
          (selecting record_mode 0 [])
          recording
        ≡ returns ((0 ∷ 1 ∷ [], selecting record_mode s' (added [] 0 (3 ∷ 4 ∷ []))), w'))
      × LogOpen main_id w' (add_entries md 0 (3 ∷ 4 ∷ []))
      × (rest w' ≡ rest recording))
    × ((s' : ℕ) × (v' : World (List RecordEntry)) × (add_all selector
            (3 ∷ 4 ∷ [])
            replayed_receivers
            (selecting replay_mode 0 [])
            (at (add_entries md 0 (3 ∷ 4 ∷ [])))
          ≡ returns ((0 ∷ 1 ∷ [], selecting replay_mode s' (added [] 0 (3 ∷ 4 ∷ []))), v'))
        × LogLeft v' []
        × (rest v' ≡ rest (at (add_entries md 0 (3 ∷ 4 ∷ [])))))
unfolding selector_counts get
add_all-agrees_example =
    add_all-agrees selector selector_counts (3 ∷ 4 ∷ []) 0 md recorded_receivers replayed_receivers
      0 0 [] main_id recording (at (add_entries md 0 (3 ∷ 4 ∷ []))) [] [] refl refl (λ i r e. cc)
      (named ((alice, 7) ∷ (bob, 8) ∷ [])) (named ((bob, 8) ∷ (alice, 7) ∷ [])) recording_open
      (reading refl)

-- Bob's message has been kept by the receiver.
abbrev kept : Receivers (Unit {0}) Wire ℕ
kept i = record (port ((alice, 7) ∷ [])) {
  endpoint = record { buffer = (bob, 8 ∷ []) ∷ []; channel = unbounded ((alice, 7) ∷ []) };
}

abbrev gone_off : World (List RecordEntry)
gone_off = record recording { desync = true; parked_threads_started = true }

round-desynced_example :
    TakesBuffered timer wire selector 9 replay_mode 1 added_once kept gone_off refl refl
    ⊎ (NothingBuffered added_once kept
        × (select timer wire selector 9 (selecting replay_mode 1 added_once) kept gone_off
            ≡ returns ((desync 0, selecting replay_mode 1 added_once, kept), gone_off)))
unfolding selector
round-desynced_example =
    round-desynced timer wire selector 9 replay_mode 1 added_once kept gone_off refl refl 0 1
      (refl, tt) (λ p. (refl, tt)) refl
