-- ===== src/Tests/Logs.antt =====
-- The recorder, the log file and the replayer.
use mathlib.Core.Option
use rr_channel.Prelude.{
  ◌≡◌, refl, true, none, some, List, [], ◌∷◌, ok, returns, panics, ◌==◌, if◌then◌else◌, arith, ◌>>◌,
}
use rr_channel.Prelude.Map.{get, insert, remove}
use rr_channel.DetThread.Id.{DetThreadId, id_eq, id_beq}
use rr_channel.Event.{crossbeam_sender, crossbeam_recv_succ}
use rr_channel.RecordLog.{
  RecordEntry, Entries, GlobalRecorder, GlobalReplayer, get_all_entries, collect_entries,
  take_entry, write_entries, flush, open_log,
}
use rr_channel.RecordLog.Laws.{IsRecorder, flush_then_replay, take_entry_once}
use rr_channel.Recorder.{entry_of}
use rr_channel.Tests.Setup.{main_id, alice, bob, log_list, metadata, recording}
use rr_channel.Tests.LogFile.{ron_of, to_string_lem}
use rr_channel.DetThread.Id.Paths.{Represents}
use rr_channel.World.{World, replay_mode}
use rr_channel.Recorder.Laws.{LogLeft}
use rr_channel.TestState.{
  first_replayer, take_global_memory_recorder, set_rr_mode, reset_test_state,
}
use rr_channel.TestState.Laws.{after_reset, reset-LogLeft}
use rr_channel.ParseRecordlog.{main}
use rr_channel.ParseRecordlog.Laws.{shown, main_lem}

abbrev sent : RecordEntry
sent = entry_of crossbeam_sender metadata

abbrev heard : RecordEntry
heard = entry_of (crossbeam_recv_succ bob) metadata

abbrev log : Entries
log = (alice, sent ∷ heard ∷ []) ∷ (bob, sent ∷ []) ∷ []

abbrev recorder : GlobalRecorder (List RecordEntry)
recorder = record { recorder = log; path = some "test.log" }

recorder-IsRecorder : IsRecorder recorder
unfolding id_beq
recorder-IsRecorder = (refl, (refl, tt))

written : write_entries (ron_of log) (λ _ _. true) "test.log" log ≡ ok ("test.log", "the log")
unfolding write_entries
written = rw (to_string_lem log, write_entries) refl

flushed : flush (ron_of log) (λ _ _. true) recorder ≡ ok ("test.log", "the log")
unfolding flush get_all_entries collect_entries get insert id_beq
flushed = written

alices_entries : get recorder.recorder alice ≡ some (sent ∷ heard ∷ [])
unfolding get id_beq
alices_entries = refl

flush_then_replay_example :
    (p : GlobalReplayer) × (rest : GlobalReplayer) × (open_log
        (ron_of log)
        (λ _. some "the log")
        "test.log"
      ≡ some p)
    × (take_entry p alice ≡ some (sent ∷ heard ∷ [], rest))
flush_then_replay_example =
    flush_then_replay (ron_of log) (λ _ _. true) recorder (λ _. some "the log") "test.log" "the log"
      alice (sent ∷ heard ∷ []) recorder-IsRecorder flushed refl alices_entries

abbrev loaded : GlobalReplayer
loaded = record { replayer = log }

abbrev bobs : GlobalReplayer
bobs = record { replayer = (bob, sent ∷ []) ∷ [] }

taken : take_entry loaded alice ≡ some (sent ∷ heard ∷ [], bobs)
unfolding take_entry get remove id_beq
taken = refl

take_entry_once_example :
    (take_entry bobs alice ≡ none)
    × ((i : DetThreadId)
        → get bobs.replayer i ≡ (if alice == i then none else get loaded.replayer i))
take_entry_once_example =
    take_entry_once loaded bobs alice (sent ∷ heard ∷ []) recorder-IsRecorder taken

alice-Represents : Represents alice (1 ∷ [])
alice-Represents = record { fits = omega arith; sized = refl; padded = refl }

main_lem_example :
    main
      (ron_of log)
      (λ _. some "the log")
      (λ _. some (1 ∷ []))
      (record { recordlog_file = "test.log"; thread_id = some "[1]" })
    ≡ returns (shown (Option.map (λ l. l) (get log alice)))
main_lem_example =
    main_lem (ron_of log) (λ _ _. true) (λ _. some "the log") (λ _. some (1 ∷ [])) recorder
      "test.log" "the log" "[1]" alice (1 ∷ []) recorder-IsRecorder flushed refl refl
      alice-Represents

abbrev in_memory : GlobalRecorder (List RecordEntry)
in_memory = record { recorder = (main_id, sent ∷ heard ∷ []) ∷ []; path = none }

-- A test in a thread that has been given another id and has created channels.
abbrev tested : World (List RecordEntry)
tested = record recording {
  recorder = some in_memory;
  thread = record recording.thread {
    det_id = some alice;
    next_channel_id = 5;
    event_number = 2;
    event_sender = some main_id;
  };
}

in_memory-IsRecorder : IsRecorder in_memory
in_memory-IsRecorder = (refl, tt)

main_entries : get in_memory.recorder main_id ≡ some (sent ∷ heard ∷ [])
unfolding get id_beq
main_entries = refl

reset-LogLeft_example :
    (hm : Entries) × ((reset_test_state
          >> set_rr_mode replay_mode
          >> first_replayer true (ron_of log) (λ _. none) "test.log")
        tested
      ≡ returns (tt, after_reset hm tested))
    × LogLeft (after_reset hm tested) (sent ∷ heard ∷ [])
    × ((id : DetThreadId) → get hm id ≡ Option.map (λ l. l) (get in_memory.recorder id))
    × (take_global_memory_recorder (after_reset hm tested) ≡ panics)
reset-LogLeft_example =
    reset-LogLeft (ron_of log) (λ _. none) "test.log" tested in_memory _ (sent ∷ heard ∷ []) refl
      in_memory-IsRecorder main_entries refl refl
