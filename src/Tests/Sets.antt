-- ===== src/Tests/Sets.antt =====
-- A receiver set of inter-process channels, from a recording to its replay.
use rr_channel.Prelude.{
  ℕ, zero, suc, ◌<◌, ◌≡◌, ◌∙◌, refl, sym, ap, some, List, [], ◌∷◌, map, Result, ok, err, Outcome,
  returns, hangs, true, false, arith, All, nat_eq,
}
use rr_channel.Prelude.Map.{get, insert}
use rr_channel.Prelude.Map.Queues.{queue}
use rr_channel.DetThread.Id.{DetThreadId, id_eq, id_beq, id_beq_iff}
use rr_channel.DetThread.Tls.{get_det_id, fake_channel_id, new_det_thread_id}
use rr_channel.RecordLog.{
  RecordEntry, Entries, GlobalRecorder, GlobalReplayer, flush, get_all_entries, collect_entries,
  write_entries, add_receiver, open_log, init,
}
use rr_channel.Rr.Pending.{from}
use rr_channel.Recorder.{write_event_to_record}
use rr_channel.Recorder.Laws.{LogOpen, unconnected}
use rr_channel.World.{World}
use rr_channel.Desync.{DetMessage, program_desynced}
use rr_channel.Crossbeam.RoundTrip.{IsReplaying}
use rr_channel.Ipc.{OpaqueIpcReceiver}
use rr_channel.Ipc.Receive.{attempts}
use rr_channel.Ipc.Set.{RealSet, IpcSelectionResult}
use rr_channel.Ipc.Set.Entry.{Buffer, deserialize_id}
use rr_channel.Ipc.Set.Fifo.{IsPatient, set_poll_fifo}
use rr_channel.Ipc.Set.Found.{Found, result_of}
use rr_channel.Ipc.Set.Moves.{replaying_set}
use rr_channel.Ipc.Set.Refine.{held}
use rr_channel.Ipc.Set.RoundTrip.{
  recording_set, Delivers, in_turn, Holds, selects, selects_then_replay,
}
use rr_channel.Ipc.Set.Select.{do_select, events_of, rr_select, select}
use rr_channel.Ipc.Set.Selection.{select_entry, AreWithin}
use rr_channel.Tests.Setup.{main_id, alice, bob, log_list, Wire, metadata, recording, replaying}
use rr_channel.Tests.LogFile.{ron_of, to_string_lem}

-- Each opaque message is a message with the id of its sender.
abbrev Opaque : Type 0
Opaque = DetMessage ℕ

abbrev Script : Type 0
Script = List (List (Found Opaque))

next_selection : Script → Outcome (Result (List (IpcSelectionResult Opaque)) (Unit {0}) × Script)
next_selection [] = hangs
next_selection (fs ∷ script) = returns (ok (map result_of fs), script)

script_try_recv : Wire → Result Opaque (Unit {0}) × Wire
script_try_recv [] = (err tt, [])
script_try_recv (m ∷ ms) = (ok m, ms)

-- A real set whose selections are given.
pub script_set : RealSet Script Wire (Unit {0}) Opaque (Unit {0}) (Unit {0})
unfolding next_selection script_try_recv
script_set = record {
  new = ok [];
  add_opaque = λ k r. (ok 0, r);
  select = next_selection;
  try_recv = script_try_recv;
  channel_is_closed = λ x. false;
  sleep = λ n k. k;
  unit_channel = ok (tt, []);
  deserialize_id = λ m. some m.0;
}

abbrev signed : Opaque → DetMessage Opaque
signed m = (m.0, m)

on_ready :
    (k : Wire) (m : DetMessage Opaque) (ms : List (DetMessage Opaque))
    → map signed k ≡ m ∷ ms
    → (k' : Wire) × (script_try_recv k ≡ (ok m.1, k'))
      × (some m.1.0 ≡ some m.0)
      × (map signed k' ≡ ms)
unfolding script_try_recv
on_ready [] m ms a = cc
on_ready (x ∷ k) m ms a =
    let head : signed x ≡ m = ground (arith, a) in
    (
      k,
      ap (λ (y : DetMessage Opaque). (ok y.1, k)) head,
      ap (λ (y : DetMessage Opaque). some y.1.0) (sym head)
          ∙ ap (λ (y : DetMessage Opaque). some y.0) head,
      ground (arith, a),
    )

on_empty :
    (k : Wire)
    → map signed k ≡ []
    → (e : Unit {0}) × (k' : Wire) × (script_try_recv k ≡ (err e, k'))
      × (map signed k' ≡ [])
      × (map signed k' ≡ [])
unfolding script_try_recv
on_empty [] a = (tt, [], refl, refl, refl)
on_empty (x ∷ k) a = cc

at_once : 0 < attempts
at_once = omega arith

pub set_patient : IsPatient script_set
unfolding script_set on_ready on_empty at_once
set_patient = record {
  arrivals = map signed;
  delay = λ k. 0;
  delay_bound = λ k. at_once;
  on_ready = λ k m ms a d. on_ready k m ms a;
  on_delay = λ k m ms d a e. absurd (omega arith);
  on_empty = on_empty;
}

abbrev seven : Found Opaque
seven = record { index = 0; sender = alice; msg = (alice, 7) }

abbrev eight : Found Opaque
eight = record { index = 1; sender = bob; msg = (bob, 8) }

abbrev nine : Found Opaque
nine = record { index = 0; sender = bob; msg = (bob, 9) }

-- First one message each, then a second one to the first receiver.
abbrev script : Script
script = (eight ∷ seven ∷ []) ∷ (nine ∷ []) ∷ []

answered : Delivers script_set script script
unfolding script_set next_selection
answered = ((nine ∷ []) ∷ [], refl, (refl, (refl, tt)), ([], refl, (refl, tt), tt))

abbrev opaque : Wire → OpaqueIpcReceiver Wire
opaque k = record { opaque_receiver = k; metadata = metadata; closed = false }

-- In the replay Bob is earlier.
abbrev ports : List (OpaqueIpcReceiver Wire)
ports = opaque ((bob, 9) ∷ (alice, 7) ∷ []) ∷ opaque ((bob, 8) ∷ []) ∷ []

abbrev nothing : ℕ → DetThreadId → List Opaque
nothing i s = []

held_messages :
    Holds (List RecordEntry) set_patient 9 (replaying_set [] 2 ports [] []) (in_turn script nothing)
unfolding set_patient set_poll_fifo held queue from get
held_messages zero x e =
    let same : opaque ((bob, 9) ∷ (alice, 7) ∷ []) ≡ x = ground (arith, e) in
    rw (← same) (record {
      carries_messages = tt;
      within_fuel = ground arith;
      per_sender = λ s. ground (arith, id_beq_iff alice s, id_beq_iff bob s);
    })
held_messages (suc zero) x e =
    let same : opaque ((bob, 8) ∷ []) ≡ x = ground (arith, e) in
    rw (← same) (record {
      carries_messages = tt;
      within_fuel = ground arith;
      per_sender = λ s. ground (arith, id_beq_iff alice s, id_beq_iff bob s);
    })
held_messages (suc (suc i)) x e = cc

within : All (AreWithin 2) script
within = ((ground arith, (ground arith, tt)), ((ground arith, tt), tt))

abbrev log : Entries
log = (main_id, select_entry (eight ∷ seven ∷ []) ∷ select_entry (nine ∷ []) ∷ []) ∷ []

abbrev loaded : GlobalReplayer
loaded = record { replayer = log }

recording_open : LogOpen main_id recording []
unfolding get init
recording_open = unconnected _ refl refl refl tt refl refl

abbrev recorder : GlobalRecorder (List RecordEntry)
recorder = record (init "test.log") { recorder = log }

abbrev recorded_world : World (List RecordEntry)
recorded_world = record recording {
  recorder = some recorder;
  thread = record recording.thread { event_number = 2; event_sender = some main_id };
}

written : write_entries (ron_of log) (λ _ _. true) "test.log" log ≡ ok ("test.log", "the log")
unfolding write_entries
written = rw (to_string_lem log, write_entries) refl

flushed : flush (ron_of log) (λ _ _. true) recorder ≡ ok ("test.log", "the log")
unfolding flush init get_all_entries collect_entries get insert
flushed = written

reopened : open_log (ron_of log) (λ _. some "the log") "test.log" ≡ some loaded
unfolding open_log ron_of
reopened = refl

replay_starts : IsReplaying main_id loaded (replaying loaded)
replay_starts = record { same_id = refl; log_untouched = refl; log_loaded = refl }

ran :
    selects script_set 9 2 (recording_set script) recording
    ≡ returns ((map (λ fs. ok (map result_of fs)) script, recording_set []), recorded_world)
unfolding selects select rr_select do_select events_of deserialize_id program_desynced script_set
    next_selection fake_channel_id new_det_thread_id write_event_to_record get_det_id add_receiver
    get init insert id_beq
ran = refl

selects_then_replay_example :
    (rs' : List (OpaqueIpcReceiver Wire)) × (buffer' : Buffer Opaque) × (v' : World
      (List RecordEntry))
    × (selects script_set 9 2 (replaying_set [] 2 ports [] []) (replaying loaded)
        ≡ returns
            ((map (λ fs. ok (map result_of fs)) script, replaying_set [] 2 rs' buffer' []), v'))
    × Holds (List RecordEntry) set_patient 9 (replaying_set [] 2 rs' buffer' []) nothing
selects_then_replay_example =
    selects_then_replay script_set 9 set_patient (ron_of log) (λ _ _. true) (λ _. some "the log")
      (eight ∷ seven ∷ []) ((nine ∷ []) ∷ []) script [] [] 2 ports [] [] nothing _ main_id recording
      recorded_world (replaying loaded) recorder "test.log" "the log" loaded refl refl
      recording_open answered ran refl flushed refl reopened replay_starts refl within held_messages
