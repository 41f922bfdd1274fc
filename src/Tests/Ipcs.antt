-- ===== src/Tests/Ipcs.antt =====
-- Inter-process channels and their receiver sets.
use rr_channel.Prelude.{
  ℕ, ◌<◌, ◌≡◌, ◌++◌, refl, false, true, some, List, [], ◌∷◌, Result, ok, err, returns, panics,
  arith, length, ap, All,
}
use rr_channel.Prelude.Map.{get}
use rr_channel.Prelude.Map.Queues.{queue}
use rr_channel.DetThread.Id.{id_eq, id_beq}
use rr_channel.RecordLog.{RecordEntry, init}
use rr_channel.Recorder.{entry_of}
use rr_channel.Recorder.Laws.{LogOpen, unconnected, reading}
use rr_channel.World.{World}
use rr_channel.Desync.{DetMessage, Endpoint}
use rr_channel.Event.{ipc_recv_succ, ipc_try_recv_error_empty}
use rr_channel.Rr.{recv_expected_message}
use rr_channel.Rr.Pending.{from}
use rr_channel.Ipc
use rr_channel.Ipc.{IpcError, OpaqueIpcReceiver}
use rr_channel.Ipc.Fifo.{IsPatient}
use rr_channel.Ipc.Receive.{attempts, recv, try_recv, recv_variants, try_recv_variants}
use rr_channel.Ipc.Retold.{retold, retold_try}
use rr_channel.Ipc.RoundTrip.{Agrees, recv-Agrees}
use rr_channel.Ipc.Set.{RealSet, do_add}
use rr_channel.Ipc.Set.Entry.{do_replay_recv_for_entry}
use rr_channel.Ipc.Set.Moves.{
  IsAppending, replaying_set, moved_set, do_add-desynced, select-some_closed,
}
use rr_channel.Ipc.Set.Refine.{held, set_poll, Refines, do_replay_recv_for_entry-Refines}
use rr_channel.Ipc.Set.Select.{select}
use rr_channel.Tests.Setup.{main_id, alice, bob, log_list, Wire, metadata, recording, replaying}

ipc_recv : Wire → Result (DetMessage ℕ) (IpcError (Unit {0}) (Unit {0})) × Wire
ipc_recv [] = (err IpcError.disconnected, [])
ipc_recv (m ∷ ms) = (ok m, ms)

ipc_try_recv : Wire → Result (DetMessage ℕ) (Ipc.TryRecvError (Unit {0}) (Unit {0})) × Wire
ipc_try_recv [] = (err Ipc.TryRecvError.empty, [])
ipc_try_recv (m ∷ ms) = (ok m, ms)

-- A real IPC channel that is the list of the messages on their way.
pub ipc_wire : Ipc.RealReceiver Wire (DetMessage ℕ) (Unit {0}) (Unit {0})
unfolding ipc_recv ipc_try_recv
ipc_wire = record { recv = λ c. returns (ipc_recv c); try_recv = ipc_try_recv; sleep = λ n c. c }

at_once : 0 < attempts
at_once = omega arith

unfoldable wire_patient : IsPatient ipc_wire
unfolding ipc_wire
wire_patient = record {
  arrivals = λ c. c;
  delay = λ c. 0;
  delay_bound = λ c. at_once;
  on_ready = λ c m ms a d. (ms, ap ipc_try_recv a, refl);
  on_delay = λ c m ms d a e. absurd (omega arith);
  on_empty = λ c a. (Ipc.TryRecvError.empty, [], ap ipc_try_recv a, refl);
}

abbrev no_text : {A : Type 0} → A → Unit {0}
no_text _ = tt

abbrev port : Wire → Endpoint Wire ℕ
port c = record { buffer = []; channel = c }

abbrev at : List RecordEntry → World (List RecordEntry)
at es = record (replaying (record { replayer = [] })) {
  thread = record recording.thread { event_receiver = some es };
}

abbrev logged_success : World (List RecordEntry)
logged_success = at (entry_of (ipc_recv_succ alice) metadata ∷ [])

abbrev logged_empty : World (List RecordEntry)
logged_empty = at (entry_of ipc_try_recv_error_empty metadata ∷ [])

recording_open : LogOpen main_id recording []
unfolding get init
recording_open = unconnected _ refl refl refl tt refl refl

-- A receive gets a message, and a try_recv on a channel without one gets Empty.
recv-Agrees_example :
    Agrees no_text no_text ipc_wire wire_patient 9 metadata
      (recv_variants no_text no_text)
      (retold no_text no_text)
      (recv no_text no_text ipc_wire 9)
      (ok (alice, 7))
      []
      (port ((alice, 7) ∷ []))
      (port ((bob, 8) ∷ (alice, 7) ∷ []))
      main_id
      recording
      logged_success
      []
      []
    × Agrees no_text no_text ipc_wire wire_patient 9 metadata
        (try_recv_variants no_text no_text)
        (retold_try no_text no_text)
        (try_recv no_text no_text ipc_wire 9)
        (err Ipc.TryRecvError.empty)
        []
        (port [])
        (port ((bob, 8) ∷ []))
        main_id
        recording
        logged_empty
        []
        []
unfolding ipc_wire wire_patient recv_variants try_recv_variants queue from id_beq
recv-Agrees_example =
    recv-Agrees no_text no_text ipc_wire wire_patient 9 metadata (ok (alice, 7)) []
      (port ((alice, 7) ∷ [])) (port ((bob, 8) ∷ (alice, 7) ∷ [])) recording logged_success [] []
      (err Ipc.TryRecvError.empty) [] (port []) (port ((bob, 8) ∷ [])) recording logged_empty [] []
      main_id recording_open refl (reading refl) (ground arith) ([], refl) recording_open refl
      (reading refl) (ground arith) tt

opaque_try_recv : Wire → Result (DetMessage ℕ) (Unit {0}) × Wire
opaque_try_recv [] = (err tt, [])
opaque_try_recv (m ∷ ms) = (ok m, ms)

-- A real set that is the list of its receivers.
pub wire_set : RealSet (List Wire) Wire (Unit {0}) (DetMessage ℕ) (Unit {0}) (Unit {0})
unfolding opaque_try_recv
wire_set = record {
  new = ok [];
  add_opaque = λ k r. (ok (length r), r ++ k ∷ []);
  select = λ r. returns (ok [], r);
  try_recv = opaque_try_recv;
  channel_is_closed = λ x. false;
  sleep = λ n k. k;
  unit_channel = ok (tt, []);
  deserialize_id = λ m. some m.0;
}

unfoldable wire_appends : IsAppending wire_set
unfolding wire_set
wire_appends = record { contents = λ r. r; on_add = λ k r. (r ++ k ∷ [], refl, refl) }

abbrev opaque : Wire → OpaqueIpcReceiver Wire
opaque k = record { opaque_receiver = k; metadata = metadata; closed = false }

do_replay_recv_for_entry-Refines_example :
    Refines 0 []
      (opaque ((bob, 8) ∷ (alice, 7) ∷ []))
      (recv_expected_message
        (set_poll wire_set)
        9
        alice
        (record { buffer = held [] 0; channel = (bob, 8) ∷ (alice, 7) ∷ [] })
        recording)
      (do_replay_recv_for_entry wire_set 9 0 alice []
        (opaque ((bob, 8) ∷ (alice, 7) ∷ []))
        recording)
do_replay_recv_for_entry-Refines_example =
    do_replay_recv_for_entry-Refines wire_set 0 alice 9 [] (opaque ((bob, 8) ∷ (alice, 7) ∷ []))
      recording

abbrev gone_off : World (List RecordEntry)
gone_off = record (at []) { desync = true; parked_threads_started = true }

abbrev two : List (OpaqueIpcReceiver Wire)
two = opaque ((alice, 7) ∷ []) ∷ opaque [] ∷ []

second_open : All (λ (x : OpaqueIpcReceiver Wire). x.closed ≡ false) (opaque [] ∷ [])
second_open = (refl, tt)

do_add-desynced_example :
    (r' : List Wire) × (do_add wire_set
        (opaque ((bob, 8) ∷ []))
        (replaying_set [] 2 two [] [])
        gone_off
      ≡ returns ((ok 2, moved_set r' 2 [] []), gone_off))
    × (wire_appends.contents r' ≡ ((alice, 7) ∷ []) ∷ [] ∷ ((bob, 8) ∷ []) ∷ [])
unfolding wire_appends
do_add-desynced_example =
    do_add-desynced wire_set wire_appends (opaque ((bob, 8) ∷ [])) [] 2 two [] [] gone_off refl refl
      refl (refl, second_open)

abbrev hung_up : OpaqueIpcReceiver Wire
hung_up = record (opaque []) { closed = true }

select-some_closed_example :
    select wire_set 9
      (replaying_set [] 3 (opaque ((alice, 7) ∷ []) ∷ hung_up ∷ opaque [] ∷ []) [] [])
      gone_off
    ≡ panics
unfolding wire_set
select-some_closed_example =
    select-some_closed wire_set wire_appends (opaque ((alice, 7) ∷ []) ∷ []) (opaque [] ∷ [])
      hung_up [] 3 [] [] 9 main_id tt [] gone_off refl refl (refl, tt) refl refl (refl, refl) refl
