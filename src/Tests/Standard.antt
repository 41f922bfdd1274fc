-- ===== src/Tests/Standard.antt =====
-- Receives from a standard channel.
use rr_channel.Prelude.{ℕ, ◌≡◌, refl, some, List, [], ◌∷◌, ◌++◌, ok, returns, arith}
use rr_channel.Prelude.Map.{get}
use rr_channel.Prelude.Map.Queues.{queue}
use rr_channel.DetThread.Id.{DetThreadId, id_eq, id_beq_iff}
use rr_channel.RecordLog.{RecordEntry, init}
use rr_channel.World.{World, record_mode, replay_mode}
use rr_channel.Recorder.{entry_of}
use rr_channel.Recorder.Laws.{rest, LogOpen, unconnected, LogLeft, reading}
use rr_channel.Desync.{Endpoint}
use rr_channel.Rr.Pending.{from, pending}
use rr_channel.Crossbeam.Program.{Answer, recv_answer, recv_op, got}
use rr_channel.Mpsc.{ReceiverKind}
use rr_channel.Mpsc.Fifo.{poll_fifo}
use rr_channel.Mpsc.Laws.{receive, receiver, event_of, receive-record, receive-replay}
use rr_channel.Tests.Setup.{
  main_id, alice, bob, log_list, Wire, wire, wire_fifo, metadata, recording,
}

abbrev answer : Answer ℕ
answer = recv_answer (ok (alice, 7))

abbrev port : List ℕ → Wire → Endpoint (ReceiverKind Wire) ℕ
port bobs c = record { buffer = (bob, bobs) ∷ []; channel = ReceiverKind.unbounded c }

abbrev later : DetThreadId → List ℕ
later i = from i ((bob, 8) ∷ [])

recording_open : LogOpen main_id recording []
unfolding get init
recording_open = unconnected _ refl refl refl tt refl refl

next_answer : wire.recv ((alice, 7) ∷ []) ≡ returns (ok (alice, 7), [])
unfolding wire
next_answer = refl

receive-record_example :
    (w' : World (List RecordEntry)) × (receive wire 9 recv_op
        (receiver metadata record_mode (port [] ((alice, 7) ∷ [])))
        recording
      ≡ returns ((got 7, receiver metadata record_mode (port [] [])), w'))
    × LogOpen main_id w' (entry_of (event_of answer) metadata ∷ [])
    × (rest w' ≡ rest recording)
receive-record_example =
    receive-record wire 9 metadata ((bob, []) ∷ []) ((alice, 7) ∷ []) [] answer main_id recording []
      recording_open next_answer

abbrev replaying : World (List RecordEntry)
replaying = record recording {
  thread = record recording.thread {
    event_receiver = some (entry_of (event_of answer) metadata ∷ []);
  };
}

supplied :
    (i : DetThreadId)
    → pending {Q = List RecordEntry} (poll_fifo wire wire_fifo) (port (8 ∷ []) ((alice, 7) ∷ [])) i
      ≡ from i ((alice, 7) ∷ []) ++ later i
unfolding wire_fifo from queue
supplied i = ground (arith, id_beq_iff alice i, id_beq_iff bob i)

receive-replay_example :
    (r' : Endpoint (ReceiverKind Wire) ℕ) × (w' : World (List RecordEntry)) × (receive wire 9
        recv_op
        (receiver metadata replay_mode (port (8 ∷ []) ((alice, 7) ∷ [])))
        replaying
      ≡ returns ((got 7, receiver metadata replay_mode r'), w'))
    × LogLeft w' []
    × ((i : DetThreadId) → pending {Q = List RecordEntry} (poll_fifo wire wire_fifo) r' i ≡ later i)
unfolding wire_fifo
receive-replay_example =
    receive-replay wire 9 metadata wire_fifo answer later (port (8 ∷ []) ((alice, 7) ∷ []))
      replaying [] (reading refl) (ground arith) supplied
