-- ===== src/Tests/Systems.antt =====
-- Three threads that share a channel, from a recording to a replay in another order.
use rr_channel.Prelude.{
  ℕ, zero, suc, ◌≡◌, refl, ap, some, List, [], ◌∷◌, ◌++◌, map, Result, ok, err, Outcome, returns,
  hangs, true, arith, nat_eq, ◌==◌,
}
use rr_channel.Prelude.Map.{get, insert}
use rr_channel.DetThread.Id.{DetThreadId, id_eq, id_beq}
use rr_channel.DetThread.Tls.{fresh_thread, get_det_id}
use rr_channel.Event.{RecvError, RecvTimeoutError, TryRecvError}
use rr_channel.RecordLog.{RecordEntry, RecordMetadata, Entries, GlobalRecorder, add_receiver, init}
use rr_channel.Recorder.{write_event_to_record}
use rr_channel.Recorder.Laws.{unconnected}
use rr_channel.World.{Thread, record_mode}
use rr_channel.Desync.{DetMessage, Endpoint, program_desynced}
use rr_channel.Rr.{record_replay_recv, record_replay_send}
use rr_channel.Channel.{RealReceiver, RealSender, recv_with, send_with, impl_recvrr}
use rr_channel.Crossbeam.{ChannelKind, after, bounded, never, unbounded, send, send_impl}
use rr_channel.Crossbeam.Fifo.{IsFifoChannel, IsMessages, kind_arrivals}
use rr_channel.Crossbeam.Receive.{recv, recv_variants, kind_recv}
use rr_channel.System.{Program, stop, sending, receiving, System, update, run_turns, take_turn}
use rr_channel.System.Machine.{Act, sends, receives}
use rr_channel.System.Follows.{IsLinked, entry_for}
use rr_channel.System.Recording.{Records, Owns}
use rr_channel.System.Trace.{Recorded}
use rr_channel.System.Record.{run_turns-Recorded}
use rr_channel.Tests.Setup.{log_list, Wire, timer, metadata, recording}

wire_recv : Wire → Outcome (Result (DetMessage ℕ) RecvError × Wire)
wire_recv [] = hangs
wire_recv (m ∷ ms) = returns (ok m, ms)

wire_recv_timeout : Wire → Result (DetMessage ℕ) RecvTimeoutError × Wire
wire_recv_timeout [] = (err RecvTimeoutError.timeout, [])
wire_recv_timeout (m ∷ ms) = (ok m, ms)

-- A channel that is the list of the messages on their way, and whose senders are never dropped.
pub line : RealReceiver Wire (DetMessage ℕ)
unfolding wire_recv wire_recv_timeout
line = record {
  recv = wire_recv;
  try_recv = λ c. (err TryRecvError.empty, c);
  recv_timeout = λ _ c. wire_recv_timeout c;
}

abbrev pub Kind : Type 0
Kind = ChannelKind (Unit {0}) Wire

kind_send : DetMessage ℕ → Kind → Outcome (Result (Unit {0}) (DetMessage ℕ) × Kind)
kind_send m (after a) = returns (err m, after a)
kind_send m (bounded c) = returns (ok tt, bounded (c ++ m ∷ []))
kind_send m (never c) = returns (ok tt, never (c ++ m ∷ []))
kind_send m (unbounded c) = returns (ok tt, unbounded (c ++ m ∷ []))

pub line_send : RealSender Kind (DetMessage ℕ)
unfolding kind_send
line_send = record { send = kind_send }

unfoldable pub line_fifo : IsFifoChannel line
unfolding line
line_fifo = record {
  arrivals = λ c. c;
  on_message = λ d c m ms h. (ms, ap wire_recv_timeout h, refl);
  on_empty = λ d c h. (RecvTimeoutError.timeout, [], ap wire_recv_timeout h, refl);
}

line_on_send :
    (k : Kind) (m : DetMessage ℕ)
    → IsMessages k
    → (k' : Kind) × (line_send.send m k ≡ returns (ok tt, k'))
      × IsMessages k'
      × (kind_arrivals line_fifo k' ≡ kind_arrivals line_fifo k ++ m ∷ [])
unfolding line_fifo line_send
line_on_send (after a) m r = absurd r
line_on_send (bounded c) m r = (bounded (c ++ m ∷ []), refl, tt, refl)
line_on_send (never c) m r = (never (c ++ m ∷ []), refl, tt, refl)
line_on_send (unbounded c) m r = (unbounded (c ++ m ∷ []), refl, tt, refl)

pub line-IsLinked : IsLinked line_fifo line_send
unfolding line line_fifo
line-IsLinked = record {
  on_send = line_on_send;
  on_recv = λ c m ms h. (ms, ap wire_recv h, refl);
  on_wait = λ c h. ap wire_recv h;
}

abbrev pub ids : ℕ → DetThreadId
ids i = record { thread_id = i ∷ 0 ∷ 0 ∷ 0 ∷ 0 ∷ 0 ∷ 0 ∷ 0 ∷ 0 ∷ 0 ∷ []; size = 1 }

pub distinct : (i j : ℕ) → (ids i == ids j) ≡ (i == j)
unfolding id_beq
distinct i j = ground arith

abbrev pub owner : ℕ → ℕ
owner c = 0

abbrev pub md : ℕ → RecordMetadata
md c = metadata

-- Thread 0 takes two messages, one of thread 1 and one of thread 2.
abbrev pub programs : ℕ → Program ℕ
programs zero = receiving 0 (λ _. receiving 0 (λ _. stop))
programs (suc zero) = sending 0 7 (λ _. stop)
programs (suc (suc zero)) = sending 0 8 (λ _. stop)
programs (suc (suc (suc i))) = stop

abbrev pub named : ℕ → Thread
named i = record fresh_thread { thread_initialized = true; det_id = some (ids i) }

abbrev pub empty : ℕ → Endpoint Kind ℕ
empty c = record { buffer = []; channel = unbounded [] }

abbrev pub start : System (List RecordEntry) (Unit {0}) Wire ℕ
start = record { shared = recording; threads = named; programs = programs; channels = empty }

pub start-Records : Records line_fifo ids start (λ _. [])
unfolding line_fifo get init
start-Records = record {
  synced = refl;
  logs = λ i. unconnected _ refl refl refl tt refl refl;
  carries_messages = λ _. tt;
  from_threads = λ _. tt;
}

pub owned : (i : ℕ) → Owns owner i (programs i)
owned zero = (refl, λ _. (refl, λ _. tt))
owned (suc zero) = λ _. tt
owned (suc (suc zero)) = λ _. tt
owned (suc (suc (suc i))) = tt

-- What the threads do.
abbrev pub acts : ℕ → List (Act ℕ)
acts zero = receives 0 1 7 ∷ receives 0 2 8 ∷ []
acts (suc zero) = sends 0 7 ∷ []
acts (suc (suc zero)) = sends 0 8 ∷ []
acts (suc (suc (suc i))) = []

abbrev pub entries : ℕ → List RecordEntry
entries i = map (entry_for ids md) (acts i)

abbrev pub log : Entries
log = (ids 1, entries 1) ∷ (ids 2, entries 2) ∷ (ids 0, entries 0) ∷ []

abbrev pub recorder : GlobalRecorder (List RecordEntry)
recorder = record (init "test.log") { recorder = log }

-- A thread after its calls.
abbrev pub wrote : ℕ → ℕ → Thread
wrote i n = record (named i) { event_number = n; event_sender = some (ids i) }

abbrev pub finished : System (List RecordEntry) (Unit {0}) Wire ℕ
finished = record {
  shared = record recording { recorder = some recorder; thread = wrote 0 2 };
  threads =
      update (update (update (update named 1 (wrote 1 1)) 2 (wrote 2 1)) 0 (wrote 0 1)) 0
        (wrote 0 2);
  programs =
      update (update (update (update programs 1 stop) 2 stop) 0 (receiving 0 (λ _. stop))) 0 stop;
  channels =
      update
        (update
          (update (update empty 0 (record { buffer = []; channel = unbounded ((ids 1, 7) ∷ []) })) 0
            (record { buffer = []; channel = unbounded ((ids 1, 7) ∷ (ids 2, 8) ∷ []) }))
          0 (record { buffer = []; channel = unbounded ((ids 2, 8) ∷ []) }))
        0 (record { buffer = []; channel = unbounded [] });
}

pub ran :
    run_turns timer line line_send 9 md record_mode (1 ∷ 2 ∷ 0 ∷ 0 ∷ []) start ≡ returns finished
unfolding run_turns take_turn send send_with record_replay_send send_impl recv recv_with
    record_replay_recv kind_recv line line_send write_event_to_record get_det_id add_receiver get
    init insert id_beq impl_recvrr recv_variants program_desynced
ran = refl

run_turns-Recorded_example : Recorded line_fifo ids md distinct owner start finished (λ _. []) 4
run_turns-Recorded_example =
    run_turns-Recorded timer line line_send line_fifo line-IsLinked 9 ids md distinct owner
      (1 ∷ 2 ∷ 0 ∷ 0 ∷ []) start finished (λ _. []) start-Records owned ran
