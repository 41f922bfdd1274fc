-- ===== src/Tests/Setup.antt =====
-- Concrete threads, a concrete channel and a concrete log file format.
use rr_channel.Prelude.{
  ℕ, refl, ap, true, false, none, some, List, [], ◌∷◌, ◌++◌, Result, ok, err, returns, hangs,
}
use rr_channel.DetThread.Id.{DetThreadId, zeroed, id_eq}
use rr_channel.DetThread.Tls.{fresh_thread}
use rr_channel.Event.{RecvError, TryRecvError, RecvTimeoutError, cb_unbounded}
use rr_channel.RecordLog.{RecordEntry, RecordMetadata, LogQueue, init, GlobalReplayer}
use rr_channel.World.{World, record_mode, replay_mode, keep_going}
use rr_channel.Desync.{DetMessage}
use rr_channel.Channel.{RealReceiver}
use rr_channel.Crossbeam.Fifo.{IsFifoChannel}

abbrev pub main_id : DetThreadId
main_id = zeroed

abbrev pub alice : DetThreadId
alice = record { thread_id = 1 ∷ 0 ∷ 0 ∷ 0 ∷ 0 ∷ 0 ∷ 0 ∷ 0 ∷ 0 ∷ 0 ∷ []; size = 1 }

abbrev pub bob : DetThreadId
bob = record { thread_id = 2 ∷ 0 ∷ 0 ∷ 0 ∷ 0 ∷ 0 ∷ 0 ∷ 0 ∷ 0 ∷ 0 ∷ []; size = 1 }

-- A log channel that is the list of what was sent.
instance abbrev pub log_list : LogQueue (List RecordEntry)
log_list = record {
  unbounded = [];
  send = λ q e. q ++ e ∷ [];
  try_iter = λ q. q;
  try_iter-unbounded = refl;
  try_iter-send = λ q e. refl;
}

abbrev pub Wire : Type 0
Wire = List (DetMessage ℕ)

wire_recv : Wire → Result (DetMessage ℕ) RecvError × Wire
wire_recv [] = (err RecvError.recv_error, [])
wire_recv (m ∷ ms) = (ok m, ms)

wire_try_recv : Wire → Result (DetMessage ℕ) TryRecvError × Wire
wire_try_recv [] = (err TryRecvError.empty, [])
wire_try_recv (m ∷ ms) = (ok m, ms)

wire_recv_timeout : Wire → Result (DetMessage ℕ) RecvTimeoutError × Wire
wire_recv_timeout [] = (err RecvTimeoutError.timeout, [])
wire_recv_timeout (m ∷ ms) = (ok m, ms)

-- A real channel that is the list of the messages on their way.
unfoldable pub wire : RealReceiver Wire (DetMessage ℕ)
unfolding wire_recv wire_try_recv wire_recv_timeout
wire = record {
  recv = λ c. returns (wire_recv c);
  try_recv = wire_try_recv;
  recv_timeout = λ _ c. wire_recv_timeout c;
}

-- A timer that never fires.
unfoldable pub timer : RealReceiver (Unit {0}) ℕ
timer = record {
  recv = λ _. hangs;
  try_recv = λ c. (err TryRecvError.empty, c);
  recv_timeout = λ _ c. (err RecvTimeoutError.timeout, c);
}

unfoldable pub wire_fifo : IsFifoChannel wire
unfolding wire
wire_fifo = record {
  arrivals = λ c. c;
  on_message = λ d c m ms h. (ms, ap wire_recv_timeout h, refl);
  on_empty = λ d c h. (RecvTimeoutError.timeout, [], ap wire_recv_timeout h, refl);
}

abbrev pub metadata : RecordMetadata
metadata = record {
  type_name = "i32";
  channel_variant = cb_unbounded;
  id = record { det_thread_id = main_id; channel_id = 1 };
}

abbrev pub recording : World (List RecordEntry)
recording = record {
  desync = false;
  parked_threads_started = false;
  others_desync = false;
  rr_mode = some record_mode;
  desync_mode = keep_going;
  recorder = some (init "test.log");
  replayer = record { replayer = [] };
  thread = record fresh_thread { thread_initialized = true; det_id = some main_id };
}

abbrev pub replaying : GlobalReplayer → World (List RecordEntry)
replaying p = record recording { rr_mode = some replay_mode; recorder = none; replayer = p }
