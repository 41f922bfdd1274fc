-- ===== src/World.antt =====
-- The state that one thread's calls read and write: the process-wide statics of desync.rs,
-- recordlog.rs and lib.rs, and the thread-locals of detthread.rs and recordlog.rs.
use rr_channel.Prelude.{ℕ, Bool, Option, none, some, List, Exec, panic, pure}
use rr_channel.DetThread.Id.{DetThreadId}
use rr_channel.RecordLog.{RecordEntry, GlobalRecorder, GlobalReplayer}

pub data RrMode : Type 0 where
  record_mode replay_mode no_rr : RrMode

pub data DesyncMode : Type 0 where
  panic_mode keep_going : DesyncMode

pub record DetIdSpawner : Type 0 where
  pub child_index : ℕ
  pub thread_id : DetThreadId

-- A lazily initialised thread-local is `none` until it is first read. `event_sender` holds the id
-- under which the receiving end of the thread's log channel was added to the recorder.
pub record Thread : Type 0 where
  pub thread_initialized : Bool
  pub det_id : Option DetThreadId
  pub det_id_spawner : Option DetIdSpawner
  pub next_channel_id : ℕ
  pub event_number : ℕ
  pub event_receiver : Option (List RecordEntry)
  pub event_sender : Option DetThreadId

-- `recorder` is `none` once `execution_done` has taken it. `parked_threads_started` is the flag of
-- PARK_THREADS. `rr_mode` is `none` where RR_MODE is not set properly. `others_desync` is the
-- environment's choice: whether some other thread marks the program as desynchronised while this
-- one sleeps.
pub record World (Q : Type 0) : Type 0 where
  pub desync : Bool
  pub parked_threads_started : Bool
  pub others_desync : Bool
  pub rr_mode : Option RrMode
  pub desync_mode : DesyncMode
  pub recorder : Option (GlobalRecorder Q)
  pub replayer : GlobalReplayer
  pub thread : Thread
  pub open thread use *

abbrev pub Call : Type 0 → Type 0 → Type 0
Call Q A = Exec (World Q) A

-- A value that must be there, or the thread panics.
abbrev pub expect : {Q A : Type 0} → Option A → Call Q A
expect none = panic
expect (some a) = pure a
