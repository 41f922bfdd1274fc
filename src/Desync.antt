-- ===== src/Desync.antt =====
-- desync.rs: what happens once a replay leaves the recorded execution.
pub mod Laws
use rr_channel.Prelude.{
  Bool, true, Option, none, some, List, Result, ok, err, pure, panic, gets, modify, ◌>>=◌, ◌>>◌,
  hangs, if◌then◌else◌,
}
use rr_channel.Prelude.Map.{Map}
use rr_channel.Prelude.Map.Queues.{pop_any}
use rr_channel.DetThread.Id.{DetThreadId, id_eq}
use rr_channel.Error.{DesyncError}
use rr_channel.World.{Call, panic_mode, keep_going}

-- lib.rs: `DetMessage` and `BufferedValues`.
abbrev pub DetMessage : Type 0 → Type 0
DetMessage T = DetThreadId × T

abbrev pub BufferedValues : Type 0 → Type 0
BufferedValues T = Map DetThreadId (List T)

-- The receiving end of a channel: the buffer of early messages and the real channel behind it.
pub record Endpoint (C T : Type 0) : Type 0 where
  pub buffer : BufferedValues T
  pub channel : C

module _ {Q : Type 0} where
  unfoldable pub program_desynced : Call Q Bool
  program_desynced = gets λ w. w.desync

  pub wake_up_threads : Call Q (Unit {0})
  wake_up_threads = modify λ w. record w { parked_threads_started = true }

  pub mark_program_as_desynced : Call Q (Unit {0})
  unfolding wake_up_threads
  mark_program_as_desynced w =
      if w.desync then pure tt w else wake_up_threads (record w { desync = true })

  -- The flag is set already, or the thread waits for another thread's `mark_program_as_desynced`.
  pub sleep_until_desync : Call Q (Unit {0})
  sleep_until_desync w =
      if w.parked_threads_started
      then pure tt w
      else if w.others_desync
      then pure tt (record w { desync = true; parked_threads_started = true })
      else hangs

-- The message of a received pair, `.map(|t| t.1)`.
abbrev pub message : {T E : Type 0} → Result (DetMessage T) E → Result T E
message (ok m) = ok m.1
message (err e) = err e

module _ {Q C T E : Type 0} where
  from_buffer_or_wire :
      (C → Call Q (Result (DetMessage T) E × C))
      → Option (T × BufferedValues T)
      → Endpoint C T
      → Call Q (Result T E × Endpoint C T)
  from_buffer_or_wire recv_msg (some (v, buffer)) r = pure (ok v, record r { buffer = buffer })
  from_buffer_or_wire recv_msg none r = do
    (m, channel) ← recv_msg r.channel
    pure (message m, record r { channel = channel })

  unfoldable pub handle_desync :
      DesyncError
      → (C → Call Q (Result (DetMessage T) E × C))
      → Endpoint C T
      → Call Q (Result T E × Endpoint C T)
  unfolding from_buffer_or_wire
  handle_desync desync recv_msg r w = elim w.desync_mode [
    | keep_going ↦
        (do mark_program_as_desynced; from_buffer_or_wire recv_msg (pop_any r.buffer) r) w
    | panic_mode ↦ panic w
  ]
