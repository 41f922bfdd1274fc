-- ===== src/Ipc/Receive.antt =====
-- ipc_channel/mod.rs: the receive methods.
use rr_channel.Prelude.{ℕ, zero, suc, String, Result, ok, err, pure, ◌>>=◌}
use rr_channel.DetThread.Id.{DetThreadId}
use rr_channel.Event.{
  TivoEvent, IpcErrorVariants, ipc_recv_succ, ipc_try_recv_error_empty, ipc_try_recv_ipc_error,
}
use rr_channel.Error.{DesyncError, RecvErrorRr}
use rr_channel.RecordLog.{LogQueue}
use rr_channel.World.{Call}
use rr_channel.Desync.{DetMessage, Endpoint}
use rr_channel.Rr.{recv_expected_message}
use rr_channel.Channel.{lift, Variants, Seen, impl_recvrr, recv_with}
use rr_channel.Ipc.{IpcError, TryRecvError, RealReceiver, IpcReceiver}

module _ {B I : Type 0} where
  unfoldable pub ipc_error_to_recorded_event : IpcError B I → IpcErrorVariants
  ipc_error_to_recorded_event (IpcError.bincode _) = IpcErrorVariants.bincode
  ipc_error_to_recorded_event (IpcError.io _) = IpcErrorVariants.io
  ipc_error_to_recorded_event IpcError.disconnected = IpcErrorVariants.disconnected

-- `bincode_error` and `io_error` make errors of a text, `ErrorKind::Custom` and
-- `io::Error::new(ErrorKind::Other, …)`.
module _ {B I : Type 0} (bincode_error : String → B) (io_error : String → I) where
  unfoldable pub recorded_event_to_ipc_error : IpcErrorVariants → IpcError B I
  recorded_event_to_ipc_error IpcErrorVariants.disconnected = IpcError.disconnected
  recorded_event_to_ipc_error IpcErrorVariants.io = IpcError.io (io_error "Unknown IpcError::IO")
  recorded_event_to_ipc_error IpcErrorVariants.bincode =
      IpcError.bincode (bincode_error "Unknown IpcError::Bincode")

  see_recv : TivoEvent → Seen (IpcError B I)
  see_recv (ipc_recv_succ s) = Seen.succ s
  see_recv (TivoEvent.ipc_error v) = Seen.error (recorded_event_to_ipc_error v)
  see_recv _ = Seen.other

  see_try_recv : TivoEvent → Seen (TryRecvError B I)
  see_try_recv (ipc_recv_succ s) = Seen.succ s
  see_try_recv (ipc_try_recv_ipc_error v) =
      Seen.error (TryRecvError.ipc_error (recorded_event_to_ipc_error v))
  see_try_recv ipc_try_recv_error_empty = Seen.error TryRecvError.empty
  see_try_recv _ = Seen.other

  err_event_try_recv : TryRecvError B I → TivoEvent
  err_event_try_recv TryRecvError.empty = ipc_try_recv_error_empty
  err_event_try_recv (TryRecvError.ipc_error e) =
      ipc_try_recv_ipc_error (ipc_error_to_recorded_event e)

  -- `impl RecvRecordReplay<T, IpcError> for IpcReceiver<T>`, with the patterns of its checker.
  unfoldable pub recv_variants : Variants (IpcError B I)
  unfolding see_recv
  recv_variants = record {
    succ_event = ipc_recv_succ;
    err_event = λ e. TivoEvent.ipc_error (ipc_error_to_recorded_event e);
    see = see_recv;
  }

  -- `impl RecvRecordReplay<T, TryRecvError> for IpcReceiver<T>`
  unfoldable pub try_recv_variants : Variants (TryRecvError B I)
  unfolding see_try_recv err_event_try_recv
  try_recv_variants = record {
    succ_event = ipc_recv_succ;
    err_event = err_event_try_recv;
    see = see_try_recv;
  }

-- The rounds of `rr_try_recv`, and the milliseconds of sleep after one.
abbrev pub attempts : ℕ
attempts = 10

abbrev pub pause : ℕ
pause = 100

-- The body of the loop of `rr_try_recv`: a message ends it, and any error is waited out.
pub or_retry :
    {C M X : Type 0} → Result M X × C → (C → Result M RecvErrorRr × C) → Result M RecvErrorRr × C
or_retry (ok v, c) again = (ok v, c)
or_retry (err _, c) again = again c

module _ {C T B I : Type 0} (real : RealReceiver C (DetMessage T) B I) where
  -- The loop of `rr_try_recv`.
  unfoldable pub try_rounds : ℕ → C → Result (DetMessage T) RecvErrorRr × C
  unfolding or_retry
  try_rounds zero c = (err RecvErrorRr.timeout, c)
  try_rounds (suc n) c = or_retry (real.try_recv c) (λ c'. try_rounds n (real.sleep pause c'))

  unfoldable pub rr_try_recv : {Q : Type 0} → C → Call Q (Result (DetMessage T) RecvErrorRr × C)
  rr_try_recv c = pure (try_rounds attempts c)

-- `fuel` bounds the messages that a replay takes off the channel in search of one.
module _ {Q C T B I : Type 0} (real : RealReceiver C (DetMessage T) B I) (fuel : ℕ) where
  unfoldable pub replay_recv :
      DetThreadId → Endpoint C T → Call Q (Result T DesyncError × Endpoint C T)
  replay_recv sender r = recv_expected_message (rr_try_recv real) fuel sender r

module _ {Q C T B I : Type 0} ⦃q : LogQueue Q⦄ (bincode_error : String → B) (io_error : String → I)
    (real : RealReceiver C (DetMessage T) B I) (fuel : ℕ) where
  abbrev pub method :
      {E : Type 0}
      → Variants E
      → (C → Call Q (Result (DetMessage T) E × C))
      → IpcReceiver C T
      → Call Q (Result T E × IpcReceiver C T)
  method v f r = do
    (received, endpoint) ←
        recv_with (impl_recvrr v (replay_recv real fuel)) r.mode r.metadata f r.endpoint
    pure (received, record r { endpoint = endpoint })

  unfoldable pub recv : IpcReceiver C T → Call Q (Result T (IpcError B I) × IpcReceiver C T)
  recv = method (recv_variants bincode_error io_error) (λ c. lift (real.recv c))

  unfoldable pub try_recv : IpcReceiver C T → Call Q (Result T (TryRecvError B I) × IpcReceiver C T)
  try_recv = method (try_recv_variants bincode_error io_error) (λ c. pure (real.try_recv c))
