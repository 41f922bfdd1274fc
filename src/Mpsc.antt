-- ===== src/Mpsc.antt =====
-- mpsc.rs: the wrapped sender and receiver of std::sync::mpsc channels.
pub mod Receive
pub mod Create
pub mod Fifo
pub mod Laws
use rr_channel.Prelude.{ℕ, String, Result, ok, err, Outcome, pure, ◌>>=◌, ◌>>◌, []}
use rr_channel.DetThread.Id.{DetThreadId}
use rr_channel.DetThread.Tls.{generate_new_unique_channel_id}
use rr_channel.Event.{
  TivoEvent, ChannelVariant, mpsc_bounded, mpsc_unbounded, mpsc_sender, DetChannelId, RecvError,
  TryRecvError, RecvTimeoutError, mpsc_recv_succ, mpsc_recv_err, mpsc_try_recv_succ,
  mpsc_try_recv_err, mpsc_recv_timeout_succ, mpsc_recv_timeout_err,
}
use rr_channel.Error.{DesyncError, RecvErrorRr, from_recv_timeout}
use rr_channel.RecordLog.{RecordMetadata, LogQueue}
use rr_channel.World.{Call, RrMode}
use rr_channel.Checker.{Checker}
use rr_channel.Recorder.{create_or_panic, get_rr_mode}
use rr_channel.Desync.{DetMessage, Endpoint}
use rr_channel.Rr.{SendRecordReplay, recv_expected_message}
use rr_channel.Channel.{
  RealReceiver, RealSender, lift, Variants, Seen, impl_recvrr, recv_with, send_with,
}

-- `RealReceiver<T>`; `C` is `mpsc::Receiver`.
pub data ReceiverKind (C : Type 0) : Type 0 where
  bounded unbounded : C → ReceiverKind C

-- `RealSender<T>`; `B` is `mpsc::SyncSender` and `U` is `mpsc::Sender`.
pub data SenderKind (B U : Type 0) : Type 0 where
  bounded : B → SenderKind B U
  unbounded : U → SenderKind B U

pub record Sender (B U : Type 0) : Type 0 where
  pub sender : SenderKind B U
  pub metadata : RecordMetadata
  pub mode : RrMode

pub record Receiver (C T : Type 0) : Type 0 where
  pub endpoint : Endpoint (ReceiverKind C) T
  pub open endpoint use *
  pub metadata : RecordMetadata
  pub mode : RrMode

-- `impl RecordEventChecker<mpsc::SendError<T>> for Sender<T>`
unfoldable pub check_sender : {Q : Type 0} → Checker Q
check_sender mpsc_sender = pure (ok tt)
check_sender _ = pure (err mpsc_sender)

-- A refused message, without the id that went with it.
unsent : {T : Type 0} → Result (Unit {0}) (DetMessage T) → Result (Unit {0}) T
unsent (ok u) = ok u
unsent (err m) = err m.1

module _ {Q B U T : Type 0} (real_b : RealSender B (DetMessage T))
    (real_u : RealSender U (DetMessage T)) where
  -- `RealSender::send`
  kind_send : DetMessage T → SenderKind B U → Call Q (Result (Unit {0}) T × SenderKind B U)
  kind_send t (SenderKind.bounded s) = do
    (sent, s') ← lift (real_b.send t s)
    pure (unsent sent, SenderKind.bounded s')
  kind_send t (SenderKind.unbounded s) = do
    (sent, s') ← lift (real_u.send t s)
    pure (unsent sent, SenderKind.unbounded s')

  -- `impl SendRecordReplay<T, mpsc::SendError<T>> for Sender<T>`
  unfoldable pub send_impl : SendRecordReplay Q (SenderKind B U) T T
  unfolding check_sender unsent kind_send
  send_impl = record {
    check_recorded_event = check_sender;
    event_variant = mpsc_sender;
    underlying_send = λ thread_id msg s. kind_send (thread_id, msg) s;
  }

  unfoldable pub send :
      ⦃q : LogQueue Q⦄ → T → Sender B U → Call Q (Result (Unit {0}) T × Sender B U)
  unfolding send_impl
  send msg s = do
    (sent, sender) ← send_with send_impl s.mode s.metadata msg s.sender
    pure (sent, record s { sender = sender })

-- `impl Clone for Sender<T>`, which only warns of a bounded channel; `clone_real` is the clone of the
-- real sender.
unfoldable pub clone_sender :
    {B U : Type 0} → (SenderKind B U → SenderKind B U) → Sender B U → Sender B U
clone_sender clone_real s = record s { sender = clone_real s.sender }

unfoldable pub get_marker : {C : Type 0} → ReceiverKind C → ChannelVariant
get_marker (ReceiverKind.unbounded _) = mpsc_unbounded
get_marker (ReceiverKind.bounded _) = mpsc_bounded

-- `Receiver::new`; `type_name` is `type_name::<T>()`.
unfoldable pub new_receiver :
    {C T : Type 0} → String → RrMode → ReceiverKind C → DetChannelId → Receiver C T
new_receiver type_name mode real_receiver id = record {
  endpoint = record { buffer = []; channel = real_receiver };
  metadata = record { type_name = type_name; channel_variant = get_marker real_receiver; id = id };
  mode = mode;
}
