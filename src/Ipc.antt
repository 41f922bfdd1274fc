-- ===== src/Ipc.antt =====
-- ipc_channel/mod.rs: the wrapped sender and receiver of inter-process channels.
pub mod Receive
pub mod Create
pub mod Fifo
pub mod Retold
pub mod RoundTrip
pub mod Set
use rr_channel.Prelude.{ℕ, String, Bool, false, Result, ok, err, Outcome, pure, ◌>>=◌, []}
use rr_channel.DetThread.Id.{DetThreadId}
use rr_channel.Event.{TivoEvent, ipc_sender, ipc, DetChannelId, IpcErrorVariants}
use rr_channel.RecordLog.{RecordMetadata, LogQueue}
use rr_channel.World.{Call, RrMode}
use rr_channel.Checker.{Checker}
use rr_channel.Recorder.{get_rr_mode}
use rr_channel.Desync.{DetMessage, Endpoint}
use rr_channel.Rr.{SendRecordReplay}
use rr_channel.Channel.{lift, send_with}

-- ipc_channel's `IpcError`, whose payloads are `B` and `I`, and its `TryRecvError`.
pub data IpcError (B I : Type 0) : Type 0 where
  bincode : B → IpcError B I
  io : I → IpcError B I
  disconnected : IpcError B I

pub data TryRecvError (B I : Type 0) : Type 0 where
  ipc_error : IpcError B I → TryRecvError B I
  empty : TryRecvError B I

-- What is used of ipc_channel's `IpcReceiver`. `sleep` is what happens to it while the thread sleeps
-- for some milliseconds.
pub record RealReceiver (C M B I : Type 0) : Type 0 where
  pub recv : C → Outcome (Result M (IpcError B I) × C)
  pub try_recv : C → Result M (TryRecvError B I) × C
  pub sleep : ℕ → C → C

-- ipc_channel's `IpcSender`, whose error is `E`.
pub record RealSender (S M E : Type 0) : Type 0 where
  pub send : M → S → Outcome (Result (Unit {0}) E × S)

pub record IpcReceiver (C T : Type 0) : Type 0 where
  pub endpoint : Endpoint C T
  pub open endpoint use *
  pub metadata : RecordMetadata
  pub mode : RrMode

pub record IpcSender (S : Type 0) : Type 0 where
  pub sender : S
  pub metadata : RecordMetadata
  pub mode : RrMode

-- `IpcSender::new`
abbrev pub new_ipc_sender : {S : Type 0} → S → RecordMetadata → RrMode → IpcSender S
new_ipc_sender sender metadata mode = record { sender = sender; metadata = metadata; mode = mode }

-- A receiver whose message type is forgotten; `K` is ipc_channel's. `closed` is whether a replay has
-- seen it closed.
pub record OpaqueIpcReceiver (K : Type 0) : Type 0 where
  pub opaque_receiver : K
  pub metadata : RecordMetadata
  pub closed : Bool

-- `IpcReceiver::new`; `type_name` is `type_name::<T>()`.
unfoldable pub new_receiver : {C T : Type 0} → String → C → DetChannelId → RrMode → IpcReceiver C T
new_receiver type_name receiver id mode = record {
  endpoint = record { buffer = []; channel = receiver };
  metadata = record { type_name = type_name; channel_variant = ipc; id = id };
  mode = mode;
}

-- `IpcReceiver::to_opaque`, given the real one.
unfoldable pub to_opaque : {C K T : Type 0} → (C → K) → IpcReceiver C T → OpaqueIpcReceiver K
to_opaque real_to_opaque r = record {
  opaque_receiver = real_to_opaque r.channel;
  metadata = r.metadata;
  closed = false;
}

-- `impl RecordEventChecker<Error> for IpcSender<T>`
unfoldable pub check_sender : {Q : Type 0} → Checker Q
check_sender ipc_sender = pure (ok tt)
check_sender _ = pure (err ipc_sender)

module _ {Q S T E : Type 0} (real : RealSender S (DetMessage T) E) where
  -- `impl SendRecordReplay<T, Error> for IpcSender<T>`
  unfoldable pub send_impl : SendRecordReplay Q S T E
  unfolding check_sender
  send_impl = record {
    check_recorded_event = check_sender;
    event_variant = ipc_sender;
    underlying_send = λ thread_id msg s. lift (real.send (thread_id, msg) s);
  }

  unfoldable pub send :
      ⦃q : LogQueue Q⦄ → T → IpcSender S → Call Q (Result (Unit {0}) E × IpcSender S)
  unfolding send_impl
  send msg s = do
    (sent, sender) ← send_with send_impl s.mode s.metadata msg s.sender
    pure (sent, record s { sender = sender })

-- `impl Clone for IpcSender<T>`; `clone_real` is the clone of the real sender.
unfoldable pub clone_sender : {Q S : Type 0} → (S → S) → IpcSender S → Call Q (IpcSender S)
clone_sender clone_real s = do
  mode ← get_rr_mode
  pure (record s { sender = clone_real s.sender; mode = mode })
