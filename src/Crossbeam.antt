-- ===== src/Crossbeam.antt =====
-- crossbeam_channel.rs: the wrapped sender and receiver of crossbeam channels.
pub mod Receive
pub mod Fifo
pub mod Program
pub mod Record
pub mod Replay
pub mod RoundTrip
pub mod Create
pub mod Polling
use rr_channel.Prelude.{
  ℕ, String, Bool, Result, ok, err, Outcome, pure, panic, ◌>>=◌, ◌>>◌, ◌==◌, if◌then◌else◌, [],
}
use rr_channel.DetThread.Id.{DetThreadId}
use rr_channel.DetThread.Tls.{get_det_id}
use rr_channel.Event.{
  TivoEvent, ChannelVariant, cb_unbounded, cb_after, cb_bounded, cb_never, crossbeam_sender,
  DetChannelId, variant_eq,
}
use rr_channel.RecordLog.{RecordMetadata, LogQueue}
use rr_channel.World.{Call, RrMode}
use rr_channel.Checker.{Checker}
use rr_channel.Desync.{DetMessage, Endpoint}
use rr_channel.Rr.{SendRecordReplay}
use rr_channel.Channel.{RealReceiver, RealSender, lift, send_with}

-- `A` is the real receiver of `after`, which carries bare values; `C` that of all other channels.
pub data ChannelKind (A C : Type 0) : Type 0 where
  after : A → ChannelKind A C
  bounded never unbounded : C → ChannelKind A C

pub record Sender (S : Type 0) : Type 0 where
  pub sender : S
  pub metadata : RecordMetadata
  pub mode : RrMode

-- `Sender::new`
abbrev pub new_sender : {S : Type 0} → S → RecordMetadata → RrMode → Sender S
new_sender real_sender metadata mode = record {
  sender = real_sender;
  metadata = metadata;
  mode = mode;
}

pub record Receiver (A C T : Type 0) : Type 0 where
  pub endpoint : Endpoint (ChannelKind A C) T
  pub open endpoint use *
  pub metadata : RecordMetadata
  pub mode : RrMode

-- `impl RecordEventChecker<rc::SendError<T>> for Sender<T>`
unfoldable pub check_sender : {Q : Type 0} → Checker Q
check_sender crossbeam_sender = pure (ok tt)
check_sender _ = pure (err crossbeam_sender)

-- A refused message, without the id that went with it.
unsent : {T : Type 0} → Result (Unit {0}) (DetMessage T) → Result (Unit {0}) T
unsent (ok u) = ok u
unsent (err m) = err m.1

module _ {Q S T : Type 0} (real : RealSender S (DetMessage T)) where
  -- `impl SendRecordReplay<T, rc::SendError<T>> for Sender<T>`
  unfoldable pub send_impl : SendRecordReplay Q S T T
  unfolding check_sender unsent
  send_impl = record {
    check_recorded_event = check_sender;
    event_variant = crossbeam_sender;
    underlying_send = λ thread_id msg s. do
      (sent, s') ← lift (real.send (thread_id, msg) s)
      pure (unsent sent, s');
  }

  unfoldable pub send : ⦃q : LogQueue Q⦄ → T → Sender S → Call Q (Result (Unit {0}) T × Sender S)
  unfolding send_impl
  send msg s = do
    (sent, sender) ← send_with send_impl s.mode s.metadata msg s.sender
    pure (sent, record s { sender = sender })

-- `impl Clone for Sender<T>`; `clone_real` is the clone of the real sender.
unfoldable pub clone_sender : {Q S : Type 0} → (S → S) → Sender S → Call Q (Sender S)
clone_sender clone_real s =
    if s.metadata.channel_variant == cb_bounded
    then panic
    else pure (record s { sender = clone_real s.sender })

unfoldable pub get_marker : {A C : Type 0} → ChannelKind A C → ChannelVariant
get_marker (unbounded _) = cb_unbounded
get_marker (after _) = cb_after
get_marker (bounded _) = cb_bounded
get_marker (never _) = cb_never

-- `Receiver::new`; `type_name` is `type_name::<T>()`.
unfoldable pub new_receiver :
    {A C T : Type 0} → String → RrMode → ChannelKind A C → DetChannelId → Receiver A C T
new_receiver type_name mode real_receiver id = record {
  endpoint = record { buffer = []; channel = real_receiver };
  metadata = record { type_name = type_name; channel_variant = get_marker real_receiver; id = id };
  mode = mode;
}
