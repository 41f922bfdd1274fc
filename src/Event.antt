-- ===== src/Event.antt =====
-- recordlog.rs, error.rs and rr.rs: the events of a log and what identifies a channel.
use rr_channel.Prelude.{
  ℕ, ◌≡◌, ap, ◌↔◌, Bool, true, ◌&&◌, List, arith, PartialEq, ◌==◌, nat_eq, nat_beq_iff,
}
use rr_channel.DetThread.Id.{DetThreadId, id_beq_iff, id_eq}

pub record DetChannelId : Type 0 where
  pub det_thread_id : DetThreadId
  pub channel_id : ℕ

pub data ChannelVariant : Type 0 where
  mpsc_bounded mpsc_unbounded cb_unbounded cb_select cb_after cb_bounded cb_never : ChannelVariant
  no_variant ipc ipc_select select : ChannelVariant

-- The errors that crossbeam_channel and std::sync::mpsc return, as error.rs repeats them for serde.
-- The two crates' types have the same constructors, and one type here stands for both.
pub data RecvError : Type 0 where
  recv_error : RecvError

pub data TryRecvError : Type 0 where
  empty disconnected : TryRecvError

pub data RecvTimeoutError : Type 0 where
  timeout disconnected : RecvTimeoutError

pub data SelectEvent : Type 0 where
  success : (sender_thread : DetThreadId) (selected_index : ℕ) → SelectEvent
  recv_error : (selected_index : ℕ) → SelectEvent

pub data IpcSelectEvent : Type 0 where
  message_received : ℕ → DetThreadId → IpcSelectEvent
  channel_closed : ℕ → IpcSelectEvent

pub data IpcErrorVariants : Type 0 where
  bincode io disconnected : IpcErrorVariants

pub data TivoEvent : Type 0 where
  crossbeam_sender : TivoEvent
  crossbeam_recv_succ : (sender_thread : DetThreadId) → TivoEvent
  crossbeam_recv_err : RecvError → TivoEvent
  crossbeam_select_ready : (select_index : ℕ) → TivoEvent
  crossbeam_select : SelectEvent → TivoEvent
  crossbeam_select_add : ℕ → TivoEvent
  crossbeam_recv_timeout_succ : (sender_thread : DetThreadId) → TivoEvent
  crossbeam_recv_timeout_err : RecvTimeoutError → TivoEvent
  crossbeam_try_recv_succ : (sender_thread : DetThreadId) → TivoEvent
  crossbeam_try_recv_err : TryRecvError → TivoEvent
  mpsc_recv_timeout_succ : (sender_thread : DetThreadId) → TivoEvent
  mpsc_recv_succ : (sender_thread : DetThreadId) → TivoEvent
  mpsc_recv_err : RecvError → TivoEvent
  mpsc_sender : TivoEvent
  mpsc_try_recv_succ : (sender_thread : DetThreadId) → TivoEvent
  mpsc_try_recv_err : TryRecvError → TivoEvent
  mpsc_recv_timeout_err : RecvTimeoutError → TivoEvent
  ipc_recv_succ : (sender_thread : DetThreadId) → TivoEvent
  ipc_error : IpcErrorVariants → TivoEvent
  ipc_try_recv_error_empty : TivoEvent
  ipc_try_recv_ipc_error : IpcErrorVariants → TivoEvent
  ipc_sender : TivoEvent
  ipc_select_add : ℕ → TivoEvent
  ipc_select : (select_events : List IpcSelectEvent) → TivoEvent
  thread_initialized : DetThreadId → TivoEvent
  channel_creation : TivoEvent

-- The derived `PartialEq` of an enum without fields compares the discriminants.
discriminant : ChannelVariant → ℕ
discriminant mpsc_bounded = 0
discriminant mpsc_unbounded = 1
discriminant cb_unbounded = 2
discriminant cb_select = 3
discriminant cb_after = 4
discriminant cb_bounded = 5
discriminant cb_never = 6
discriminant no_variant = 7
discriminant ipc = 8
discriminant ipc_select = 9
discriminant select = 10

pub variant_beq : ChannelVariant → ChannelVariant → Bool
unfolding discriminant
variant_beq a b = discriminant a == discriminant b

pub channel_id_beq : DetChannelId → DetChannelId → Bool
channel_id_beq a b = (a.det_thread_id == b.det_thread_id) && (a.channel_id == b.channel_id)

module _ (b : ChannelVariant) where
  discriminant-injective : (a : ChannelVariant) → discriminant a ≡ discriminant b → a ≡ b
  unfolding discriminant
  discriminant-injective mpsc_bounded h = ground arith
  discriminant-injective a h = ground arith

pub variant_beq_iff : (a b : ChannelVariant) → (variant_beq a b ≡ true) ↔ (a ≡ b)
unfolding variant_beq
variant_beq_iff a b = (
  λ h. discriminant-injective b a ((nat_beq_iff _ _).0 h),
  λ h. (nat_beq_iff _ _).1 (ap discriminant h),
)

pub channel_id_beq_iff : (a b : DetChannelId) → (channel_id_beq a b ≡ true) ↔ (a ≡ b)
unfolding channel_id_beq
channel_id_beq_iff a b =
    ground
      (arith, id_beq_iff a.det_thread_id b.det_thread_id, nat_beq_iff a.channel_id b.channel_id)

instance abbrev pub variant_eq : PartialEq ChannelVariant
variant_eq = record { test = variant_beq; test_iff = variant_beq_iff }

instance abbrev pub channel_id_eq : PartialEq DetChannelId
channel_id_eq = record { test = channel_id_beq; test_iff = channel_id_beq_iff }
