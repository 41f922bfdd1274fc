-- ===== src/System.antt =====
-- The whole of a program: its threads take turns, in any order, at sends and receives on crossbeam
-- channels that they share. The calls are those of crossbeam_channel.rs.
pub mod Machine
pub mod Fair
pub mod Effect
pub mod Commute
pub mod Progress
pub mod Follows
pub mod Turns
pub mod Replay
pub mod Recording
pub mod Views
pub mod Trace
pub mod Record
pub mod RoundTrip
use rr_channel.Prelude.{
  ℕ, List, [], ◌∷◌, Result, Outcome, returns, panics, hangs, out_of_fuel, nat_eq, ◌==◌,
  if◌then◌else◌,
}
use rr_channel.Event.{RecvError}
use rr_channel.RecordLog.{RecordMetadata, LogQueue}
use rr_channel.World.{World, Thread, Call, RrMode}
use rr_channel.Desync.{DetMessage, Endpoint}
use rr_channel.Channel.{RealReceiver, RealSender}
use rr_channel.Crossbeam.{ChannelKind, Sender, Receiver, send}
use rr_channel.Crossbeam.Receive.{recv}

-- What a thread does: it stops, or sends to or receives from the channel with a number, and goes on
-- by the answer.
pub data Program (T : Type 0) : Type 0 where
  stop : Program T
  sending : ℕ → T → (Result (Unit {0}) T → Program T) → Program T
  receiving : ℕ → (Result T RecvError → Program T) → Program T

-- `shared` has the statics of the process; its thread-locals are not looked at. Both ends of a real
-- channel are views of one channel.
pub record System (Q A C T : Type 0) : Type 0 where
  pub shared : World Q
  pub threads : ℕ → Thread
  pub programs : ℕ → Program T
  pub channels : ℕ → Endpoint (ChannelKind A C) T

abbrev pub update : {V : Type 0} → (ℕ → V) → ℕ → V → ℕ → V
update f i v j = if i == j then v else f j

-- The world that thread `i` sees.
abbrev pub world_of : {Q A C T : Type 0} → System Q A C T → ℕ → World Q
world_of s i = record s.shared { thread = s.threads i }

-- After a call of thread `i` on channel `c`.
abbrev pub after_call :
    {Q A C T : Type 0}
    → System Q A C T
    → ℕ
    → ℕ
    → World Q
    → Program T
    → Endpoint (ChannelKind A C) T
    → System Q A C T
after_call s i c w p e = record {
  shared = w;
  threads = update s.threads i w.thread;
  programs = update s.programs i p;
  channels = update s.channels c e;
}

module _ {Q A C T : Type 0} ⦃q : LogQueue Q⦄ (timer : RealReceiver A T)
    (real : RealReceiver C (DetMessage T)) (real_send : RealSender (ChannelKind A C) (DetMessage T))
    (fuel : ℕ) (md : ℕ → RecordMetadata) (mode : RrMode) where
  abbrev sender_at : System Q A C T → ℕ → Sender (ChannelKind A C)
  sender_at s c = record { sender = (s.channels c).channel; metadata = md c; mode = mode }

  abbrev receiver_at : System Q A C T → ℕ → Receiver A C T
  receiver_at s c = record { endpoint = s.channels c; metadata = md c; mode = mode }

  unfoldable pub take_turn : ℕ → Program T → System Q A C T → Outcome (System Q A C T)
  take_turn i stop s = returns s
  take_turn i (sending c v k) s = elim (send real_send v (sender_at s c) (world_of s i)) [
    | returns ((sent, sender), w) ↦
        returns (after_call s i c w (k sent) (record (s.channels c) { channel = sender.sender }))
    | panics ↦ panics
    | hangs ↦ hangs
    | out_of_fuel ↦ out_of_fuel
  ]
  take_turn i (receiving c k) s = elim (recv timer real fuel (receiver_at s c) (world_of s i)) [
    | returns ((received, receiver), w) ↦
        returns (after_call s i c w (k received) receiver.endpoint)
    | panics ↦ panics
    | hangs ↦ hangs
    | out_of_fuel ↦ out_of_fuel
  ]

  -- The threads take turns in this order.
  unfoldable pub run_turns : List ℕ → System Q A C T → Outcome (System Q A C T)
  unfolding take_turn
  run_turns [] s = returns s
  run_turns (i ∷ turns) s = elim (take_turn i (s.programs i) s) [
    | returns s' ↦ run_turns turns s'
    | panics ↦ panics
    | hangs ↦ hangs
    | out_of_fuel ↦ out_of_fuel
  ]
