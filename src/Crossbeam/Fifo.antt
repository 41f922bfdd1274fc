-- ===== src/Crossbeam/Fifo.antt =====
-- What a replay uses of a real crossbeam channel, and that the three templates fit their events.
use rr_channel.Prelude.{ℕ, ◌≡◌, refl, List, [], ◌∷◌, ok, err, returns}
use rr_channel.DetThread.Id.{id_eq}
use rr_channel.Event.{RecvTimeoutError}
use rr_channel.Error.{RecvErrorRr, from_recv_timeout}
use rr_channel.World.{World}
use rr_channel.Desync.{DetMessage}
use rr_channel.Rr.Pending.{IsFifo}
use rr_channel.Channel.{RealReceiver}
use rr_channel.Channel.Steps.{Recognises}
use rr_channel.Crossbeam.{ChannelKind, after, bounded, never, unbounded}
use rr_channel.Crossbeam.Receive.{
  recv_variants, try_recv_variants, recv_timeout_variants, kind_recv_timeout, poll, replay_timeout,
}

pub recv_variants-Recognises : Recognises recv_variants
unfolding recv_variants
recv_variants-Recognises = record { see-succ_event = λ s. refl; see-err_event = λ e. refl }

pub try_recv_variants-Recognises : Recognises try_recv_variants
unfolding try_recv_variants
try_recv_variants-Recognises = record { see-succ_event = λ s. refl; see-err_event = λ e. refl }

pub recv_timeout_variants-Recognises : Recognises recv_timeout_variants
unfolding recv_timeout_variants
recv_timeout_variants-Recognises = record { see-succ_event = λ s. refl; see-err_event = λ e. refl }

-- What the documentation of the real channel promises of `recv_timeout`: messages in the order of
-- their arrival, then an error.
pub record IsFifoChannel {C T : Type 0} (real : RealReceiver C (DetMessage T)) : Type 0 where
  pub arrivals : C → List (DetMessage T)
  pub on_message :
      (d : ℕ) (c : C) (m : DetMessage T) (ms : List (DetMessage T))
      → arrivals c ≡ m ∷ ms
      → (c' : C) × (real.recv_timeout d c ≡ (ok m, c')) × (arrivals c' ≡ ms)
  pub on_empty :
      (d : ℕ) (c : C)
      → arrivals c ≡ []
      → (e : RecvTimeoutError) × (c' : C) × (real.recv_timeout d c ≡ (err e, c'))
        × (arrivals c' ≡ [])

-- Every kind of channel but that of `after`.
abbrev pub IsMessages : {A C : Type 0} → ChannelKind A C → Type 0
IsMessages (after _) = ⊥
IsMessages _ = Unit

abbrev pub kind_arrivals :
    {A C T : Type 0} {real : RealReceiver C (DetMessage T)}
    → IsFifoChannel real
    → ChannelKind A C
    → List (DetMessage T)
kind_arrivals fifo (after _) = []
kind_arrivals fifo (bounded c) = fifo.arrivals c
kind_arrivals fifo (never c) = fifo.arrivals c
kind_arrivals fifo (unbounded c) = fifo.arrivals c

module _ {Q A C T : Type 0} (timer : RealReceiver A T) (real : RealReceiver C (DetMessage T))
    (fifo : IsFifoChannel real) where
  pub poll-on_message :
      (k : ChannelKind A C) (m : DetMessage T) (ms : List (DetMessage T))
      → IsMessages k
      → kind_arrivals fifo k ≡ m ∷ ms
      → (w : World Q)
      → (k' : ChannelKind A C) × (poll {Q = Q} timer real k w ≡ returns ((ok m, k'), w))
        × IsMessages k'
        × (kind_arrivals fifo k' ≡ ms)
  unfolding poll kind_recv_timeout
  poll-on_message (after _) m ms r a w = absurd r
  poll-on_message (bounded c) m ms r a w =
      let (c', p, b) = fifo.on_message replay_timeout c m ms a in (bounded c', rw p, tt, b)
  poll-on_message (never c) m ms r a w =
      let (c', p, b) = fifo.on_message replay_timeout c m ms a in (never c', rw p, tt, b)
  poll-on_message (unbounded c) m ms r a w =
      let (c', p, b) = fifo.on_message replay_timeout c m ms a in (unbounded c', rw p, tt, b)

  pub poll-on_empty :
      (k : ChannelKind A C)
      → IsMessages k
      → kind_arrivals fifo k ≡ []
      → (w : World Q)
      → (e : RecvErrorRr) × (k' : ChannelKind A C) × (poll {Q = Q} timer real k w
          ≡ returns ((err e, k'), w))
        × IsMessages k'
        × (kind_arrivals fifo k' ≡ [])
  unfolding poll kind_recv_timeout
  poll-on_empty (after _) r a w = absurd r
  poll-on_empty (bounded c) r a w =
      let (e, c', p, b) = fifo.on_empty replay_timeout c a in
      (from_recv_timeout e, bounded c', rw p, tt, b)
  poll-on_empty (never c) r a w =
      let (e, c', p, b) = fifo.on_empty replay_timeout c a in
      (from_recv_timeout e, never c', rw p, tt, b)
  poll-on_empty (unbounded c) r a w =
      let (e, c', p, b) = fifo.on_empty replay_timeout c a in
      (from_recv_timeout e, unbounded c', rw p, tt, b)

  abbrev pub poll_fifo : IsFifo {Q = Q} (poll timer real)
  poll_fifo = record {
    IsReady = IsMessages;
    arrivals = kind_arrivals fifo;
    on_message = poll-on_message;
    on_empty = poll-on_empty;
  }
