-- ===== src/Mpsc/Fifo.antt =====
-- What a replay uses of a real standard channel, and that the templates fit their events.
use rr_channel.Prelude.{◌≡◌, refl, List, [], ◌∷◌, ok, err, returns}
use rr_channel.DetThread.Id.{id_eq}
use rr_channel.Error.{RecvErrorRr, from_recv_timeout}
use rr_channel.World.{World}
use rr_channel.Desync.{DetMessage}
use rr_channel.Rr.Pending.{IsFifo}
use rr_channel.Channel.{RealReceiver}
use rr_channel.Channel.Steps.{Recognises}
use rr_channel.Crossbeam.Fifo.{IsFifoChannel}
use rr_channel.Mpsc.{ReceiverKind}
use rr_channel.Mpsc.Receive.{
  recv_variants, try_recv_variants, recv_timeout_variants, kind_recv_timeout, poll,
}

pub recv_variants-Recognises : Recognises recv_variants
unfolding recv_variants
recv_variants-Recognises = record { see-succ_event = λ s. refl; see-err_event = λ e. refl }

pub try_recv_variants-Recognises : Recognises try_recv_variants
unfolding try_recv_variants
try_recv_variants-Recognises = record { see-succ_event = λ s. refl; see-err_event = λ e. refl }

pub recv_timeout_variants-Recognises : Recognises recv_timeout_variants
unfolding recv_timeout_variants
recv_timeout_variants-Recognises = record { see-succ_event = λ s. refl; see-err_event = λ e. refl }

abbrev pub kind_arrivals :
    {C T : Type 0} {real : RealReceiver C (DetMessage T)}
    → IsFifoChannel real
    → ReceiverKind C
    → List (DetMessage T)
kind_arrivals fifo (ReceiverKind.bounded c) = fifo.arrivals c
kind_arrivals fifo (ReceiverKind.unbounded c) = fifo.arrivals c

module _ {Q C T : Type 0} (real : RealReceiver C (DetMessage T)) (fifo : IsFifoChannel real) where
  pub poll-on_message :
      (k : ReceiverKind C) (m : DetMessage T) (ms : List (DetMessage T))
      → Unit {0}
      → kind_arrivals fifo k ≡ m ∷ ms
      → (w : World Q)
      → (k' : ReceiverKind C) × (poll {Q = Q} real k w ≡ returns ((ok m, k'), w))
        × Unit {0}
        × (kind_arrivals fifo k' ≡ ms)
  unfolding poll kind_recv_timeout
  poll-on_message (ReceiverKind.bounded c) m ms _ a w =
      let (c', p, b) = fifo.on_message 1000 c m ms a in (ReceiverKind.bounded c', rw p, tt, b)
  poll-on_message (ReceiverKind.unbounded c) m ms _ a w =
      let (c', p, b) = fifo.on_message 1000 c m ms a in (ReceiverKind.unbounded c', rw p, tt, b)

  pub poll-on_empty :
      (k : ReceiverKind C)
      → Unit {0}
      → kind_arrivals fifo k ≡ []
      → (w : World Q)
      → (e : RecvErrorRr) × (k' : ReceiverKind C) × (poll {Q = Q} real k w
          ≡ returns ((err e, k'), w))
        × Unit {0}
        × (kind_arrivals fifo k' ≡ [])
  unfolding poll kind_recv_timeout
  poll-on_empty (ReceiverKind.bounded c) _ a w =
      let (e, c', p, b) = fifo.on_empty 1000 c a in
      (from_recv_timeout e, ReceiverKind.bounded c', rw p, tt, b)
  poll-on_empty (ReceiverKind.unbounded c) _ a w =
      let (e, c', p, b) = fifo.on_empty 1000 c a in
      (from_recv_timeout e, ReceiverKind.unbounded c', rw p, tt, b)

  abbrev pub poll_fifo : IsFifo {Q = Q} (poll real)
  poll_fifo = record {
    IsReady = λ _. Unit;
    arrivals = kind_arrivals fifo;
    on_message = poll-on_message;
    on_empty = poll-on_empty;
  }
