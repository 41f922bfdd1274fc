-- ===== src/Crossbeam/Polling.antt =====
-- crossbeam_channel.rs: what `poll_entry` says and leaves behind.
use rr_channel.Prelude.{
  ℕ, suc, ◌<◌, ◌≤◌, ◌≡◌, ◌≢◌, refl, sym, subst, ◌∙◌, inl, inr, true, false, List, [], ◌∷◌, arith,
  length, err, Outcome, returns, panics, Bool, Bool-cases, ◌==◌, ◌>>=◌, Result,
}
use rr_channel.Prelude.Map.Queues.{queue, push_back, queue-push_back, pop_front-Pops}
use rr_channel.DetThread.Id.{DetThreadId, id_eq, id_beq_iff}
use rr_channel.Event.{RecvTimeoutError}
use rr_channel.Error.{RecvErrorRr}
use rr_channel.World.{World, Call}
use rr_channel.Desync.{DetMessage, BufferedValues, Endpoint}
use rr_channel.Rr.{recv_loop, recv_expected_message}
use rr_channel.Rr.Pending.{IsFifo, pending, taken, missing, recv_expected_message-Receives}
use rr_channel.Channel.{RealReceiver}
use rr_channel.Crossbeam.{ChannelKind, unbounded}
use rr_channel.Crossbeam.Fifo.{IsFifoChannel, IsMessages, kind_arrivals, poll_fifo}
use rr_channel.Crossbeam.Receive.{poll, replay_recv, poll_entry, replay_timeout, kind_recv_timeout}
use rr_channel.Rr.Searches.{Ends, recv_expected_message-queue, recv_expected_message-Ends}

module _ {Q C T : Type 0} {receive : C → Call Q (Result (DetMessage T) RecvErrorRr × C)}
    (fifo : IsFifo receive) where
  -- Put back into the buffer, the message that a search has found waits as it did before.
  pending-put_back :
      (s i : DetThreadId) (r r' : Endpoint C T) (v : T)
      → queue r'.buffer s ≡ []
      → pending fifo r s ≡ v ∷ pending fifo r' s
      → ((j : DetThreadId) → (s == j) ≡ false → pending fifo r' j ≡ pending fifo r j)
      → pending fifo (record r' { buffer = push_back r'.buffer s v }) i ≡ pending fifo r i
  pending-put_back s i r r' v empty mine others = elim (Bool-cases (s == i)) [
    | inl h ↦
        subst
          (λ j. pending fifo (record r' { buffer = push_back r'.buffer s v }) j ≡ pending fifo r j)
          ((id_beq_iff s i).0 h)
          (rw (queue-push_back r'.buffer s s v, (id_beq_iff s s).1 refl, mine, empty) refl)
    | inr h ↦ rw (queue-push_back r'.buffer s i v, h) (others i h)
  ]

  -- Whether a sender has a message; nothing that waits is lost or reordered. A channel that times out
  -- before the message came is a `false`, and one that closes is a panic.
  pub data Polls (r : Endpoint C T) (s : DetThreadId) (w : World Q)
      (o : Outcome ((Bool × Endpoint C T) × World Q)) : Type 0 where
    present :
        (r' : Endpoint C T)
        → o ≡ returns ((true, r'), w)
        → queue r'.buffer s ≢ []
        → fifo.IsReady r'.channel
        → length (fifo.arrivals r'.channel) ≤ length (fifo.arrivals r.channel)
        → ((i : DetThreadId) → pending fifo r' i ≡ pending fifo r i)
        → Polls r s w o
    absent :
        (r' : Endpoint C T)
        → o ≡ returns ((false, r'), w)
        → pending fifo r s ≡ []
        → fifo.IsReady r'.channel
        → length (fifo.arrivals r'.channel) ≤ length (fifo.arrivals r.channel)
        → ((i : DetThreadId) → pending fifo r' i ≡ pending fifo r i)
        → Ends fifo w r.channel RecvErrorRr.timeout r'.channel
        → Polls r s w o
    closed :
        (c' : C)
        → o ≡ panics
        → pending fifo r s ≡ []
        → Ends fifo w r.channel RecvErrorRr.disconnected c'
        → Polls r s w o

module _ {Q A C T : Type 0} (timer : RealReceiver A T) (real : RealReceiver C (DetMessage T))
    (fifo : IsFifoChannel real) (fuel : ℕ) where
  queue_or_channel :
      (q : List T) (s : DetThreadId) (r : Endpoint (ChannelKind A C) T) (w : World Q)
      → queue r.buffer s ≡ q
      → IsMessages r.channel
      → length (kind_arrivals fifo r.channel) < fuel
      → Polls (poll_fifo timer real fifo) r s w (poll_entry timer real fuel s r w)
  unfolding poll_entry replay_recv
  queue_or_channel (v ∷ q) s r w e d lt =
      present r (rw (e, poll_entry) refl) (λ empty. cc (sym e ∙ empty)) d (omega arith) (λ i. refl)
  queue_or_channel [] s r w e d lt =
      elim (recv_expected_message-Receives (poll_fifo timer real fifo) fuel s r w d lt) [
        | taken v r' o d' n p others ↦
            let empty : queue r'.buffer s ≡ [] =
              recv_expected_message-queue (poll_fifo timer real fifo) fuel s r r' w v d lt e o in
            present (record r' { buffer = push_back r'.buffer s v })
              (rw (e, poll_entry) (rw (o, ◌>>=◌) refl))
              (λ none_left.
                ground (arith, none_left, queue-push_back r'.buffer s s v, id_beq_iff s s, empty))
              d' n
              (λ i. pending-put_back {Q = Q} (poll_fifo timer real fifo) s i r r' v empty p others)
        | missing RecvErrorRr.timeout r' o d' n p others ↦
            absent r' (rw (e, poll_entry) (rw (o, ◌>>=◌) refl)) p d' n others (
              recv_expected_message-Ends (poll_fifo timer real fifo) fuel s r r' w
                RecvErrorRr.timeout d lt e o)
        | missing RecvErrorRr.disconnected r' o d' n p others ↦
            closed r'.channel (rw (e, poll_entry) (rw (o, ◌>>=◌) refl)) p (
              recv_expected_message-Ends (poll_fifo timer real fifo) fuel s r r' w
                RecvErrorRr.disconnected d lt e o)
      ]

  -- On a channel that delivers its arrivals in order, with more fuel than there are arrivals,
  -- poll_entry answers true if the sender has a message, in the buffer or on its way, and then has
  -- it in the buffer. If the sender has none, it takes all arrivals off the channel, and answers
  -- false when the real channel then times out, and panics when that says instead that it is
  -- disconnected. Where it answers, the messages of every sender still wait in their order and the
  -- channel still delivers in order, with no more arrivals.
  pub poll_entry-Polls :
      (s : DetThreadId) (r : Endpoint (ChannelKind A C) T) (w : World Q)
      → IsMessages r.channel
      → length (kind_arrivals fifo r.channel) < fuel
      → Polls (poll_fifo timer real fifo) r s w (poll_entry timer real fuel s r w)
  poll_entry-Polls s r w d lt = queue_or_channel (queue r.buffer s) s r w refl d lt

-- A poll of an unbounded channel for a sender with nothing buffered panics when the real channel
-- answers that it is disconnected.
pub poll_entry_disconnected :
    {Q A C T : Type 0} (timer : RealReceiver A T) (real : RealReceiver C (DetMessage T)) (fuel : ℕ)
    (s : DetThreadId) (buffer : BufferedValues T) (c c' : C) (w : World Q)
    → queue buffer s ≡ []
    → real.recv_timeout replay_timeout c ≡ (err RecvTimeoutError.disconnected, c')
    → poll_entry timer real (suc fuel) s (record { buffer = buffer; channel = unbounded c }) w
      ≡ panics
unfolding poll_entry replay_recv recv_expected_message recv_loop poll kind_recv_timeout
poll_entry_disconnected timer real fuel s buffer c c' w e p = elim (pop_front-Pops buffer s) [
  | inl (_, q) ↦ rw (e, poll_entry) (rw (q, recv_expected_message) (rw p refl))
  | inr (v, buffer', _, q, _) ↦ cc (sym e ∙ q)
]
