-- ===== src/Rr/Pending.antt =====
-- rr.rs: `recv_expected_message` against an abstract view, one queue of messages for each sender.
use mathlib.Core.List.{append_assoc}
use rr_channel.Prelude.{
  ℕ, zero, suc, ◌≤◌, ◌<◌, ap, ◌≡◌, refl, sym, ◌∙◌, inl, inr, true, false, List, [], ◌∷◌, ◌++◌,
  arith, Result, ok, err, Outcome, returns, ◌==◌, if◌then◌else◌, Bool-cases, length, ◌>>=◌,
}
use rr_channel.Prelude.Map.Queues.{queue, push_back, queue-push_back, pop_front-Pops}
use rr_channel.DetThread.Id.{DetThreadId, id_eq, id_beq_iff}
use rr_channel.Error.{DesyncError, RecvErrorRr, from_recv_rr}
use rr_channel.World.{World, Call}
use rr_channel.Desync.{DetMessage, Endpoint}
use rr_channel.Rr.{recv_loop, recv_expected_message}

-- What is used of a real channel, in the states where `IsReady` holds: it delivers its arrivals in
-- order, and an error once there are none. `arrivals` are the messages that come before it times
-- out.
pub record IsFifo {Q C T : Type 0} (receive : C → Call Q (Result (DetMessage T) RecvErrorRr × C))
    : Type 1 where
  pub IsReady : C → Type 0
  pub arrivals : C → List (DetMessage T)
  pub on_message :
      (c : C) (m : DetMessage T) (ms : List (DetMessage T))
      → IsReady c
      → arrivals c ≡ m ∷ ms
      → (w : World Q)
      → (c' : C) × (receive c w ≡ returns ((ok m, c'), w)) × IsReady c' × (arrivals c' ≡ ms)
  pub on_empty :
      (c : C)
      → IsReady c
      → arrivals c ≡ []
      → (w : World Q)
      → (e : RecvErrorRr) × (c' : C) × (receive c w ≡ returns ((err e, c'), w))
        × IsReady c'
        × (arrivals c' ≡ [])

-- The messages of one sender, in order.
unfoldable pub from : {T : Type 0} → DetThreadId → List (DetMessage T) → List T
from s [] = []
from s ((j, m) ∷ ms) = if j == s then m ∷ from s ms else from s ms

module _ {Q C T : Type 0} {receive : C → Call Q (Result (DetMessage T) RecvErrorRr × C)}
    (fifo : IsFifo receive) where
  -- What a sender has sent and the receiver has not handed out yet.
  abbrev pub pending : Endpoint C T → DetThreadId → List T
  pending r s = queue r.buffer s ++ from s (fifo.arrivals r.channel)

  -- A receive from `s`: its oldest message and no other is taken; or, when it has none, an error is
  -- returned and nothing is taken.
  pub data Receives (r : Endpoint C T) (s : DetThreadId) (w : World Q)
      (o : Outcome ((Result T DesyncError × Endpoint C T) × World Q)) : Type 0 where
    taken :
        (v : T) (r' : Endpoint C T)
        → o ≡ returns ((ok v, r'), w)
        → fifo.IsReady r'.channel
        → length (fifo.arrivals r'.channel) ≤ length (fifo.arrivals r.channel)
        → pending r s ≡ v ∷ pending r' s
        → ((i : DetThreadId) → (s == i) ≡ false → pending r' i ≡ pending r i)
        → Receives r s w o
    missing :
        (e : RecvErrorRr) (r' : Endpoint C T)
        → o ≡ returns ((err (from_recv_rr e), r'), w)
        → fifo.IsReady r'.channel
        → length (fifo.arrivals r'.channel) ≤ length (fifo.arrivals r.channel)
        → pending r s ≡ []
        → ((i : DetThreadId) → pending r' i ≡ pending r i)
        → Receives r s w o

  Receives-cong :
      (r₁ r : Endpoint C T) (s : DetThreadId) (w : World Q)
      (o : Outcome ((Result T DesyncError × Endpoint C T) × World Q))
      → length (fifo.arrivals r₁.channel) ≤ length (fifo.arrivals r.channel)
      → ((i : DetThreadId) → pending r₁ i ≡ pending r i)
      → Receives r₁ s w o
      → Receives r s w o
  Receives-cong r₁ r s w o le same (taken v r' p d n q f) =
      taken v r' p d (omega arith) (sym (same s) ∙ q) (λ i ne. f i ne ∙ same i)
  Receives-cong r₁ r s w o le same (missing e r' p d n q f) =
      missing e r' p d (omega arith) (sym (same s) ∙ q) (λ i. f i ∙ same i)

  pending-push_back :
      (r : Endpoint C T) (c : C) (j i : DetThreadId) (v : T) (ms : List (DetMessage T))
      → fifo.arrivals r.channel ≡ (j, v) ∷ ms
      → fifo.arrivals c ≡ ms
      → pending (record { buffer = push_back r.buffer j v; channel = c }) i ≡ pending r i
  unfolding from
  pending-push_back r c j i v ms p q =
      rw (p, q, queue-push_back r.buffer j i v)
        (elim (Bool-cases (j == i)) [
          | inl h ↦ rw h (append_assoc (queue r.buffer i) (v ∷ []) (from i ms))
          | inr h ↦ rw h
        ])

  pending_head :
      (r : Endpoint C T) (c : C) (j s : DetThreadId) (v : T) (ms : List (DetMessage T))
      (w : World Q) (o : Outcome ((Result T DesyncError × Endpoint C T) × World Q))
      → fifo.arrivals r.channel ≡ (j, v) ∷ ms
      → fifo.arrivals c ≡ ms
      → fifo.IsReady c
      → queue r.buffer s ≡ []
      → (j == s) ≡ true
      → o ≡ returns ((ok v, record r { channel = c }), w)
      → Receives r s w o
  unfolding from
  pending_head r c j s v ms w o p q d empty h e =
      taken v (record r { channel = c }) e d (omega (arith, ap length p, ap length q))
        (rw (p, q, empty, h))
        (λ i ne. rw (p, q) (ground (arith, id_beq_iff j s, id_beq_iff j i, id_beq_iff s i)))

  recv_loop-Receives :
      (fuel : ℕ) (s : DetThreadId) (r : Endpoint C T) (ms : List (DetMessage T)) (w : World Q)
      → fifo.IsReady r.channel
      → fifo.arrivals r.channel ≡ ms
      → length ms < fuel
      → queue r.buffer s ≡ []
      → Receives r s w (recv_loop receive fuel s r w)
  unfolding recv_loop
  recv_loop-Receives zero s r ms w d a lt empty = absurd (omega arith)
  recv_loop-Receives (suc fuel) s r [] w d a lt empty =
      let (e, c', p, d', b) = fifo.on_empty r.channel d a w in
      missing e (record r { channel = c' }) (rw (p, ◌>>=◌)) d' (omega (arith, ap length b))
        (rw (empty, a) (unfold from in refl)) (λ i. rw (a, b))
  recv_loop-Receives (suc fuel) s r ((j, v) ∷ ms) w d a lt empty =
      let (c', p, d', b) = fifo.on_message r.channel (j, v) ms d a w in
      elim (Bool-cases (j == s)) [
        | inl h ↦ pending_head r c' j s v ms w _ a b d' empty h (rw (p, ◌>>=◌) (rw h))
        | inr h ↦
            let r₁ : Endpoint C T = record { buffer = push_back r.buffer j v; channel = c' } in
            Receives-cong r₁ r s w _ (omega (arith, ap length a, ap length b))
              (λ i. pending-push_back r c' j i v ms a b)
              (rw (p, ◌>>=◌)
                (rw h (
                  recv_loop-Receives fuel s r₁ ms w d' b (omega arith)
                    (rw (queue-push_back r.buffer j s v, h) empty))))
      ]

  -- On a channel that delivers its arrivals in order, with more fuel than there are arrivals,
  -- recv_expected_message always returns: the oldest message of the expected sender if it has one,
  -- wherever that waits, and a timeout or disconnection if not; the messages of the other senders
  -- stay as they were, in order.
  pub recv_expected_message-Receives :
      (fuel : ℕ) (s : DetThreadId) (r : Endpoint C T) (w : World Q)
      → fifo.IsReady r.channel
      → length (fifo.arrivals r.channel) < fuel
      → Receives r s w (recv_expected_message receive fuel s r w)
  unfolding recv_expected_message
  recv_expected_message-Receives fuel s r w d lt = elim (pop_front-Pops r.buffer s) [
    | inl (empty, p) ↦
        rw (p, recv_expected_message) (recv_loop-Receives fuel s r _ w d refl lt empty)
    | inr (v, buffer, p, q, f) ↦
        rw (p, recv_expected_message)
          (taken v (record r { buffer = buffer }) refl d (omega arith) (rw q) (λ i ne. rw (f i ne)))
  ]
