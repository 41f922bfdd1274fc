-- ===== src/Ipc/Set/Refine.antt =====
-- ipc_channel/mod.rs: `do_replay_recv_for_entry` against the shared `recv_expected_message`.
use rr_channel.Prelude.{
  ℕ, zero, suc, ◌≡◌, ◌⊎◌, refl, ap, ◌∙◌, true, Option, none, some, inl, inr, [], Result, ok, err,
  Outcome, returns, panics, out_of_fuel, pure, ◌>>=◌, ◌==◌, if◌then◌else◌, nat_eq, nat_beq_iff,
  Bool-cases, Option-cases, Result-cases, subst, arith,
}
use rr_channel.Prelude.Map.{get, insert, get-insert}
use rr_channel.Prelude.Map.Queues.{push_back, pop_front}
use rr_channel.DetThread.Id.{DetThreadId, id_eq}
use rr_channel.Error.{DesyncError, RecvErrorRr, channel_closed_unexpected}
use rr_channel.World.{World, Call}
use rr_channel.Desync.{DetMessage, BufferedValues, Endpoint}
use rr_channel.Rr.{recv_loop, recv_expected_message}
use rr_channel.Ipc.{OpaqueIpcReceiver}
use rr_channel.Ipc.Set.{message_received, channel_closed, RealSet}
use rr_channel.Ipc.Set.Entry.{
  Buffer, pop_entry, push_entry, Step, rr_recv, deserialize_id, on_received, entry_loop,
  do_replay_recv_for_entry,
}

-- The queues of one index of the buffer; no entry counts as no queue.
or_empty : {M : Type 0} → Option (BufferedValues M) → BufferedValues M
or_empty none = []
or_empty (some m) = m

unfoldable pub held : {M : Type 0} → Buffer M → ℕ → BufferedValues M
unfolding or_empty
held buffer index = or_empty (get buffer index)

-- At this index the buffer holds `b` now, and nothing else has changed.
abbrev pub IsUpdate : {M : Type 0} → Buffer M → ℕ → BufferedValues M → Buffer M → Type 0
IsUpdate buffer index b buffer' =
    (i : ℕ) → held buffer' i ≡ (if index == i then b else held buffer i)

module _ {M : Type 0} where
  IsUpdate-refl : (buffer : Buffer M) (index : ℕ) → IsUpdate buffer index (held buffer index) buffer
  IsUpdate-refl buffer index i = ground (arith, nat_beq_iff index i)

  IsUpdate-trans :
      (b₀ b₁ b₂ : Buffer M) (index : ℕ) (m m' : BufferedValues M)
      → IsUpdate b₀ index m b₁
      → IsUpdate b₁ index m' b₂
      → IsUpdate b₀ index m' b₂
  IsUpdate-trans b₀ b₁ b₂ index m m' h h' i = ground (arith, h i, h' i)

  IsUpdate-insert :
      (buffer : Buffer M) (index : ℕ) (m : BufferedValues M)
      → IsUpdate buffer index m (insert buffer index m)
  unfolding held
  IsUpdate-insert buffer index m i = rw (get-insert buffer index i m) (ground arith)

  IsUpdate-push_entry :
      (buffer : Buffer M) (index : ℕ) (id : DetThreadId) (msg : M)
      → IsUpdate buffer index
          (push_back (held buffer index) id msg)
          (push_entry buffer index id msg)
  unfolding push_entry held
  IsUpdate-push_entry buffer index id msg = elim (Option-cases (get buffer index)) [
    | inl e ↦ rw (e, push_entry, held) (IsUpdate-insert buffer index (push_back [] id msg))
    | inr (m, e) ↦ rw (e, push_entry, held) (IsUpdate-insert buffer index (push_back m id msg))
  ]

-- Popping from the buffer is popping from the queues of the index.
pop_entry-cases :
    {M : Type 0} (buffer : Buffer M) (index : ℕ) (s : DetThreadId)
    → ((pop_front (held buffer index) s ≡ none) × (pop_entry buffer index s ≡ none))
      ⊎ ((v : M) × (m : BufferedValues M) × (pop_front (held buffer index) s ≡ some (v, m))
          × (pop_entry buffer index s ≡ some (v, insert buffer index m)))
unfolding held pop_entry pop_front
pop_entry-cases buffer index s = elim (Option-cases (get buffer index)) [
  | inl e ↦ inl (rw (e, held) refl, rw (e, pop_entry) refl)
  | inr (m, e) ↦ elim (Option-cases (pop_front m s)) [
    | inl p ↦ inl (rw (e, held) p, rw (e, pop_entry) (rw p refl))
    | inr ((v, m'), p) ↦ inr (v, m', rw (e, held) p, rw (e, pop_entry) (rw p refl))
  ]
]

module _ {Q R K D M X F : Type 0} (real : RealSet R K D M X F) where
  tagged : Result M RecvErrorRr × K → Call Q (Result (DetMessage M) RecvErrorRr × K)
  tagged (ok msg, k) = do id ← deserialize_id real msg; pure (ok (id, msg), k)
  tagged (err e, k) = pure (err e, k)

  -- One receive of a receiver of the set, as the shared code takes it.
  unfoldable pub set_poll : K → Call Q (Result (DetMessage M) RecvErrorRr × K)
  unfolding tagged
  set_poll k = tagged (rr_recv real k)

-- A round or the whole search of the set, whose outcome is `o'`, against the shared code, whose
-- outcome is `o`: the same message or error, the same channel and the same queues at the index; a
-- channel that closed is marked and reported.
pub data Refines {Q K M : Type 0} (index : ℕ) (buffer : Buffer M) (receiver : OpaqueIpcReceiver K)
    (o : Outcome ((Result M DesyncError × Endpoint K M) × World Q))
    (o' : Outcome (Step K M × World Q)) : Type 0 where
  found :
      (msg : M) (r : Endpoint K M) (w : World Q) (buffer' : Buffer M)
      → o ≡ returns ((ok msg, r), w)
      → o'
        ≡ returns (
          (
            ok (message_received index msg),
            buffer',
            record receiver { opaque_receiver = r.channel },
          ),
          w,
        )
      → IsUpdate buffer index r.buffer buffer'
      → Refines index buffer receiver o o'
  timed_out :
      (r : Endpoint K M) (w : World Q) (buffer' : Buffer M)
      → o ≡ returns ((err (DesyncError.timeout none), r), w)
      → o'
        ≡ returns (
          (
            err (DesyncError.timeout none, none),
            buffer',
            record receiver { opaque_receiver = r.channel },
          ),
          w,
        )
      → IsUpdate buffer index r.buffer buffer'
      → Refines index buffer receiver o o'
  closed :
      (r : Endpoint K M) (w : World Q) (buffer' : Buffer M)
      → o ≡ returns ((err DesyncError.disconnected, r), w)
      → o'
        ≡ returns (
          (
            err (channel_closed_unexpected index, some (channel_closed index)),
            buffer',
            record receiver { opaque_receiver = r.channel; closed = true },
          ),
          w,
        )
      → IsUpdate buffer index r.buffer buffer'
      → Refines index buffer receiver o o'
  panicked : o ≡ panics → o' ≡ panics → Refines index buffer receiver o o'
  ran_out : o ≡ out_of_fuel → o' ≡ out_of_fuel → Refines index buffer receiver o o'

Refines-after :
    {Q K M : Type 0} (index : ℕ) (b₀ b₁ : Buffer M) (m : BufferedValues M)
    (receiver : OpaqueIpcReceiver K) (k : K)
    (o : Outcome ((Result M DesyncError × Endpoint K M) × World Q))
    (o' : Outcome (Step K M × World Q))
    → IsUpdate b₀ index m b₁
    → Refines index b₁ (record receiver { opaque_receiver = k }) o o'
    → Refines index b₀ receiver o o'
Refines-after index b₀ b₁ m receiver k o o' u (found msg r w b p p' u') =
    found msg r w b p p' (IsUpdate-trans b₀ b₁ b index m r.buffer u u')
Refines-after index b₀ b₁ m receiver k o o' u (timed_out r w b p p' u') =
    timed_out r w b p p' (IsUpdate-trans b₀ b₁ b index m r.buffer u u')
Refines-after index b₀ b₁ m receiver k o o' u (closed r w b p p' u') =
    closed r w b p p' (IsUpdate-trans b₀ b₁ b index m r.buffer u u')
Refines-after index b₀ b₁ m receiver k o o' u (panicked p p') = panicked p p'
Refines-after index b₀ b₁ m receiver k o o' u (ran_out p p') = ran_out p p'

module _ {Q R K D M X F : Type 0} (real : RealSet R K D M X F) (index : ℕ) (s : DetThreadId) where
  abbrev LoopRefines : ℕ → Buffer M → BufferedValues M → OpaqueIpcReceiver K → World Q → Type 0
  LoopRefines fuel buffer m receiver w =
      Refines index buffer receiver
        (recv_loop (set_poll real) fuel s
          (record { buffer = m; channel = receiver.opaque_receiver }) w)
        (entry_loop real fuel index s buffer receiver w)

  on_error :
      (fuel : ℕ) (buffer : Buffer M) (receiver : OpaqueIpcReceiver K) (w : World Q)
      (e : RecvErrorRr) (k : K)
      → rr_recv real receiver.opaque_receiver ≡ (err e, k)
      → LoopRefines (suc fuel) buffer (held buffer index) receiver w
  unfolding recv_loop entry_loop set_poll on_received
  on_error fuel buffer receiver w RecvErrorRr.timeout k p =
      timed_out (record { buffer = held buffer index; channel = k }) w buffer (rw (p, ◌>>=◌) refl)
        (rw (p, entry_loop) refl) (IsUpdate-refl buffer index)
  on_error fuel buffer receiver w RecvErrorRr.disconnected k p =
      closed (record { buffer = held buffer index; channel = k }) w buffer (rw (p, ◌>>=◌) refl)
        (rw (p, entry_loop) refl) (IsUpdate-refl buffer index)

  on_message :
      (fuel : ℕ) (buffer : Buffer M) (receiver : OpaqueIpcReceiver K) (w : World Q) (msg : M)
      (k : K)
      → rr_recv real receiver.opaque_receiver ≡ (ok msg, k)
      → ((id : DetThreadId)
          → LoopRefines fuel
              (push_entry buffer index id msg)
              (push_back (held buffer index) id msg)
              (record receiver { opaque_receiver = k })
              w)
      → LoopRefines (suc fuel) buffer (held buffer index) receiver w
  unfolding recv_loop entry_loop set_poll on_received deserialize_id
  on_message fuel buffer receiver w msg k p later = elim (Option-cases (real.deserialize_id msg)) [
    | inl d ↦
        panicked (rw (p, ◌>>=◌) (rw (d, ◌>>=◌) refl)) (rw (p, entry_loop) (rw (d, ◌>>=◌) refl))
    | inr (id, d) ↦ elim (Bool-cases (id == s)) [
      | inl h ↦
          found msg (record { buffer = held buffer index; channel = k }) w buffer
            (rw (p, ◌>>=◌) (rw (d, ◌>>=◌) (rw h refl)))
            (rw (p, entry_loop) (rw (d, ◌>>=◌) (rw h refl))) (IsUpdate-refl buffer index)
      | inr h ↦
          rw (p, recv_loop, entry_loop)
            (rw (d, ◌>>=◌)
              (rw h (
                Refines-after index buffer (push_entry buffer index id msg)
                  (push_back (held buffer index) id msg) receiver k _ _
                  (IsUpdate-push_entry buffer index id msg) (later id))))
    ]
  ]

  entry_loop-Refines :
      (fuel : ℕ) (buffer : Buffer M) (receiver : OpaqueIpcReceiver K) (w : World Q)
      → LoopRefines fuel buffer (held buffer index) receiver w
  unfolding recv_loop entry_loop
  entry_loop-Refines zero buffer receiver w = ran_out refl refl
  entry_loop-Refines (suc fuel) buffer receiver w =
      elim (Result-cases (rr_recv real receiver.opaque_receiver).0) [
        | inl (msg, e) ↦
            on_message fuel buffer receiver w msg (rr_recv real receiver.opaque_receiver).1
              (ap (λ x. (x, (rr_recv real receiver.opaque_receiver).1)) e)
              (λ id.
                subst
                  (λ m.
                    LoopRefines fuel (push_entry buffer index id msg) m
                      (record receiver {
                        opaque_receiver = (rr_recv real receiver.opaque_receiver).1;
                      })
                      w)
                  (IsUpdate-push_entry buffer index id msg index
                    ∙ rw ((nat_beq_iff index index).1 refl) refl)
                  (entry_loop-Refines fuel (push_entry buffer index id msg)
                    (record receiver {
                      opaque_receiver = (rr_recv real receiver.opaque_receiver).1;
                    })
                    w))
        | inr (e, p) ↦
            on_error fuel buffer receiver w e (rr_recv real receiver.opaque_receiver).1
              (ap (λ x. (x, (rr_recv real receiver.opaque_receiver).1)) p)
      ]

  -- With the same fuel, the search of a set for the message of a sender does on the queues of its
  -- index what recv_expected_message does on its buffer: it finds the same message, times out,
  -- meets a closed channel (which it marks and reports), panics or runs out of fuel in the same
  -- cases, leaves the same real channel, and keeps the same messages in the same queues; the queues
  -- of the other indices do not change.
  pub do_replay_recv_for_entry-Refines :
      (fuel : ℕ) (buffer : Buffer M) (receiver : OpaqueIpcReceiver K) (w : World Q)
      → Refines index buffer receiver
          (recv_expected_message
            (set_poll real)
            fuel
            s
            (record { buffer = held buffer index; channel = receiver.opaque_receiver })
            w)
          (do_replay_recv_for_entry real fuel index s buffer receiver w)
  unfolding recv_expected_message do_replay_recv_for_entry
  do_replay_recv_for_entry-Refines fuel buffer receiver w = elim (pop_entry-cases buffer index s) [
    | inl (p, p') ↦
        rw (p, recv_expected_message)
          (rw (p', do_replay_recv_for_entry) (entry_loop-Refines fuel buffer receiver w))
    | inr (v, m, p, p') ↦
        found v (record { buffer = m; channel = receiver.opaque_receiver }) w
          (insert buffer index m) (rw (p, recv_expected_message) refl)
          (rw (p', do_replay_recv_for_entry) refl) (IsUpdate-insert buffer index m)
  ]
