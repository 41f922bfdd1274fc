-- ===== src/Crossbeam/Replay.antt =====
-- crossbeam_channel.rs: a replayed program of receives gets the replies that its log stands for.
use rr_channel.Prelude.{
  ℕ, ◌<◌, arith, subst, ◌≡◌, refl, ◌∙◌, false, List, [], ◌∷◌, ◌++◌, map, Result, ok, err, returns,
  ◌>>=◌, ◌==◌, length, Bool-cases, inl, inr,
}
use rr_channel.Prelude.Map.Queues.{queue}
use rr_channel.DetThread.Id.{DetThreadId, id_eq, id_beq_iff}
use rr_channel.RecordLog.{RecordEntry, RecordMetadata, LogQueue}
use rr_channel.World.{World, Call, replay_mode}
use rr_channel.Recorder.{entry_of}
use rr_channel.Recorder.Laws.{LogLeft}
use rr_channel.Desync.{DetMessage, Endpoint, message}
use rr_channel.Rr.Pending.{from}
use rr_channel.Channel.{RealReceiver, Variants, impl_recvrr, recv_with}
use rr_channel.Channel.Steps.{Recognises, logged, recv_with-replay_err, recv_with-replay_ok}
use rr_channel.Crossbeam.{ChannelKind}
use rr_channel.Crossbeam.Receive.{
  recv, try_recv, recv_timeout, recv_variants, try_recv_variants, recv_timeout_variants, kind_recv,
  kind_try_recv, kind_recv_timeout, replay_recv,
}
use rr_channel.Crossbeam.Fifo.{
  IsFifoChannel, IsMessages, kind_arrivals, poll_fifo, recv_variants-Recognises,
  try_recv_variants-Recognises, recv_timeout_variants-Recognises,
}
use rr_channel.Crossbeam.Program.{
  Answer, recv_answer, try_answer, timeout_answer, call, run, op_of, reply_of, event_of, entries_of,
  message_in, delivered_by, delivered,
}
use rr_channel.Crossbeam.Record.{receiver}

-- A sender's messages in the buffer, then those on their way.
abbrev pub waiting :
    {A C T : Type 0} {real : RealReceiver C (DetMessage T)}
    → IsFifoChannel real
    → Endpoint (ChannelKind A C) T
    → DetThreadId
    → List T
waiting fifo r i = queue r.buffer i ++ from i (kind_arrivals fifo r.channel)

-- The channel of the replay holds, sender by sender, these messages and then those of `later`; the
-- order in which messages of different senders arrive is left open.
pub record IsSupplied {A C T : Type 0} {real : RealReceiver C (DetMessage T)}
    (fifo : IsFifoChannel real) (fuel : ℕ) (r : Endpoint (ChannelKind A C) T)
    (ms : List (DetMessage T)) (later : DetThreadId → List T) : Type 0 where
  pub carries_messages : IsMessages r.channel
  pub within_fuel : length (kind_arrivals fifo r.channel) < fuel
  pub per_sender : (i : DetThreadId) → waiting fifo r i ≡ from i ms ++ later i

pub after_taken :
    {A C T : Type 0} {real : RealReceiver C (DetMessage T)} (fifo : IsFifoChannel real) (fuel : ℕ)
    (r r' : Endpoint (ChannelKind A C) T) (s i : DetThreadId) (m : T) (ms : List (DetMessage T))
    (later : DetThreadId → List T)
    → IsSupplied fifo fuel r ((s, m) ∷ ms) later
    → waiting fifo r' s ≡ from s ms ++ later s
    → ((i : DetThreadId) → (s == i) ≡ false → waiting fifo r' i ≡ waiting fifo r i)
    → waiting fifo r' i ≡ from i ms ++ later i
unfolding from
after_taken fifo fuel r r' s i m ms later supply mine others = elim (Bool-cases (s == i)) [
  | inl h ↦ subst (λ j. waiting fifo r' j ≡ from j ms ++ later j) ((id_beq_iff s i).0 h) mine
  | inr h ↦ others i h ∙ supply.per_sender i ∙ rw h
]

module _ {Q A C T : Type 0} ⦃q : LogQueue Q⦄ (timer : RealReceiver A T)
    (real : RealReceiver C (DetMessage T)) (fuel : ℕ) (md : RecordMetadata)
    (fifo : IsFifoChannel real) where
  method-replay :
      {E : Type 0} (v : Variants E)
      (f : ChannelKind A C → Call Q (Result (DetMessage T) E × ChannelKind A C))
      (o : Result (DetMessage T) E) (ms : List (DetMessage T)) (later : DetThreadId → List T)
      (r : Endpoint (ChannelKind A C) T) (w : World Q) (es : List RecordEntry)
      → Recognises v
      → LogLeft w (entry_of (logged v o) md ∷ es)
      → IsSupplied fifo fuel r (message_in o ++ ms) later
      → (r' : Endpoint (ChannelKind A C) T) × (w' : World Q) × (recv_with
            (impl_recvrr v (replay_recv timer real fuel))
            replay_mode
            md
            f
            r
            w
          ≡ returns ((message o, r'), w'))
        × LogLeft w' es
        × IsSupplied fifo fuel r' ms later
  unfolding replay_recv
  method-replay v f (ok (s, m)) ms later r w es known left supply =
      let have : waiting fifo r s ≡ m ∷ (from s ms ++ later s) =
        supply.per_sender s ∙ unfold from in rw (id_beq_iff s s).1 refl in
      let (r', w', e, l, _, ready, lt, mine, others) =
        recv_with-replay_ok v (poll_fifo timer real fifo) fuel md f r w s m _ es known left
          supply.carries_messages supply.within_fuel have in
      (
        r',
        w',
        e,
        l,
        record {
          carries_messages = ready;
          within_fuel = omega (arith, supply.within_fuel);
          per_sender = λ i. after_taken fifo fuel r r' s i m ms later supply mine others;
        },
      )
  method-replay v f (err x) ms later r w es known left supply =
      let (w', e, l, _) =
        recv_with-replay_err v (replay_recv timer real fuel) md f r w x es known left in
      (r, w', e, l, supply)

  call-replay :
      (a : Answer T) (ms : List (DetMessage T)) (later : DetThreadId → List T)
      (r : Endpoint (ChannelKind A C) T) (w : World Q) (es : List RecordEntry)
      → LogLeft w (entry_of (event_of a) md ∷ es)
      → IsSupplied fifo fuel r (delivered_by a ++ ms) later
      → (r' : Endpoint (ChannelKind A C) T) × (w' : World Q) × (call timer real fuel
            (op_of a)
            (receiver md replay_mode r)
            w
          ≡ returns ((reply_of a, receiver md replay_mode r'), w'))
        × LogLeft w' es
        × IsSupplied fifo fuel r' ms later
  unfolding call recv try_recv recv_timeout
  call-replay (recv_answer o) ms later r w es left supply =
      let (r', w', e, l, s) =
        method-replay recv_variants (kind_recv timer real) o ms later r w es
          recv_variants-Recognises left supply in
      (r', w', rw (e, ◌>>=◌), l, s)
  call-replay (try_answer o) ms later r w es left supply =
      let (r', w', e, l, s) =
        method-replay try_recv_variants (kind_try_recv timer real) o ms later r w es
          try_recv_variants-Recognises left supply in
      (r', w', rw (e, ◌>>=◌), l, s)
  call-replay (timeout_answer d o) ms later r w es left supply =
      let (r', w', e, l, s) =
        method-replay recv_timeout_variants (kind_recv_timeout timer real d) o ms later r w es
          recv_timeout_variants-Recognises left supply in
      (r', w', rw (e, ◌>>=◌), l, s)

  -- A replayed program of receives, whose log has the entries of these answers next and whose
  -- channel holds, within the fuel, the messages that they delivered, sender by sender, gets the
  -- same replies, takes those entries from the log, and leaves the later messages of each sender.
  pub run-replay :
      (answers : List (Answer T)) (later : DetThreadId → List T) (r : Endpoint (ChannelKind A C) T)
      (w : World Q) (es : List RecordEntry)
      → LogLeft w (entries_of md answers ++ es)
      → IsSupplied fifo fuel r (delivered answers) later
      → (r' : Endpoint (ChannelKind A C) T) × (w' : World Q) × (run timer real fuel
            (map op_of answers)
            (receiver md replay_mode r)
            w
          ≡ returns ((map reply_of answers, receiver md replay_mode r'), w'))
        × LogLeft w' es
        × IsSupplied fifo fuel r' [] later
  unfolding run
  run-replay [] later r w es left supply = (r, w, refl, left, supply)
  run-replay (a ∷ answers) later r w es left supply =
      let (r₁, w₁, e, l, s) = call-replay a (delivered answers) later r w _ left supply in
      let (r', w', e', l', s') = run-replay answers later r₁ w₁ es l s in
      (r', w', rw (e, ◌>>=◌) (rw (e', ◌>>=◌)), l', s')
