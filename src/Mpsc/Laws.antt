-- ===== src/Mpsc/Laws.antt =====
-- mpsc.rs: one receive, recorded and replayed.
use rr_channel.Prelude.{
  ℕ, ◌<◌, ◌≡◌, refl, ◌∙◌, subst, inl, inr, List, [], ◌∷◌, ◌++◌, Result, ok, err, returns, pure,
  ◌>>=◌, ◌==◌, length, Bool-cases,
}
use rr_channel.DetThread.Id.{DetThreadId, id_eq, id_beq_iff}
use rr_channel.Event.{TivoEvent}
use rr_channel.RecordLog.{RecordEntry, RecordMetadata, LogQueue}
use rr_channel.World.{World, Call, RrMode, record_mode, replay_mode}
use rr_channel.Recorder.{entry_of}
use rr_channel.Recorder.Laws.{rest, LogOpen, LogLeft}
use rr_channel.Desync.{DetMessage, BufferedValues, Endpoint, message}
use rr_channel.Rr.Pending.{from, pending}
use rr_channel.Channel.{RealReceiver, Variants, impl_recvrr, recv_with}
use rr_channel.Channel.Steps.{
  Recognises, logged, recv_with-record, recv_with-replay_err, recv_with-replay_ok,
}
use rr_channel.Crossbeam.Fifo.{IsFifoChannel}
use rr_channel.Crossbeam.Program.{
  Op, recv_op, try_recv_op, recv_timeout_op, Reply, recv_failed, try_failed, timeout_failed,
  reply_with, Answer, recv_answer, try_answer, timeout_answer, op_of, reply_of, message_in,
  delivered_by, Answers,
}
use rr_channel.Mpsc.{ReceiverKind, Receiver}
use rr_channel.Mpsc.Receive.{
  recv, try_recv, recv_timeout, recv_variants, try_recv_variants, recv_timeout_variants, kind_recv,
  kind_try_recv, kind_recv_timeout, replay_recv,
}
use rr_channel.Mpsc.Fifo.{
  kind_arrivals, poll_fifo, recv_variants-Recognises, try_recv_variants-Recognises,
  recv_timeout_variants-Recognises,
}

abbrev pub event_of : {T : Type 0} → Answer T → TivoEvent
event_of (recv_answer o) = logged recv_variants o
event_of (try_answer o) = logged try_recv_variants o
event_of (timeout_answer _ o) = logged recv_timeout_variants o

abbrev pub receiver :
    {C T : Type 0} → RecordMetadata → RrMode → Endpoint (ReceiverKind C) T → Receiver C T
receiver md mode r = record { endpoint = r; metadata = md; mode = mode }

module _ {Q C T : Type 0} ⦃q : LogQueue Q⦄ (real : RealReceiver C (DetMessage T)) (fuel : ℕ) where
  -- One of the three receive methods.
  pub receive : Op → Receiver C T → Call Q (Reply T × Receiver C T)
  receive recv_op r = do (x, r') ← recv real fuel r; pure (reply_with recv_failed x, r')
  receive try_recv_op r = do (x, r') ← try_recv real fuel r; pure (reply_with try_failed x, r')
  receive (recv_timeout_op d) r = do
    (x, r') ← recv_timeout real fuel d r
    pure (reply_with timeout_failed x, r')

  module _ (md : RecordMetadata) (fifo : IsFifoChannel real) where
    method-replay :
        {E : Type 0} (v : Variants E)
        (f : ReceiverKind C → Call Q (Result (DetMessage T) E × ReceiverKind C))
        (o : Result (DetMessage T) E) (later : DetThreadId → List T)
        (r : Endpoint (ReceiverKind C) T) (w : World Q) (es : List RecordEntry)
        → Recognises v
        → LogLeft w (entry_of (logged v o) md ∷ es)
        → length (kind_arrivals fifo r.channel) < fuel
        → ((i : DetThreadId)
            → pending {Q = Q} (poll_fifo real fifo) r i ≡ from i (message_in o) ++ later i)
        → (r' : Endpoint (ReceiverKind C) T) × (w' : World Q) × (recv_with
              (impl_recvrr v (replay_recv real fuel))
              replay_mode
              md
              f
              r
              w
            ≡ returns ((message o, r'), w'))
          × LogLeft w' es
          × ((i : DetThreadId) → pending {Q = Q} (poll_fifo real fifo) r' i ≡ later i)
    unfolding replay_recv
    method-replay v f (ok (s, m)) later r w es known left lt supply =
        let have : pending {Q = Q} (poll_fifo real fifo) r s ≡ m ∷ later s =
          supply s ∙ unfold from in rw (id_beq_iff s s).1 refl in
        let (r', w', e, l, _, _, _, mine, others) =
          recv_with-replay_ok v (poll_fifo real fifo) fuel md f r w s m _ es known left tt lt
            have in
        (
          r',
          w',
          e,
          l,
          λ i. elim (Bool-cases (s == i)) [
            | inl h ↦
                subst (λ j. pending {Q = Q} (poll_fifo real fifo) r' j ≡ later j)
                  ((id_beq_iff s i).0 h) mine
            | inr h ↦ others i h ∙ supply i ∙ unfold from in rw h refl
          ],
        )
    method-replay v f (err x) later r w es known left lt supply =
        let (w', e, l, _) =
          recv_with-replay_err v (replay_recv real fuel) md f r w x es known left in
        (r, w', e, l, unfold from in supply)

    -- A replayed receive from a standard channel, by any of the three methods, whose next entry is
    -- that of an answer and whose channel and buffer hold, within the fuel, the message that it
    -- delivered and later ones, sender by sender, gets that answer, takes the entry, and leaves the
    -- later messages.
    pub receive-replay :
        (a : Answer T) (later : DetThreadId → List T) (r : Endpoint (ReceiverKind C) T)
        (w : World Q) (es : List RecordEntry)
        → LogLeft w (entry_of (event_of a) md ∷ es)
        → length (kind_arrivals fifo r.channel) < fuel
        → ((i : DetThreadId)
            → pending {Q = Q} (poll_fifo real fifo) r i ≡ from i (delivered_by a) ++ later i)
        → (r' : Endpoint (ReceiverKind C) T) × (w' : World Q) × (receive
              (op_of a)
              (receiver md replay_mode r)
              w
            ≡ returns ((reply_of a, receiver md replay_mode r'), w'))
          × LogLeft w' es
          × ((i : DetThreadId) → pending {Q = Q} (poll_fifo real fifo) r' i ≡ later i)
    unfolding receive recv try_recv recv_timeout
    receive-replay (recv_answer o) later r w es left lt supply =
        let (r', w', e, l, s) =
          method-replay recv_variants (kind_recv real) o later r w es recv_variants-Recognises left
            lt supply in
        (r', w', rw (e, ◌>>=◌), l, s)
    receive-replay (try_answer o) later r w es left lt supply =
        let (r', w', e, l, s) =
          method-replay try_recv_variants (kind_try_recv real) o later r w es
            try_recv_variants-Recognises left lt supply in
        (r', w', rw (e, ◌>>=◌), l, s)
    receive-replay (timeout_answer d o) later r w es left lt supply =
        let (r', w', e, l, s) =
          method-replay recv_timeout_variants (kind_recv_timeout real d) o later r w es
            recv_timeout_variants-Recognises left lt supply in
        (r', w', rw (e, ◌>>=◌), l, s)

  module _ (md : RecordMetadata) where
    -- A recorded receive from an unbounded standard channel, by any of the three methods, in a
    -- thread whose log is open, gets what the real channel answers, and logs it at the end.
    pub receive-record :
        (buffer : BufferedValues T) (c c' : C) (a : Answer T) (id : DetThreadId) (w : World Q)
        (written : List RecordEntry)
        → LogOpen id w written
        → Answers real c a c'
        → (w' : World Q) × (receive
              (op_of a)
              (receiver md record_mode
                (record { buffer = buffer; channel = ReceiverKind.unbounded c }))
              w
            ≡ returns (
              (
                reply_of a,
                receiver md record_mode
                    (record { buffer = buffer; channel = ReceiverKind.unbounded c' }),
              ),
              w',
            ))
          × LogOpen id w' (written ++ entry_of (event_of a) md ∷ [])
          × (rest w' ≡ rest w)
    unfolding receive recv try_recv recv_timeout kind_recv kind_try_recv kind_recv_timeout
    receive-record buffer c c' (recv_answer o) id w written l p =
        let (w', e, l', s) =
          recv_with-record recv_variants (replay_recv real fuel) md (kind_recv real)
            (record { buffer = buffer; channel = ReceiverKind.unbounded c }) id w written o
            (ReceiverKind.unbounded c') l (rw p refl) in
        (w', rw (e, ◌>>=◌), l', s)
    receive-record buffer c c' (try_answer o) id w written l p =
        let (w', e, l', s) =
          recv_with-record try_recv_variants (replay_recv real fuel) md (kind_try_recv real)
            (record { buffer = buffer; channel = ReceiverKind.unbounded c }) id w written o
            (ReceiverKind.unbounded c') l (rw p refl) in
        (w', rw (e, ◌>>=◌), l', s)
    receive-record buffer c c' (timeout_answer d o) id w written l p =
        let (w', e, l', s) =
          recv_with-record recv_timeout_variants (replay_recv real fuel) md
            (kind_recv_timeout real d)
            (record { buffer = buffer; channel = ReceiverKind.unbounded c }) id w written o
            (ReceiverKind.unbounded c') l (rw p refl) in
        (w', rw (e, ◌>>=◌), l', s)
