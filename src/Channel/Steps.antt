-- ===== src/Channel/Steps.antt =====
-- rr.rs and the receive methods: one receive, recorded and replayed.
use rr_channel.Prelude.{
  ℕ, ◌<◌, ◌≤◌, ◌≡◌, sym, ◌∙◌, false, List, [], ◌∷◌, ◌++◌, arith, Result, ok, err, returns, ◌>>=◌,
  ◌==◌, length,
}
use rr_channel.DetThread.Id.{DetThreadId, id_eq}
use rr_channel.Event.{TivoEvent, variant_eq, channel_id_eq, variant_beq_iff, channel_id_beq_iff}
use rr_channel.Error.{DesyncError, RecvErrorRr}
use rr_channel.RecordLog.{RecordEntry, RecordMetadata, LogQueue, check_mismatch}
use rr_channel.World.{World, Call, record_mode, replay_mode}
use rr_channel.Checker.{check_event_mismatch}
use rr_channel.Recorder.{entry_of}
use rr_channel.Recorder.Laws.{
  rest, LogOpen, LogLeft, write_event_to_record_open, get_log_entry_some,
}
use rr_channel.Desync.{DetMessage, Endpoint, message}
use rr_channel.Rr.{record_replay_recv, entry_or_sleep, recv_expected_message}
use rr_channel.Rr.Pending.{IsFifo, pending, taken, missing, recv_expected_message-Receives}
use rr_channel.Channel.{Variants, Seen, impl_recvrr, recv_with}

-- The patterns of a template recognise the events that it builds.
pub record Recognises {E : Type 0} (v : Variants E) : Type 0 where
  pub see-succ_event : (s : DetThreadId) → v.see (v.succ_event s) ≡ Seen.succ s
  pub see-err_event : (e : E) → v.see (v.err_event e) ≡ Seen.error e

-- The event that is logged for what the real channel answered.
abbrev pub logged : {E T : Type 0} → Variants E → Result (DetMessage T) E → TivoEvent
logged v (ok m) = v.succ_event m.0
logged v (err e) = v.err_event e

-- An entry matches the metadata that it was written with.
pub check_mismatch-entry_of :
    (event : TivoEvent) (m : RecordMetadata) → check_mismatch (entry_of event m) m ≡ ok tt
unfolding check_mismatch entry_of
check_mismatch-entry_of event m =
    ground
      (arith, variant_beq_iff m.channel_variant m.channel_variant, channel_id_beq_iff m.id m.id)

module _ {Q C T E : Type 0} ⦃q : LogQueue Q⦄ (v : Variants E)
    (replay_recv : DetThreadId → Endpoint C T → Call Q (Result T DesyncError × Endpoint C T)) where
  -- A recorded receive gives the real channel's answer, and logs it.
  pub recv_with-record :
      (md : RecordMetadata) (f : C → Call Q (Result (DetMessage T) E × C)) (r : Endpoint C T)
      (id : DetThreadId) (w : World Q) (written : List RecordEntry) (o : Result (DetMessage T) E)
      (c' : C)
      → LogOpen id w written
      → f r.channel w ≡ returns ((o, c'), w)
      → (w' : World Q) × (recv_with (impl_recvrr v replay_recv) record_mode md f r w
          ≡ returns ((message o, record r { channel = c' }), w'))
        × LogOpen id w' (written ++ entry_of (logged v o) md ∷ [])
        × (rest w' ≡ rest w)
  unfolding recv_with record_replay_recv impl_recvrr
  recv_with-record md f r id w written (ok m) c' open_log p =
      let (w', e, l, s) = write_event_to_record_open id w written (v.succ_event m.0) md open_log in
      (w', rw (p, ◌>>=◌) (rw (e, ◌>>=◌)), l, s)
  recv_with-record md f r id w written (err x) c' open_log p =
      let (w', e, l, s) = write_event_to_record_open id w written (v.err_event x) md open_log in
      (w', rw (p, ◌>>=◌) (rw (e, ◌>>=◌)), l, s)

  -- What the patterns make of a logged error comes back without a look at the channel.
  pub recv_with-replay_seen_err :
      (md : RecordMetadata) (f : C → Call Q (Result (DetMessage T) E × C)) (r : Endpoint C T)
      (w : World Q) (event : TivoEvent) (x : E) (es : List RecordEntry)
      → v.see event ≡ Seen.error x
      → LogLeft w (entry_of event md ∷ es)
      → (w' : World Q) × (recv_with (impl_recvrr v replay_recv) replay_mode md f r w
          ≡ returns ((err x, r), w'))
        × LogLeft w' es
        × (rest w' ≡ rest w)
  unfolding recv_with record_replay_recv impl_recvrr entry_or_sleep check_event_mismatch entry_of
  recv_with-replay_seen_err md f r w event x es seen left =
      let (w', e, l, s) = get_log_entry_some w _ es left in
      (w', rw (e, ◌>>=◌) (rw (seen, check_mismatch-entry_of event md) (rw (seen, ◌>>=◌))), l, s)

  -- A logged error comes back without a look at the channel.
  pub recv_with-replay_err :
      (md : RecordMetadata) (f : C → Call Q (Result (DetMessage T) E × C)) (r : Endpoint C T)
      (w : World Q) (x : E) (es : List RecordEntry)
      → Recognises v
      → LogLeft w (entry_of (v.err_event x) md ∷ es)
      → (w' : World Q) × (recv_with (impl_recvrr v replay_recv) replay_mode md f r w
          ≡ returns ((err x, r), w'))
        × LogLeft w' es
        × (rest w' ≡ rest w)
  recv_with-replay_err md f r w x es known left =
      recv_with-replay_seen_err md f r w (v.err_event x) x es (known.see-err_event x) left

module _ {Q C T E : Type 0} ⦃q : LogQueue Q⦄ (v : Variants E)
    {poll : C → Call Q (Result (DetMessage T) RecvErrorRr × C)} (fifo : IsFifo poll)
    (fuel : ℕ) where
  -- An event that the patterns take for a success comes back with the oldest message of the logged sender.
  pub recv_with-replay_seen_ok :
      (md : RecordMetadata) (f : C → Call Q (Result (DetMessage T) E × C)) (r : Endpoint C T)
      (w : World Q) (event : TivoEvent) (s : DetThreadId) (m : T) (ms : List T)
      (es : List RecordEntry)
      → v.see event ≡ Seen.succ s
      → LogLeft w (entry_of event md ∷ es)
      → fifo.IsReady r.channel
      → length (fifo.arrivals r.channel) < fuel
      → pending fifo r s ≡ m ∷ ms
      → (r' : Endpoint C T) × (w' : World Q) × (recv_with
            (impl_recvrr v (recv_expected_message poll fuel))
            replay_mode
            md
            f
            r
            w
          ≡ returns ((ok m, r'), w'))
        × LogLeft w' es
        × (rest w' ≡ rest w)
        × fifo.IsReady r'.channel
        × (length (fifo.arrivals r'.channel) ≤ length (fifo.arrivals r.channel))
        × (pending fifo r' s ≡ ms)
        × ((i : DetThreadId) → (s == i) ≡ false → pending fifo r' i ≡ pending fifo r i)
  unfolding recv_with record_replay_recv impl_recvrr entry_or_sleep check_event_mismatch entry_of
  recv_with-replay_seen_ok md f r w event s m ms es seen left ready lt have =
      let (w', e, l, same) = get_log_entry_some w _ es left in
      elim (recv_expected_message-Receives fifo fuel s r w' ready lt) [
        | taken m' r' o d n p others ↦
            let heads : m' ≡ m = ground (arith, have, p) in
            (
              r',
              w',
              rw (e, ◌>>=◌)
                  (rw (seen, check_mismatch-entry_of event md)
                    (rw (seen, ◌>>=◌) (rw (o, ◌>>=◌) (rw heads)))),
              l,
              same,
              d,
              n,
              ground (arith, have, p),
              others,
            )
        | missing x r' o d n p others ↦ cc (sym have ∙ p)
      ]

  -- A logged success comes back with the oldest message of the logged sender.
  pub recv_with-replay_ok :
      (md : RecordMetadata) (f : C → Call Q (Result (DetMessage T) E × C)) (r : Endpoint C T)
      (w : World Q) (s : DetThreadId) (m : T) (ms : List T) (es : List RecordEntry)
      → Recognises v
      → LogLeft w (entry_of (v.succ_event s) md ∷ es)
      → fifo.IsReady r.channel
      → length (fifo.arrivals r.channel) < fuel
      → pending fifo r s ≡ m ∷ ms
      → (r' : Endpoint C T) × (w' : World Q) × (recv_with
            (impl_recvrr v (recv_expected_message poll fuel))
            replay_mode
            md
            f
            r
            w
          ≡ returns ((ok m, r'), w'))
        × LogLeft w' es
        × (rest w' ≡ rest w)
        × fifo.IsReady r'.channel
        × (length (fifo.arrivals r'.channel) ≤ length (fifo.arrivals r.channel))
        × (pending fifo r' s ≡ ms)
        × ((i : DetThreadId) → (s == i) ≡ false → pending fifo r' i ≡ pending fifo r i)
  recv_with-replay_ok md f r w s m ms es known left ready lt have =
      recv_with-replay_seen_ok md f r w (v.succ_event s) s m ms es (known.see-succ_event s) left
        ready lt have
