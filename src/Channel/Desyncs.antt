-- ===== src/Channel/Desyncs.antt =====
-- The receive methods where the replay leaves the recorded execution.
use rr_channel.Prelude.{
  ◌≡◌, ◌≢◌, refl, sym, ap, subst, ◌∙◌, ◌||◌, ◌⊎◌, inl, inr, true, false, List, [], ◌∷◌, arith,
  Result, err, Result-cases, returns, hangs, ◌>>=◌,
}
use rr_channel.Prelude.Map.{keys, IsDistinct}
use rr_channel.DetThread.Id.{DetThreadId, zeroed, id_eq}
use rr_channel.DetThread.Tls.{new_det_thread_id}
use rr_channel.Event.{variant_eq, channel_id_eq, variant_beq_iff, channel_id_beq_iff}
use rr_channel.Error.{DesyncError, event_mismatch}
use rr_channel.RecordLog.{RecordEntry, RecordMetadata, LogQueue, check_mismatch}
use rr_channel.World.{World, Call, replay_mode, keep_going}
use rr_channel.Checker.{check_event_mismatch}
use rr_channel.Recorder.Laws.{
  Rest, rest, LogLeft, reading, untouched, get_log_entry_some, get_log_entry_none,
}
use rr_channel.Desync.{DetMessage, Endpoint, sleep_until_desync, handle_desync}
use rr_channel.Desync.Laws.{
  desynced, IsAwake, Salvages, sleep_until_desync_wakes, sleep_until_desync_hangs,
  handle_desync-keep_going,
}
use rr_channel.Rr.{record_replay_recv, entry_or_sleep}
use rr_channel.Channel.{Variants, Seen, impl_recvrr, recv_with}

-- The entry was logged by another kind of call, another kind of channel or another channel.
abbrev pub IsForeign : {E : Type 0} → Variants E → RecordMetadata → RecordEntry → Type 0
IsForeign v md x =
    (v.see x.event ≡ Seen.other) ⊎ ((x.channel_variant ≢ md.channel_variant) ⊎ (x.chan_id ≢ md.id))

abbrev after_mark : {Q : Type 0} → Rest Q → Rest Q
after_mark s = record s { desync = true; parked_threads_started = true }

check_mismatch_foreign :
    (md : RecordMetadata) (x : RecordEntry)
    → (x.channel_variant ≢ md.channel_variant) ⊎ (x.chan_id ≢ md.id)
    → (e : DesyncError) × (check_mismatch x md ≡ err e)
unfolding check_mismatch
check_mismatch_foreign md x ne = elim (Result-cases (check_mismatch x md)) [
  | inl (u, p) ↦ absurd (elim ne [
    | inl variant ↦ variant (ground (arith, variant_beq_iff x.channel_variant md.channel_variant))
    | inr channel ↦ channel (ground (arith, channel_id_beq_iff x.chan_id md.id))
  ])
  | inr r ↦ r
]

Seen-cases :
    {E : Type 0} (s : Seen E)
    → ((i : DetThreadId) × (s ≡ Seen.succ i)) ⊎ (((e : E) × (s ≡ Seen.error e)) ⊎ (s ≡ Seen.other))
Seen-cases (Seen.succ i) = inl (i, refl)
Seen-cases (Seen.error e) = inr (inl (e, refl))
Seen-cases Seen.other = inr (inr refl)

module _ {Q C T E : Type 0} (v : Variants E)
    (replay_recv : DetThreadId → Endpoint C T → Call Q (Result T DesyncError × Endpoint C T)) where
  check_event_mismatch_other :
      (md : RecordMetadata) (x : RecordEntry) (w : World Q)
      → w.thread_initialized ≡ true
      → v.see x.event ≡ Seen.other
      → (e : DesyncError) × (check_event_mismatch
            ((impl_recvrr v replay_recv).check_recorded_event)
            x
            md
            w
          ≡ returns (err e, w))
  unfolding check_event_mismatch impl_recvrr new_det_thread_id
  check_event_mismatch_other md x w started other =
      (event_mismatch x.event (v.succ_event zeroed), rw other (rw (started, ◌>>=◌) refl))

  check_event_mismatch_foreign :
      (md : RecordMetadata) (x : RecordEntry) (w : World Q)
      → w.thread_initialized ≡ true
      → IsForeign v md x
      → (e : DesyncError) × (check_event_mismatch
            ((impl_recvrr v replay_recv).check_recorded_event)
            x
            md
            w
          ≡ returns (err e, w))
  unfolding check_event_mismatch impl_recvrr
  check_event_mismatch_foreign md x w started (inl other) =
      check_event_mismatch_other md x w started other
  check_event_mismatch_foreign md x w started (inr ne) =
      let (e, p) = check_mismatch_foreign md x ne in
      elim (Seen-cases (v.see x.event)) [
        | inl (i, s) ↦ (e, rw s (rw p refl))
        | inr (inl (y, s)) ↦ (e, rw s (rw p refl))
        | inr (inr s) ↦ check_event_mismatch_other md x w started s
      ]

module _ {Q C T E : Type 0} ⦃q : LogQueue Q⦄ (v : Variants E)
    (replay_recv : DetThreadId → Endpoint C T → Call Q (Result T DesyncError × Endpoint C T))
    (md : RecordMetadata) (f : C → Call Q (Result (DetMessage T) E × C)) (r : Endpoint C T)
    (o : Result (DetMessage T) E) (c' : C) where
  LogLeft-desynced : (w : World Q) (es : List RecordEntry) → LogLeft w es → LogLeft (desynced w) es
  LogLeft-desynced w es (reading p) = reading p
  LogLeft-desynced w es (untouched id p d h) = untouched id p d h

  goes_on :
      (d : DesyncError) (w w₁ : World Q) (es : List RecordEntry)
      → IsAwake w
      → w.desync_mode ≡ keep_going
      → IsDistinct (keys r.buffer)
      → ((u : World Q) → f r.channel u ≡ returns ((o, c'), u))
      → LogLeft w₁ es
      → rest w₁ ≡ rest w
      → (a : Result T E) × (r' : Endpoint C T) × (w' : World Q) × (handle_desync d f r w₁
          ≡ returns ((a, r'), w'))
        × Salvages r o c' a r'
        × LogLeft w' es
        × (rest w' ≡ rest (desynced w))
  goes_on d w w₁ es awake mode distinct p left same =
      let (a, r', handled, s) =
        handle_desync-keep_going d f r w₁ o c'
          (subst (λ s. s.parked_threads_started ≡ s.desync) (sym same) awake)
          (ap Rest.desync_mode same ∙ mode) distinct (p (desynced w₁)) in
      (a, r', desynced w₁, handled, s, LogLeft-desynced w₁ es left, ap after_mark same)

  -- Under KeepGoing, where the real channel answers, a receive of an initialised thread whose next
  -- entry was logged by another call, another kind of channel or another channel drops that entry,
  -- and goes on in a desynchronised program: with the oldest message of some buffered queue, or
  -- with the answer of the real channel when nothing is buffered.
  pub recv_with-replay_foreign :
      (w : World Q) (x : RecordEntry) (es : List RecordEntry)
      → w.thread_initialized ≡ true
      → IsAwake w
      → w.desync_mode ≡ keep_going
      → IsDistinct (keys r.buffer)
      → ((u : World Q) → f r.channel u ≡ returns ((o, c'), u))
      → LogLeft w (x ∷ es)
      → IsForeign v md x
      → (a : Result T E) × (r' : Endpoint C T) × (w' : World Q) × (recv_with
            (impl_recvrr v replay_recv)
            replay_mode
            md
            f
            r
            w
          ≡ returns ((a, r'), w'))
        × Salvages r o c' a r'
        × LogLeft w' es
        × (rest w' ≡ rest (desynced w))
  unfolding recv_with record_replay_recv entry_or_sleep
  recv_with-replay_foreign w x es started awake mode distinct p left foreign =
      let (w₁, e, l, same) = get_log_entry_some w x es left in
      let (d, bad) =
        check_event_mismatch_foreign v replay_recv md x w₁
          (ap Rest.thread_initialized same ∙ started) foreign in
      let (a, r', w', handled, s, l', same') = goes_on d w w₁ es awake mode distinct p l same in
      (a, r', w', rw (e, ◌>>=◌) (rw (bad, ◌>>=◌) handled), s, l', same')

  -- Under KeepGoing, where the real channel answers, a receive at the end of the log, in a program
  -- that is or will be marked as desynchronised, goes on in a desynchronised program: with the
  -- oldest message of some buffered queue, or with the answer of the real channel when nothing is
  -- buffered.
  pub recv_with-replay_end :
      (w : World Q)
      → IsAwake w
      → w.desync_mode ≡ keep_going
      → IsDistinct (keys r.buffer)
      → ((u : World Q) → f r.channel u ≡ returns ((o, c'), u))
      → LogLeft w []
      → (w.desync || w.others_desync) ≡ true
      → (a : Result T E) × (r' : Endpoint C T) × (w' : World Q) × (recv_with
            (impl_recvrr v replay_recv)
            replay_mode
            md
            f
            r
            w
          ≡ returns ((a, r'), w'))
        × Salvages r o c' a r'
        × LogLeft w' []
        × (rest w' ≡ rest (desynced w))
  unfolding recv_with record_replay_recv entry_or_sleep
  recv_with-replay_end w awake mode distinct p left marked =
      let (w₁, e, l, same) = get_log_entry_none w left in
      let woken : sleep_until_desync w₁ ≡ returns (tt, desynced w₁) =
        sleep_until_desync_wakes w₁
          (subst (λ s. s.parked_threads_started ≡ s.desync) (sym same) awake)
          (subst (λ s. (s.desync || s.others_desync) ≡ true) (sym same) marked) in
      let (a, r', w', handled, s, l', same') =
        goes_on DesyncError.desynchronized_wakeup (desynced w) (desynced w₁) [] refl mode distinct p
          (LogLeft-desynced w₁ [] l) (ap after_mark same) in
      (a, r', w', rw (e, ◌>>=◌) (rw (woken, ◌>>=◌) handled), s, l', same')

  -- A receive at the end of the log hangs while the program is not marked as desynchronised and no
  -- other thread will mark it.
  pub recv_with-replay_sleeps :
      (w : World Q)
      → IsAwake w
      → LogLeft w []
      → (w.desync || w.others_desync) ≡ false
      → recv_with (impl_recvrr v replay_recv) replay_mode md f r w ≡ hangs
  unfolding recv_with record_replay_recv entry_or_sleep
  recv_with-replay_sleeps w awake left unmarked =
      let (w₁, e, l, same) = get_log_entry_none w left in
      let asleep : sleep_until_desync w₁ ≡ hangs =
        sleep_until_desync_hangs w₁
          (subst (λ s. s.parked_threads_started ≡ s.desync) (sym same) awake)
          (subst (λ s. (s.desync || s.others_desync) ≡ false) (sym same) unmarked) in
      rw (e, ◌>>=◌) (rw (asleep, ◌>>=◌) refl)
