-- ===== src/Channel/Losses.antt =====
-- The receive methods where a recorded event cannot be written.
use rr_channel.Prelude.{
  ◌≡◌, sym, ap, subst, ◌∙◌, true, none, some, [], Result, ok, err, returns, arith, ◌>>=◌,
}
use rr_channel.Prelude.Map.Queues.{pop_any}
use rr_channel.DetThread.Id.{DetThreadId}
use rr_channel.Error.{DesyncError}
use rr_channel.RecordLog.{RecordMetadata, LogQueue}
use rr_channel.World.{World, Call, record_mode, keep_going}
use rr_channel.Recorder.Laws.{Rest, rest, write_event_to_record_closed}
use rr_channel.Desync.{DetMessage, Endpoint, message, handle_desync}
use rr_channel.Desync.Laws.{desynced, IsAwake, mark_program_as_desynced_lem}
use rr_channel.Rr.{record_replay_recv}
use rr_channel.Channel.{Variants, impl_recvrr, recv_with}

abbrev marked_rest : {Q : Type 0} → Rest Q → Rest Q
marked_rest s = record s { desync = true; parked_threads_started = true }

handle_desync_empty :
    {Q C T E : Type 0} (d : DesyncError) (f : C → Call Q (Result (DetMessage T) E × C)) (c c' : C)
    (o : Result (DetMessage T) E) (w : World Q)
    → IsAwake w
    → w.desync_mode ≡ keep_going
    → ((u : World Q) → f c u ≡ returns ((o, c'), u))
    → handle_desync d f (record { buffer = []; channel = c }) w
      ≡ returns ((message o, record { buffer = []; channel = c' }), desynced w)
unfolding handle_desync pop_any
handle_desync_empty d f c c' o w awake mode p =
    ground (arith, mark_program_as_desynced_lem w awake, p (desynced w))

module _ {Q C T E : Type 0} ⦃q : LogQueue Q⦄ (v : Variants E)
    (replay_recv : DetThreadId → Endpoint C T → Call Q (Result T DesyncError × Endpoint C T))
    (md : RecordMetadata) (f : C → Call Q (Result (DetMessage T) E × C)) (c c' c'' : C)
    (o' : Result (DetMessage T) E) (id : DetThreadId) (w : World Q) where
  -- Under KeepGoing, with nothing buffered, a recorded receive of a thread that was connected to a
  -- recorder which has since been taken returns the second answer of the real channel; the first
  -- answer, with the message that it may carry, is lost, and the program is marked as
  -- desynchronised.
  pub recv_with-record_closed :
      (o : Result (DetMessage T) E)
      → IsAwake w
      → w.desync_mode ≡ keep_going
      → w.event_sender ≡ some id
      → w.recorder ≡ none
      → ((u : World Q) → f c u ≡ returns ((o, c'), u))
      → ((u : World Q) → f c' u ≡ returns ((o', c''), u))
      → (w' : World Q) × (recv_with
            (impl_recvrr v replay_recv)
            record_mode
            md
            f
            (record { buffer = []; channel = c })
            w
          ≡ returns ((message o', record { buffer = []; channel = c'' }), w'))
        × (rest w' ≡ rest (desynced w))
  unfolding recv_with record_replay_recv impl_recvrr
  recv_with-record_closed (ok m) awake mode sender gone p p' =
      let (w₁, e, same) = write_event_to_record_closed w id (v.succ_event m.0) md sender gone in
      let handled =
        handle_desync_empty DesyncError.cannot_write_event_to_log f c' c'' o' w₁
          (subst (λ s. s.parked_threads_started ≡ s.desync) (sym same) awake)
          (ap Rest.desync_mode same ∙ mode) p' in
      (desynced w₁, rw (p w, ◌>>=◌) (rw (e, ◌>>=◌) handled), ap marked_rest same)
  recv_with-record_closed (err x) awake mode sender gone p p' =
      let (w₁, e, same) = write_event_to_record_closed w id (v.err_event x) md sender gone in
      let handled =
        handle_desync_empty DesyncError.cannot_write_event_to_log f c' c'' o' w₁
          (subst (λ s. s.parked_threads_started ≡ s.desync) (sym same) awake)
          (ap Rest.desync_mode same ∙ mode) p' in
      (desynced w₁, rw (p w, ◌>>=◌) (rw (e, ◌>>=◌) handled), ap marked_rest same)
