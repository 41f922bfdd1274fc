-- ===== src/Crossbeam/RoundTrip.antt =====
-- From the recorded run over the log file to the replayed run.
use rr_channel.Prelude.{
  ℕ, String, ap, ◌∙◌, ◌≡◌, ◌≢◌, Bool, Option, none, some, List, [], ◌∷◌, map, arith, ok, returns,
  subst,
}
use mathlib.Core.List.{append-nil}
use rr_channel.Prelude.Map.{get}
use rr_channel.DetThread.Id.{DetThreadId, id_eq}
use rr_channel.RecordLog.{
  RecordEntry, RecordMetadata, LogQueue, GlobalRecorder, GlobalReplayer, Ron, flush, open_log,
}
use rr_channel.RecordLog.Laws.{IsRecorder, flush_then_replay, get-take_entry}
use rr_channel.World.{World, record_mode, replay_mode}
use rr_channel.Recorder.Laws.{LogOpen, connected, unconnected, LogLeft, untouched}
use rr_channel.Desync.{DetMessage, BufferedValues, Endpoint}
use rr_channel.Channel.{RealReceiver}
use rr_channel.Crossbeam.{ChannelKind, Receiver}
use rr_channel.Crossbeam.Fifo.{IsFifoChannel}
use rr_channel.Crossbeam.Program.{
  Wrap, Reply, Answer, run, op_of, reply_of, entries_of, delivered, Delivers,
}
use rr_channel.Crossbeam.Record.{receiver, endpoint_at, run-record}
use rr_channel.Crossbeam.Replay.{IsSupplied, run-replay}

-- A thread of the replaying process, under its deterministic id, before it reads its log.
pub record IsReplaying {Q : Type 0} (id : DetThreadId) (p : GlobalReplayer) (v : World Q)
    : Type 0 where
  pub same_id : v.det_id ≡ some id
  pub log_untouched : v.event_receiver ≡ none
  pub log_loaded : v.replayer ≡ p

module _ {Q : Type 0} ⦃q : LogQueue Q⦄ (ron : Ron) (writable : String → String → Bool)
    (read : String → Option String) where
  -- The log that a thread left open, flushed and read back, is what it has left to replay.
  pub LogOpen-LogLeft :
      (id : DetThreadId) (w : World Q) (v : World Q) (written : List RecordEntry)
      (g : GlobalRecorder Q) (path text : String) (p : GlobalReplayer)
      → LogOpen id w written
      → written ≢ []
      → w.recorder ≡ some g
      → flush ron writable g ≡ ok (path, text)
      → read path ≡ some text
      → open_log ron read path ≡ some p
      → IsReplaying id p v
      → LogLeft v written
  LogOpen-LogLeft id w v written g path text p (unconnected g' d s e n h t) ne eg fl rd op start =
      absurd (ne t)
  LogOpen-LogLeft id w v written g path text p (connected g' r d s e n h t) ne eg fl rd op start =
      let same : g' ≡ g = ground (arith, e, eg) in
      let (p', rest, opened, found) =
        flush_then_replay ron writable g read path text id r (subst IsRecorder same n) fl rd
          (subst (λ g. get g.recorder id ≡ some r) same h) in
      let loaded : p' ≡ v.replayer = ground (arith, opened, op, start.log_loaded) in
      let held : get p'.replayer id ≡ some written =
        get-take_entry p' rest id (q.try_iter r) found ∙ ap some t in
      untouched id start.log_untouched start.same_id
        (subst (λ x. get x.replayer id ≡ some written) loaded held)

  module _ {A C T : Type 0} (timer : RealReceiver A T) (real : RealReceiver C (DetMessage T))
      (fuel : ℕ) (md : RecordMetadata) (fifo : IsFifoChannel real) where
    -- A program of at least one receive call on one channel, recorded from an empty open log while
    -- the real channel answers every call, then flushed to the log file, read back and replayed by
    -- a thread with the same id, gets the same replies; the channel of the replay need only hold,
    -- within the fuel, the same messages of each sender in the same order, and may interleave the
    -- senders otherwise.
    pub record_then_replay :
        (k : Wrap) (buffer : BufferedValues T) (c : C) (a : Answer T) (answers : List (Answer T))
        (later : DetThreadId → List T) (id : DetThreadId) (w w' v : World Q)
        (r : Endpoint (ChannelKind A C) T) (replies : List (Reply T)) (r' : Receiver A C T)
        (g : GlobalRecorder Q) (path text : String) (p : GlobalReplayer)
        → LogOpen id w []
        → Delivers real c (a ∷ answers)
        → run timer real fuel
            (map op_of (a ∷ answers))
            (receiver md record_mode (endpoint_at k c buffer))
            w
          ≡ returns ((replies, r'), w')
        → w'.recorder ≡ some g
        → flush ron writable g ≡ ok (path, text)
        → read path ≡ some text
        → open_log ron read path ≡ some p
        → IsReplaying id p v
        → IsSupplied fifo fuel r (delivered (a ∷ answers)) later
        → (r'' : Endpoint (ChannelKind A C) T) × (v' : World Q) × (run timer real fuel
              (map op_of (a ∷ answers))
              (receiver md replay_mode r)
              v
            ≡ returns ((replies, receiver md replay_mode r''), v'))
          × IsSupplied fifo fuel r'' [] later
    record_then_replay k buffer c a answers later id w w' v r replies r' g path text p l ds ran eg
          fl rd op start supply =
        let (w₁, c', e, l₁) = run-record timer real fuel md k buffer c (a ∷ answers) id w [] l ds in
        let same : w₁ ≡ w' = ground (arith, e, ran) in
        let same_replies : map reply_of (a ∷ answers) ≡ replies = ground (arith, e, ran) in
        let left : LogLeft v (entries_of md (a ∷ answers)) =
          LogOpen-LogLeft id w' v (entries_of md (a ∷ answers)) g path text p
            (subst (λ w. LogOpen id w (entries_of md (a ∷ answers))) same l₁)
            (λ x. ground (arith, x)) eg fl rd op start in
        let (r'', v', e', _, s') =
          run-replay timer real fuel md fifo (a ∷ answers) later r v [] (rw append-nil left)
            supply in
        (r'', v', rw (← same_replies) e', s')
