-- ===== src/Recorder/Others.antt =====
-- lib.rs: the logs of the other threads, while one thread writes to its own or reads from it.
use rr_channel.Prelude.{◌≡◌, refl, sym, ap, ◌∙◌, false, Option, some, List, arith, ◌==◌}
use rr_channel.Prelude.Map.{get}
use rr_channel.DetThread.Id.{DetThreadId, id_eq}
use rr_channel.RecordLog.{RecordEntry, LogQueue, GlobalRecorder}
use rr_channel.RecordLog.Laws.{IsRecorder}
use rr_channel.World.{World, Thread}
use rr_channel.Recorder.Laws.{
  Rest, rest, others, receiver_of, LogOpen, connected, unconnected, LogLeft, reading, untouched,
}

-- The world as another thread sees it.
abbrev pub seen_by : {Q : Type 0} → World Q → Thread → World Q
seen_by w t = record w { thread = t }

others_other :
    {V : Type 0} (own : Option DetThreadId) (id i : DetThreadId) (f : DetThreadId → Option V)
    → own ≡ some id
    → (id == i) ≡ false
    → others own f i ≡ f i
others_other own id i f d ne = rw d (rw ne refl)

LogOpen-recorder :
    {Q : Type 0} ⦃q : LogQueue Q⦄ {id : DetThreadId} {w : World Q} {written : List RecordEntry}
    → LogOpen id w written
    → (g : GlobalRecorder Q) × (w.recorder ≡ some g) × IsRecorder g
LogOpen-recorder (connected g r d s p n h t) = (g, p, n)
LogOpen-recorder (unconnected g d s p n h t) = (g, p, n)

module _ {Q : Type 0} (own other : DetThreadId) (w w' : World Q) (t : Thread)
    (d : w.det_id ≡ some own) (ne : (own == other) ≡ false) (named : t.det_id ≡ some other)
    (same : rest w' ≡ rest w) where
  d' : w'.det_id ≡ some own
  d' = ap (λ (x : Rest Q). x.det_id) same ∙ d

  entries_kept : get w'.replayer.replayer other ≡ get w.replayer.replayer other
  entries_kept =
      sym (others_other w'.det_id own other (get w'.replayer.replayer) d' ne)
      ∙ ap (λ (x : Rest Q). x.other_entries other) same
      ∙ others_other w.det_id own other (get w.replayer.replayer) d ne

  receiver_kept : receiver_of w'.recorder other ≡ receiver_of w.recorder other
  receiver_kept =
      sym (others_other w'.det_id own other (receiver_of w'.recorder) d' ne)
      ∙ ap (λ (x : Rest Q). x.other_logs other) same
      ∙ others_other w.det_id own other (receiver_of w.recorder) d ne

  -- What another thread has left to read stays.
  pub LogLeft-kept :
      (left : List RecordEntry) → LogLeft (seen_by w t) left → LogLeft (seen_by w' t) left
  LogLeft-kept left (reading p) = reading p
  LogLeft-kept left (untouched id p e h) =
      let is_other : id ≡ other = ground (arith, e, named) in
      untouched id p e (
        ap (get w'.replayer.replayer) is_other
        ∙ entries_kept
        ∙ sym (ap (get w.replayer.replayer) is_other)
        ∙ h)

  module _ ⦃q : LogQueue Q⦄ (written written' : List RecordEntry) where
    -- The log of another thread stays open, with what is in it.
    pub LogOpen-kept :
        LogOpen own w' written'
        → LogOpen other (seen_by w t) written
        → LogOpen other (seen_by w' t) written
    LogOpen-kept l (connected g r n s p u h x) =
        let (g', p', u') = LogOpen-recorder l in
        connected g' r n s p' u'
          (ap (λ o. receiver_of o other) (sym p')
            ∙ receiver_kept
            ∙ ap (λ o. receiver_of o other) p
            ∙ h)
          x
    LogOpen-kept l (unconnected g n s p u h x) =
        let (g', p', u') = LogOpen-recorder l in
        unconnected g' n s p' u'
          (ap (λ o. receiver_of o other) (sym p')
            ∙ receiver_kept
            ∙ ap (λ o. receiver_of o other) p
            ∙ h)
          x
