-- ===== src/Channel/Sends.antt =====
-- The send methods: one send, recorded, replayed and desynchronised.
use rr_channel.Prelude.{
  ◌≡◌, refl, sym, subst, true, false, some, List, [], ◌∷◌, ◌++◌, Result, ok, returns, arith, ◌>>=◌,
}
use rr_channel.DetThread.Id.{DetThreadId}
use rr_channel.DetThread.Tls.{get_det_id}
use rr_channel.RecordLog.{RecordEntry, RecordMetadata, LogQueue}
use rr_channel.World.{World, RrMode, record_mode, replay_mode, keep_going}
use rr_channel.Checker.{check_event_mismatch}
use rr_channel.Recorder.{entry_of}
use rr_channel.Recorder.Laws.{
  rest, LogOpen, connected, unconnected, LogLeft, write_event_to_record_open, get_log_entry_some,
}
use rr_channel.Desync.Laws.{program_desynced_lem, already_marked}
use rr_channel.Rr.{SendRecordReplay, record_replay_send, entry_or_sleep}
use rr_channel.Channel.{send_with, send_desynced}
use rr_channel.Channel.Steps.{check_mismatch-entry_of}

pub get_det_id_lem :
    {Q : Type 0} (id : DetThreadId) (w : World Q)
    → w.det_id ≡ some id
    → get_det_id w ≡ returns (id, w)
unfolding get_det_id
get_det_id_lem id w h = ground arith

pub LogOpen-det_id :
    {Q : Type 0} ⦃q : LogQueue Q⦄ {id : DetThreadId} {w : World Q} {written : List RecordEntry}
    → LogOpen id w written
    → w.det_id ≡ some id
LogOpen-det_id (connected g r d s p n h t) = d
LogOpen-det_id (unconnected g d s p n h t) = d

module _ {Q S T E : Type 0} ⦃q : LogQueue Q⦄ (impl : SendRecordReplay Q S T E) (md : RecordMetadata)
    (msg : T) (s s' : S) (o : Result (Unit {0}) E) (id : DetThreadId) where
  -- A recorded send, in a program that is not desynchronised and a thread whose log is open, hands
  -- the message to the real channel with the id of the sender, returns what that answers, and logs
  -- the event of the sender.
  pub send_with-record :
      (w : World Q) (written : List RecordEntry)
      → w.desync ≡ false
      → LogOpen id w written
      → ((u : World Q) → impl.underlying_send id msg s u ≡ returns ((o, s'), u))
      → (w' : World Q) × (send_with impl record_mode md msg s w ≡ returns ((o, s'), w'))
        × LogOpen id w' (written ++ entry_of impl.event_variant md ∷ [])
        × (rest w' ≡ rest w)
  unfolding send_with record_replay_send
  send_with-record w written synced l p =
      let (w', e, l', same) = write_event_to_record_open id w written impl.event_variant md l in
      (
        w',
        rw (program_desynced_lem false w synced, ◌>>=◌)
            (rw (get_det_id_lem id w (LogOpen-det_id l), ◌>>=◌)
              (rw (p w, ◌>>=◌) (rw (e, ◌>>=◌) refl))),
        l',
        same,
      )

  -- A replayed send, in a program that is not desynchronised, whose next entry is that of this send
  -- hands the message to the real channel with the id of the sender, returns what that answers, and
  -- takes the entry.
  pub send_with-replay :
      (w : World Q) (es : List RecordEntry)
      → w.desync ≡ false
      → w.det_id ≡ some id
      → ((u : World Q) → impl.check_recorded_event impl.event_variant u ≡ returns (ok tt, u))
      → LogLeft w (entry_of impl.event_variant md ∷ es)
      → ((u : World Q) → impl.underlying_send id msg s u ≡ returns ((o, s'), u))
      → (w' : World Q) × (send_with impl replay_mode md msg s w ≡ returns ((o, s'), w'))
        × LogLeft w' es
        × (rest w' ≡ rest w)
  unfolding send_with record_replay_send entry_or_sleep check_event_mismatch entry_of
  send_with-replay w es synced own accepted left p =
      let (w', e, l, same) = get_log_entry_some w _ es left in
      (
        w',
        rw (program_desynced_lem false w synced, ◌>>=◌)
            (rw (get_det_id_lem id w own, ◌>>=◌)
              (rw (e, ◌>>=◌)
                (rw (accepted w', ◌>>=◌)
                  (rw (check_mismatch-entry_of impl.event_variant md, ◌>>=◌)
                    (rw (p w', ◌>>=◌) refl))))),
        l,
        same,
      )

  goes_out :
      (w : World Q)
      → w.desync ≡ true
      → w.det_id ≡ some id
      → ((u : World Q) → impl.underlying_send id msg s u ≡ returns ((o, s'), u))
      → send_desynced impl keep_going msg s w ≡ returns ((o, s'), w)
  unfolding send_desynced
  goes_out w marked own p =
      rw (already_marked w marked, ◌>>=◌)
        (rw (get_det_id_lem id w own, ◌>>=◌) (rw (p w, ◌>>=◌) refl))

  -- In a desynchronised program a send under KeepGoing reaches the real channel with the id of the
  -- sender whatever the mode, and leaves the log alone.
  pub send_with-desynced :
      (mode : RrMode) (w : World Q)
      → w.desync ≡ true
      → w.desync_mode ≡ keep_going
      → w.det_id ≡ some id
      → ((u : World Q) → impl.underlying_send id msg s u ≡ returns ((o, s'), u))
      → send_with impl mode md msg s w ≡ returns ((o, s'), w)
  unfolding send_with record_replay_send
  send_with-desynced mode w marked going own p =
      rw (program_desynced_lem true w marked, ◌>>=◌)
        (subst (λ m. send_desynced impl m msg s w ≡ returns ((o, s'), w)) (sym going)
          (goes_out w marked own p))
