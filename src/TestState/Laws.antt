-- ===== src/TestState/Laws.antt =====
-- recordlog.rs, test.rs: the log of a test comes back in memory.
use mathlib.Core.Option
use rr_channel.Prelude.{
  String, ◌≡◌, refl, sym, ap, ◌∙◌, Option, Option-cases, none, some, inl, inr, List, [], ◌∷◌, ◌++◌,
  true, returns, panics, arith, ◌>>=◌, ◌>>◌,
}
use mathlib.Core.List.{append_assoc, append-nil}
use rr_channel.Prelude.Map.{
  Map, keys, IsDistinct, get, insert, get-insert, get_of_not-contains, insert-IsDistinct,
}
use rr_channel.DetThread.Id.{DetThreadId, zeroed, id_eq, id_beq_iff}
use rr_channel.DetThread.Tls.{new_det_thread_id, get_det_id, starting}
use rr_channel.RecordLog.{RecordEntry, LogQueue, Entries, GlobalRecorder, Ron}
use rr_channel.RecordLog.Laws.{IsRecorder, get_all_entries_lem}
use rr_channel.World.{World, replay_mode}
use rr_channel.Recorder.Laws.{LogLeft, untouched}
use rr_channel.TestState.{
  init_from, take_global_memory_recorder, first_replayer, send_all, receivers_of,
  set_global_memory_replayer, set_rr_mode, reset_test_state,
}

module _ {Q : Type 0} ⦃q : LogQueue Q⦄ where
  try_iter-send_all :
      (s : Q) (entries : List RecordEntry)
      → q.try_iter (send_all s entries) ≡ q.try_iter s ++ entries
  unfolding send_all
  try_iter-send_all s [] = sym (append-nil (q.try_iter s))
  try_iter-send_all s (e ∷ entries) =
      try_iter-send_all (q.send s e) entries
      ∙ ap (λ l. l ++ entries) (q.try_iter-send s e)
      ∙ append_assoc (q.try_iter s) (e ∷ []) entries

  -- What the receivers hold in the end: the given entries, or what was there.
  abbrev held : Entries → Map DetThreadId Q → DetThreadId → Option (List RecordEntry)
  held log hm id = elim (get log id) [
    | some es ↦ some es
    | none ↦ Option.map q.try_iter (get hm id)
  ]

  receivers_of-IsDistinct :
      (log : Entries) (hm : Map DetThreadId Q)
      → IsDistinct (keys hm)
      → IsDistinct (keys (receivers_of log hm))
  unfolding receivers_of
  receivers_of-IsDistinct [] hm d = d
  receivers_of-IsDistinct ((k, es) ∷ log) hm d =
      receivers_of-IsDistinct log (insert hm k (send_all q.unbounded es))
        (insert-IsDistinct hm k (send_all q.unbounded es) d)

  get-receivers_of :
      (log : Entries) (hm : Map DetThreadId Q) (id : DetThreadId)
      → IsDistinct (keys log)
      → Option.map q.try_iter (get (receivers_of log hm) id) ≡ held log hm id
  unfolding receivers_of get
  get-receivers_of [] hm id d = refl
  get-receivers_of ((k, es) ∷ log) hm id d =
      let rec = get-receivers_of log (insert hm k (send_all q.unbounded es)) id d.1 in
      let sent : q.try_iter (send_all q.unbounded es) ≡ es =
        try_iter-send_all q.unbounded es ∙ ap (λ l. l ++ es) q.try_iter-unbounded in
      rec
      ∙ ground (
        arith,
        id_beq_iff k id,
        get-insert hm k id (send_all q.unbounded es),
        get_of_not-contains log k d.0,
        sent,
      )

  -- The world `w` after a reset, with `hm` as the log to replay.
  abbrev pub after_reset : Entries → World Q → World Q
  after_reset hm w = record w {
    rr_mode = some replay_mode;
    recorder = none;
    replayer = record { replayer = hm };
    thread = record w.thread {
      next_channel_id = 1;
      thread_initialized = true;
      det_id = some zeroed;
      det_id_spawner = some (record { child_index = 1; thread_id = zeroed });
    };
  }

  module _ (ron : Ron) (read : String → Option String) (log_file_name : String) where
    -- In a test the replayer takes over what the recorder holds.
    first_replayer_lem :
        (w : World Q) (g : GlobalRecorder Q)
        → w.recorder ≡ some g
        → IsRecorder g
        → (hm : Entries) × (first_replayer true ron read log_file_name w
            ≡ returns (tt, record w { recorder = none; replayer = record { replayer = hm } }))
          × ((id : DetThreadId) → get hm id ≡ Option.map q.try_iter (get g.recorder id))
    unfolding first_replayer init_from
    first_replayer_lem w g p d =
        let (hm, e, f) = get_all_entries_lem g d in (hm, rw (p, ◌>>=◌) (rw (e, ◌>>=◌) refl), f)

    -- A log that a test sets by hand is what the replayer has, thread by thread, and the recorder is
    -- then taken.
    pub set-first_replayer :
        (log : Entries) (w : World Q)
        → IsDistinct (keys log)
        → (w' : World Q) × (hm : Entries) × ((set_global_memory_replayer log
                >> first_replayer true ron read log_file_name)
              w
            ≡ returns (tt, w'))
          × (take_global_memory_recorder w' ≡ panics)
          × (w'.replayer ≡ record { replayer = hm })
          × ((id : DetThreadId) → get hm id ≡ get log id)
    unfolding set_global_memory_replayer take_global_memory_recorder get
    set-first_replayer log w d =
        let g : GlobalRecorder Q = record { recorder = receivers_of log []; path = none } in
        let (hm, e, f) =
          first_replayer_lem (record w { recorder = some g }) g refl
            (receivers_of-IsDistinct log [] tt) in
        (
          record w { recorder = none; replayer = record { replayer = hm } },
          hm,
          rw e refl,
          refl,
          refl,
          λ id. f id ∙ get-receivers_of log [] id d ∙ ground arith,
        )

    -- In a test whose recorder holds a log of the thread with the zeroed id, where no thread has
    -- two receivers, and whose thread has not read a log yet, reset_test_state, set_rr_mode and the
    -- first use of the replayer succeed, whatever id and counters the thread had. The thread is
    -- then initialised, has the zeroed id and a spawner for that id, and counts channels and
    -- children from 1; the mode is replay, nothing else of the state has changed but the recorder
    -- and the replayer: the entries of every thread have moved from the one to the other, those of
    -- the zeroed id are what the thread has left to replay, in order, and taking the recorder again
    -- panics.
    pub reset-LogLeft :
        (w : World Q) (g : GlobalRecorder Q) (queue : Q) (written : List RecordEntry)
        → w.recorder ≡ some g
        → IsRecorder g
        → get g.recorder zeroed ≡ some queue
        → q.try_iter queue ≡ written
        → w.event_receiver ≡ none
        → (hm : Entries) × ((reset_test_state
                >> set_rr_mode replay_mode
                >> first_replayer true ron read log_file_name)
              w
            ≡ returns (tt, after_reset hm w))
          × LogLeft (after_reset hm w) written
          × ((id : DetThreadId) → get hm id ≡ Option.map q.try_iter (get g.recorder id))
          × (take_global_memory_recorder (after_reset hm w) ≡ panics)
    unfolding reset_test_state set_rr_mode take_global_memory_recorder get_det_id new_det_thread_id
        starting
    reset-LogLeft w g queue written p n h t r =
        let (hm, e, f) =
          first_replayer_lem
            (record (after_reset [] w) { recorder = w.recorder; replayer = w.replayer }) g p n in
        let run : (reset_test_state
                >> set_rr_mode replay_mode
                >> first_replayer true ron read log_file_name)
              w
            ≡ returns (tt, after_reset hm w) =
          elim (Option-cases w.det_id) [
            | inl d ↦ rw (d, ◌>>=◌) (rw e refl)
            | inr (_, d) ↦ rw (d, ◌>>=◌) (rw e refl)
          ] in
        (
          hm,
          run,
          untouched zeroed r refl (f zeroed ∙ ap (Option.map q.try_iter) h ∙ ap some t),
          f,
          refl,
        )
