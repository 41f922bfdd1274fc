-- ===== src/DetThread/Spawn/Laws.antt =====
-- detthread.rs: a spawn recorded and replayed.
use rr_channel.Prelude.{
  ℕ, ◌<◌, ◌≡◌, refl, true, some, List, [], ◌∷◌, ◌++◌, arith, length, ok, returns, ◌>>=◌,
}
use rr_channel.DetThread.Id.{DetThreadId, max_size, zeroed, id_eq, id_beq_iff}
use rr_channel.DetThread.Id.Paths.{Represents, Represents-functional}
use rr_channel.DetThread.Tls.{new_det_thread_id, fake_channel_id}
use rr_channel.DetThread.Tls.Laws.{SpawnsAt, with_spawner, generate_new_child_id-Represents}
use rr_channel.DetThread.Spawn.{check_thread_spawn, spawn_metadata, spawn_event, spawn}
use rr_channel.Event.{thread_initialized}
use rr_channel.RecordLog.{RecordEntry, RecordMetadata, LogQueue}
use rr_channel.World.{World, Call, DetIdSpawner, RrMode, record_mode, replay_mode}
use rr_channel.Checker.{check_event_mismatch}
use rr_channel.Recorder.{entry_of, check_events, get_rr_mode}
use rr_channel.Recorder.Laws.{
  LogOpen, connected, unconnected, LogLeft, reading, untouched, write_event_to_record_open,
  get_log_entry_some,
}
use rr_channel.Channel.Steps.{check_mismatch-entry_of}

-- The metadata of every spawn.
abbrev pub metadata : RecordMetadata
metadata = spawn_metadata (record { det_thread_id = zeroed; channel_id = 0 })

fake_channel_id_lem :
    {Q : Type 0} (w : World Q)
    → w.thread_initialized ≡ true
    → fake_channel_id w ≡ returns (record { det_thread_id = zeroed; channel_id = 0 }, w)
unfolding fake_channel_id new_det_thread_id
fake_channel_id_lem w h = rw h refl

get_rr_mode_lem :
    {Q : Type 0} (m : RrMode) (w : World Q) → w.rr_mode ≡ some m → get_rr_mode w ≡ returns (m, w)
unfolding get_rr_mode
get_rr_mode_lem m w h = ground arith

module _ {Q : Type 0} ⦃q : LogQueue Q⦄ where
  spawn_event-record :
      (id new_id : DetThreadId) (w : World Q) (written : List RecordEntry)
      → LogOpen id w written
      → (w' : World Q) × (spawn_event new_id metadata record_mode w ≡ returns (tt, w'))
        × LogOpen id w' (written ++ entry_of (thread_initialized new_id) metadata ∷ [])
  unfolding spawn_event
  spawn_event-record id new_id w written l =
      let (w', e, l', _) =
        write_event_to_record_open id w written (thread_initialized new_id) metadata l in
      (w', rw (e, ◌>>=◌) refl, l')

  accepted :
      (new_id : DetThreadId) (w : World Q)
      → check_event_mismatch
          (check_thread_spawn new_id)
          (entry_of (thread_initialized new_id) metadata)
          metadata
          w
        ≡ returns (ok tt, w)
  unfolding check_event_mismatch check_thread_spawn entry_of
  accepted new_id w =
      rw ((id_beq_iff new_id new_id).1 refl)
        (rw (check_mismatch-entry_of (thread_initialized new_id) metadata) refl)

  spawn_event-replay :
      (new_id : DetThreadId) (w : World Q) (es : List RecordEntry)
      → LogLeft w (entry_of (thread_initialized new_id) metadata ∷ es)
      → (w' : World Q) × (spawn_event new_id metadata replay_mode w ≡ returns (tt, w'))
        × LogLeft w' es
  unfolding spawn_event check_events
  spawn_event-replay new_id w es left =
      let (w', e, l, _) = get_log_entry_some w _ es left in
      (w', rw (e, ◌>>=◌) (rw (accepted new_id w', ◌>>=◌) refl), l)

  LogOpen-with_spawner :
      (s : DetIdSpawner) (id : DetThreadId) (w : World Q) (written : List RecordEntry)
      → LogOpen id w written
      → LogOpen id (with_spawner s w) written
  LogOpen-with_spawner s id w written (connected g r d p a n h t) = connected g r d p a n h t
  LogOpen-with_spawner s id w written (unconnected g d p a n h t) = unconnected g d p a n h t

  LogLeft-with_spawner :
      (s : DetIdSpawner) (w : World Q) (es : List RecordEntry)
      → LogLeft w es
      → LogLeft (with_spawner s w) es
  LogLeft-with_spawner s w es (reading p) = reading p
  LogLeft-with_spawner s w es (untouched id p d h) = untouched id p d h

  module _ {J : Type 0} (start : DetThreadId → Call Q J) (w : World Q) (path : List ℕ) (k : ℕ) where
    -- A recorded spawn, in an initialised thread above the maximal depth whose log is open, starts
    -- the child under the path of its parent with the next number, after it has logged that id.
    pub spawn-record :
        (i : DetThreadId) (written : List RecordEntry)
        → length path < max_size
        → w.thread_initialized ≡ true
        → w.rr_mode ≡ some record_mode
        → SpawnsAt w path k
        → LogOpen i w written
        → (id : DetThreadId) × (w' : World Q) × (spawn start w ≡ start id w')
          × Represents id (path ++ k ∷ [])
          × LogOpen i w' (written ++ entry_of (thread_initialized id) metadata ∷ [])
    unfolding spawn
    spawn-record i written deep started mode at l =
        let (id, s, e, r, _) = generate_new_child_id-Represents w path k deep at in
        let w₁ : World Q = with_spawner s w in
        let (w', e', l') =
          spawn_event-record i id w₁ written (LogOpen-with_spawner s i w written l) in
        (
          id,
          w',
          rw (e, ◌>>=◌)
              (rw (fake_channel_id_lem w₁ started, ◌>>=◌)
                (rw (get_rr_mode_lem record_mode w₁ mode, ◌>>=◌) (rw (e', ◌>>=◌) refl))),
          r,
          l',
        )

    -- A replayed spawn, in an initialised thread above the maximal depth whose log has the id of
    -- the next child next, starts the child under this id, and takes the entry.
    pub spawn-replay :
        (id : DetThreadId) (es : List RecordEntry)
        → length path < max_size
        → w.thread_initialized ≡ true
        → w.rr_mode ≡ some replay_mode
        → SpawnsAt w path k
        → Represents id (path ++ k ∷ [])
        → LogLeft w (entry_of (thread_initialized id) metadata ∷ es)
        → (w' : World Q) × (spawn start w ≡ start id w') × LogLeft w' es
    unfolding spawn
    spawn-replay id es deep started mode at own left =
        let (i, s, e, r, _) = generate_new_child_id-Represents w path k deep at in
        let same : i ≡ id = Represents-functional i id (path ++ k ∷ []) r own in
        let w₁ : World Q = with_spawner s w in
        let (w', e', l') = spawn_event-replay id w₁ es (LogLeft-with_spawner s w _ left) in
        (
          w',
          rw (e, ◌>>=◌)
              (rw (fake_channel_id_lem w₁ started, ◌>>=◌)
                (rw (get_rr_mode_lem replay_mode w₁ mode, ◌>>=◌) (rw same (rw (e', ◌>>=◌) refl)))),
          l',
        )
