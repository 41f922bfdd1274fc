-- ===== src/DetThread/Spawn.antt =====
-- detthread.rs: spawning a thread under a deterministic id.
pub mod Laws
use rr_channel.Prelude.{
  Bool, Result, ok, err, pure, panic, and_then, ◌>>=◌, ◌>>◌, ◌==◌, if◌then◌else◌,
}
use rr_channel.DetThread.Id.{DetThreadId, id_eq}
use rr_channel.DetThread.Tls.{
  fresh_thread, generate_new_child_id, initialize_new_thread, fake_channel_id,
}
use rr_channel.Event.{DetChannelId, no_variant, thread_initialized}
use rr_channel.RecordLog.{RecordMetadata, LogQueue}
use rr_channel.World.{Call, RrMode, record_mode, replay_mode, no_rr}
use rr_channel.Checker.{Checker, check_event_mismatch}
use rr_channel.Recorder.{write_event_to_record, get_log_entry, check_events, get_rr_mode}

-- `impl RecordEventChecker<()> for ThreadSpawnChecker`
pub check_thread_spawn : {Q : Type 0} → DetThreadId → Checker Q
check_thread_spawn thread_id (thread_initialized expected_dti) =
    if expected_dti == thread_id then pure (ok tt) else pure (err (thread_initialized thread_id))
check_thread_spawn thread_id _ = pure (err (thread_initialized thread_id))

abbrev pub spawn_metadata : DetChannelId → RecordMetadata
spawn_metadata id = record { type_name = "Thread"; channel_variant = no_variant; id = id }

module _ {Q : Type 0} ⦃q : LogQueue Q⦄ where
  -- The match on the mode: the id of the child is logged, or compared with the log.
  pub spawn_event : DetThreadId → RecordMetadata → RrMode → Call Q (Unit {0})
  spawn_event new_id metadata mode = elim mode [
    | record_mode ↦ do
      written ← write_event_to_record (thread_initialized new_id) metadata
      elim written [ ok _ ↦ pure tt | err _ ↦ panic ]
    | replay_mode ↦ check_events (
        and_then get_log_entry
          (λ event. check_event_mismatch (check_thread_spawn new_id) event metadata))
    | no_rr ↦ pure tt
  ]

  -- `Builder::spawn`; `start` is the spawn of std::thread, given the id that the new thread
  -- initialises itself with.
  pub spawn : {J : Type 0} → (DetThreadId → Call Q J) → Call Q J
  spawn start = do
    new_id ← generate_new_child_id
    id ← fake_channel_id
    mode ← get_rr_mode
    spawn_event new_id (spawn_metadata id) mode
    start new_id

-- What the new thread does before the closure that was passed to `spawn`.
unfoldable pub begin_thread : {Q : Type 0} → DetThreadId → Call Q (Unit {0})
begin_thread new_id w = initialize_new_thread new_id (record w { thread = fresh_thread })
