-- ===== src/TestState.antt =====
-- recordlog.rs, test.rs: a test records and replays in one process, and hands the log over in memory.
pub mod Laws
use rr_channel.Prelude.{
  ℕ, String, Bool, true, Option, none, some, List, [], ◌∷◌, pure, panic, modify, ◌>>=◌, ◌>>◌,
  if◌then◌else◌,
}
use rr_channel.Prelude.Map.{Map, insert}
use rr_channel.DetThread.Id.{DetThreadId, id_eq}
use rr_channel.DetThread.Tls.{new_det_thread_id, get_det_id, starting}
use rr_channel.Event.{ChannelVariant, DetChannelId, TivoEvent, channel_creation}
use rr_channel.RecordLog.{
  new_entry, RecordEntry, LogQueue, Entries, GlobalRecorder, GlobalReplayer, Ron, init,
  get_all_entries, open_log,
}
use rr_channel.World.{Call, RrMode, expect}

-- `DetChannelId::from_raw`
abbrev from_raw : DetThreadId → ℕ → DetChannelId
from_raw dti channel_id = record { det_thread_id = dti; channel_id = channel_id }

-- `test` is `cfg!(test)`. `GlobalRecorder::init_no_file`; `none` is its panic.
pub init_no_file : {Q : Type 0} → Bool → Option (GlobalRecorder Q)
init_no_file test = if test then some (record { recorder = []; path = none }) else none

-- `GlobalReplayer::init_from`; `none` is its panic.
pub init_from : Bool → Entries → Option GlobalReplayer
init_from test replayer = if test then some (record { replayer = replayer }) else none

-- The first use of GLOBAL_RECORDER.
unfoldable pub first_recorder : {Q : Type 0} → Bool → String → Option (GlobalRecorder Q)
unfolding init_no_file
first_recorder test log_file_name = if test then init_no_file test else some (init log_file_name)

module _ {Q : Type 0} ⦃q : LogQueue Q⦄ where
  -- `gr.take().unwrap().get_all_entries()`; a recorder that was taken panics.
  take_entries : Option (GlobalRecorder Q) → Call Q Entries
  take_entries none = panic
  take_entries (some gr) = do
    modify (λ w. record w { recorder = none })
    expect (get_all_entries gr)

  pub take_global_memory_recorder : Call Q Entries
  unfolding take_entries
  take_global_memory_recorder w = take_entries w.recorder w

  set_replayer : Option GlobalReplayer → Call Q (Unit {0})
  set_replayer p = do replayer ← expect p; modify (λ w. record w { replayer = replayer })

  -- The first use of GLOBAL_REPLAYER: in a test it takes the entries of the recorder.
  pub first_replayer : Bool → Ron → (String → Option String) → String → Call Q (Unit {0})
  unfolding set_replayer take_entries init_from
  first_replayer test ron read log_file_name =
      if test
      then (do entries ← (λ w. take_entries w.recorder w); set_replayer (init_from test entries))
      else set_replayer (open_log ron read log_file_name)

  -- The inner loop of `set_global_memory_replayer`.
  pub send_all : Q → List RecordEntry → Q
  send_all s [] = s
  send_all s (e ∷ entries) = send_all (q.send s e) entries

  -- Its outer loop.
  pub receivers_of : Entries → Map DetThreadId Q → Map DetThreadId Q
  receivers_of [] hm = hm
  receivers_of ((det_id, entries) ∷ replayer) hm =
      receivers_of replayer (insert hm det_id (send_all q.unbounded entries))

  pub set_global_memory_replayer : Entries → Call Q (Unit {0})
  set_global_memory_replayer replayer = modify (λ w. record w {
    recorder = some (record { recorder = receivers_of replayer []; path = none });
  })

module _ {Q : Type 0} where
  pub set_rr_mode : RrMode → Call Q (Unit {0})
  set_rr_mode mode = modify (λ w. record w { rr_mode = some mode })

  -- DET_ID and DET_ID_SPAWNER are written whether or not they were read before.
  pub reset_test_state : Call Q (Unit {0})
  reset_test_state = do
    modify (λ w. record w { thread = record w.thread { next_channel_id = 1 } })
    modify (λ w. record w { thread = record w.thread { thread_initialized = true } })
    get_det_id
    det_id ← new_det_thread_id
    modify (λ w. record w { thread = record w.thread { det_id = some det_id } })
    spawner ← starting
    modify (λ w. record w { thread = record w.thread { det_id_spawner = some spawner } })

  -- The log of a program that creates a channel, sends three times and receives three times; `tn` is
  -- `type_name::<i32>()`.
  unfoldable pub simple_program_manual_log :
      TivoEvent → (DetThreadId → TivoEvent) → ChannelVariant → String → Call Q Entries
  simple_program_manual_log send_event recv_event variant tn = do
    dti ← get_det_id
    let entry : TivoEvent → RecordEntry = λ event. new_entry event variant (from_raw dti 1) tn
    let sent = entry send_event
    let received = entry (recv_event dti)
    pure (
        (dti, entry channel_creation ∷ sent ∷ sent ∷ sent ∷ received ∷ received ∷ received ∷ [])
        ∷ [])
