-- ===== src/Session.antt =====
-- lib.rs: the environment variables, the start of the main thread, and the end of an execution.
pub mod Laws
use text.Mathlib.Text.{◌==◌ as str_eq}
use rr_channel.Prelude.{
  String, Bool, true, Option, none, some, Result, ok, err, pure, panic, modify, ◌>>=◌, ◌>>◌,
  if◌then◌else◌,
}
use rr_channel.RecordLog.{GlobalRecorder, LogQueue, Ron, FlushError, duplicate_entries, flush}
use rr_channel.World.{
  Call, RrMode, record_mode, replay_mode, no_rr, DesyncMode, panic_mode, keep_going,
}

-- What `std::env::var` returns.
pub data EnvVar : Type 0 where
  set : String → EnvVar
  not_present not_unicode : EnvVar

rr_mode_named : String → Option RrMode
rr_mode_named e =
    if str_eq e "record"
    then some record_mode
    else if str_eq e "replay"
    then some replay_mode
    else if str_eq e "norr"
    then some no_rr
    else none

-- RECORD_MODE, from the variable RR_MODE; `to_ascii_lowercase` is that of std.
unfoldable pub record_mode_of : (String → String) → EnvVar → Option RrMode
unfolding rr_mode_named
record_mode_of to_ascii_lowercase (set value) = rr_mode_named (to_ascii_lowercase value)
record_mode_of to_ascii_lowercase _ = none

-- DESYNC_MODE, from the variable RR_DESYNC_MODE.
unfoldable pub desync_mode_of : EnvVar → DesyncMode
desync_mode_of (set value) = if str_eq value "keep_going" then keep_going else panic_mode
desync_mode_of _ = panic_mode

-- LOG_FILE_NAME, from the variable RR_RECORD_FILE; `none` is a panic.
unfoldable pub log_file_name_of : EnvVar → Option String
log_file_name_of (set mode) = some mode
log_file_name_of _ = none

module _ {Q : Type 0} where
  start_root : Bool → Call Q (Unit {0}) → Call Q (Unit {0})
  start_root init_router router_init = do
    modify (λ w. record w { thread = record w.thread { thread_initialized = true } })
    if init_router then router_init else pure tt

  -- `init_tivo_thread_root_test_do`; `router_init` is `ROUTER.init()`.
  unfoldable pub init_tivo_thread_root_do : Bool → Call Q (Unit {0}) → Call Q (Unit {0})
  unfolding start_root
  init_tivo_thread_root_do init_router router_init w =
      if w.thread_initialized then panic w else start_root init_router router_init w

-- Why `execution_done` gives up.
pub data DoneError : Type 0 where
  mode_not_set no_recorder : DoneError
  not_flushed : FlushError → DoneError

module _ {Q : Type 0} ⦃q : LogQueue Q⦄ (ron : Ron) (writable : String → String → Bool) where
  -- The recorder is gone whether or not the flush succeeds. The `panic` is the `unreachable!` of
  -- `get_all_entries`.
  take_and_flush : Option (GlobalRecorder Q) → Call Q (Result (Option (String × String)) DoneError)
  take_and_flush none = pure (err no_recorder)
  take_and_flush (some gr) = do
    modify (λ w. record w { recorder = none })
    elim (flush ron writable gr) [
      | err duplicate_entries ↦ panic
      | err e ↦ pure (err (not_flushed e))
      | ok file ↦ pure (ok (some file))
    ]

  -- The result has the path and the text of the file that was written, if any.
  pub execution_done : Call Q (Result (Option (String × String)) DoneError)
  unfolding take_and_flush
  execution_done w = elim w.rr_mode [
    | none ↦ pure (err mode_not_set) w
    | some record_mode ↦ take_and_flush w.recorder w
    | some _ ↦ pure (ok none) w
  ]
