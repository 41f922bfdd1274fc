-- ===== src/Select.antt =====
-- crossbeam_select.rs: the wrapped `Select`, to which receivers are added and which waits for one of
-- them to be ready.
pub mod Operation
pub mod Rounds
pub mod Record
pub mod Supply
pub mod Replay
pub mod RoundTrip
pub mod Adds
pub mod Desynced
use rr_channel.Prelude.{
  ℕ, String, Bool, true, false, Option, none, some, List, [], ◌∷◌, Result, ok, err, Outcome, pure,
  panic, and_then, ◌>>=◌, ◌>>◌, ◌==◌, nat_eq, if◌then◌else◌,
}
use rr_channel.Prelude.Map.{Map, get, insert}
use rr_channel.Prelude.Map.Queues.{any_entry}
use rr_channel.DetThread.Id.{DetThreadId, id_eq}
use rr_channel.DetThread.Tls.{new_det_thread_id, fake_channel_id}
use rr_channel.Event.{
  TivoEvent, RecvError, ChannelVariant, no_variant, DetChannelId, SelectEvent, success,
  crossbeam_select, crossbeam_select_add, crossbeam_select_ready,
}
use rr_channel.Error.{DesyncError, desynchronized, missing_receiver, event_mismatch}
use rr_channel.RecordLog.{RecordEntry, RecordMetadata, LogQueue}
use rr_channel.World.{
  Call, RrMode, DesyncMode, record_mode, replay_mode, no_rr, panic_mode, keep_going,
}
use rr_channel.Checker.{Checker, check_event_mismatch}
use rr_channel.Recorder.{get_log_entry, write_event_to_record, check_events, get_rr_mode}
use rr_channel.Desync.{DetMessage, program_desynced, mark_program_as_desynced}
use rr_channel.Rr.{entry_or_sleep}
use rr_channel.Channel.{RealReceiver, lift}
use rr_channel.Crossbeam.{ChannelKind, Receiver}
use rr_channel.Crossbeam.Receive.{poll_entry}

-- The receivers of the program, by reference. Those of one model have one message type.
abbrev pub Receivers : Type 0 → Type 0 → Type 0 → Type 0
Receivers A C T = ℕ → Receiver A C T

abbrev pub assign : {A C T : Type 0} → Receivers A C T → ℕ → Receiver A C T → Receivers A C T
assign rs p r i = if p == i then r else rs i

-- What is used of crossbeam_channel's `Select`, with states in `S`, and of the `SelectedOperation`s
-- `O` that it returns. It is given references, and waits for the real channels behind them; `recv`
-- of an operation takes the real channel, and the message out of it.
pub record RealSelect (S O A C T : Type 0) : Type 0 where
  pub new : S
  pub recv : ℕ → S → ℕ × S
  pub select : S → (ℕ → ChannelKind A C) → Outcome (O × S)
  pub ready : S → (ℕ → ChannelKind A C) → Outcome (ℕ × S)
  pub index : O → ℕ
  pub recv_timer : O → A → Outcome (Result T RecvError × A)
  pub recv_message : O → C → Outcome (Result (DetMessage T) RecvError × C)

-- `impl RecordEventChecker<()> for SelectAddChecker`
pub check_select_add : {Q : Type 0} → ℕ → Checker Q
check_select_add actual_index (crossbeam_select_add expected_index) =
    if expected_index == actual_index
    then pure (ok tt)
    else pure (err (crossbeam_select_add actual_index))
check_select_add actual_index _ = pure (err (crossbeam_select_add actual_index))

-- `receivers` gives the reference that stands at an index.
pub record Select (S : Type 0) : Type 0 where
  pub selector : S
  pub mode : RrMode
  pub receivers : Map ℕ ℕ

-- `BufferedReceiver::buffered_value`
pub buffered_value : {A C T : Type 0} → Receiver A C T → Bool
buffered_value r = any_entry r.buffer

-- `SelectedOperationImpl`
pub data SelectedOperation (O : Type 0) : Type 0 where
  replayed : SelectEvent → ChannelVariant → DetChannelId → SelectedOperation O
  desync_buffer_entry : ℕ → SelectedOperation O
  recorded passed desync : O → SelectedOperation O

-- `(0 - 1) as usize`, for an index that no receiver has.
abbrev pub no_index : ℕ
no_index = 18_446_744_073_709_551_615

module _ {Q S O A C T : Type 0} (real_select : RealSelect S O A C T) where
  -- `Select::new`
  unfoldable pub new_select : Call Q (Select S)
  new_select = do
    mode ← get_rr_mode
    pure (record { selector = real_select.new; mode = mode; receivers = [] })

  -- `Select::send`
  unfoldable pub add_send : ℕ → Select S → Call Q (ℕ × Select S)
  add_send _ _ = panic

  abbrev wait : Select S → Receivers A C T → Call Q (O × Select S)
  wait s rs = do
    (selected, selector) ← lift (real_select.select s.selector (λ i. (rs i).channel))
    pure (selected, record s { selector = selector })

  abbrev wait_ready : Select S → Receivers A C T → Call Q (ℕ × Select S)
  wait_ready s rs = do
    (index, selector) ← lift (real_select.ready s.selector (λ i. (rs i).channel))
    pure (index, record s { selector = selector })

module _ {Q : Type 0} ⦃q : LogQueue Q⦄ where
  -- The closure that `Select::recv` gives to `check_events`.
  pub check_add : RrMode → ℕ → RecordMetadata → Call Q (Result (Unit {0}) DesyncError)
  check_add mode index metadata = elim mode [
    | record_mode ↦ write_event_to_record (crossbeam_select_add index) metadata
    | replay_mode ↦
        and_then get_log_entry (λ e. check_event_mismatch (check_select_add index) e metadata)
    | no_rr ↦ pure (ok tt)
  ]

replay_ready : TivoEvent → Result ℕ DesyncError
replay_ready (crossbeam_select_ready select_index) = ok select_index
replay_ready event = err (event_mismatch event (crossbeam_select_ready 0))

module _ {Q S O A C T : Type 0} ⦃q : LogQueue Q⦄ (real_select : RealSelect S O A C T) where
  -- `Select::recv`, given a reference to the receiver.
  pub add_recv : ℕ → Receivers A C T → Select S → Call Q (ℕ × Select S)
  unfolding check_add
  add_recv r rs s =
      let (index, selector) = real_select.recv r s.selector in
      elim (get s.receivers index) [
        | some _ ↦ panic
        | none ↦ do
          check_events (check_add s.mode index (rs r).metadata)
          pure (index, record s { selector = selector; receivers = insert s.receivers index r })
      ]

  ready_metadata : Call Q RecordMetadata
  ready_metadata = do
    id ← fake_channel_id
    pure (record { type_name = "ready"; channel_variant = no_variant; id = id })

  record_ready : Select S → Receivers A C T → Call Q (Result ℕ DesyncError × Select S)
  record_ready s rs = do
    (select_index, s') ← wait_ready real_select s rs
    metadata ← ready_metadata
    written ← write_event_to_record (crossbeam_select_ready select_index) metadata
    elim written [ err e ↦ pure (err e, s') | ok _ ↦ pure (ok select_index, s') ]

  unfoldable pub rr_ready : Select S → Receivers A C T → Call Q (Result ℕ DesyncError × Select S)
  unfolding ready_metadata record_ready replay_ready
  rr_ready s rs = do
    is_desynced ← program_desynced
    if is_desynced then pure (err desynchronized, s) else elim s.mode [
      | record_mode ↦ record_ready s rs
      | replay_mode ↦ do
        entry ← get_log_entry
        elim entry [ err e ↦ pure (err e, s) | ok e ↦ pure (replay_ready e.event, s) ]
      | no_rr ↦ do (index, s') ← wait_ready real_select s rs; pure (ok index, s')
    ]

  ready_desynced : DesyncMode → Select S → Receivers A C T → Call Q (ℕ × Select S)
  ready_desynced panic_mode s rs = panic
  ready_desynced keep_going s rs = do mark_program_as_desynced; wait_ready real_select s rs

  unfoldable pub ready : Select S → Receivers A C T → Call Q (ℕ × Select S)
  unfolding ready_desynced
  ready s rs = do
    (found, s') ← rr_ready s rs
    elim found [ ok index ↦ pure (index, s') | err _ ↦ λ w. ready_desynced w.desync_mode s' rs w ]

-- `for (index, receiver) in self.receivers.iter() { if receiver.buffered_value() { … } }`
pub find_buffered : {A C T : Type 0} → Map ℕ ℕ → Receivers A C T → Option ℕ
find_buffered [] rs = none
find_buffered ((index, r) ∷ m) rs = if buffered_value (rs r) then some index else find_buffered m rs

-- `fuel` bounds the messages that a poll takes off a channel in search of one.
module _ {Q S O A C T : Type 0} ⦃q : LogQueue Q⦄ (timer : RealReceiver A T)
    (real : RealReceiver C (DetMessage T)) (real_select : RealSelect S O A C T) (fuel : ℕ) where
  -- `BufferedReceiver::poll`
  pub poll_receiver : DetThreadId → ℕ → Receivers A C T → Call Q (Bool × Receivers A C T)
  poll_receiver sender r rs = do
    (found, endpoint) ← poll_entry timer real fuel sender (rs r).endpoint
    pure (found, assign rs r (record (rs r) { endpoint = endpoint }))

  -- The poll of the receiver that a successful selection is recorded of.
  verify :
      String
      → SelectEvent
      → Select S
      → Receivers A C T
      → Call Q (Result (Unit {0}) DesyncError × Receivers A C T)
  verify type_name (success sender_thread selected_index) s rs =
      elim (get s.receivers selected_index) [
        | none ↦ pure (err (missing_receiver selected_index), rs)
        | some r ↦ do
          (found, rs') ← poll_receiver sender_thread r rs
          if found
              then pure (ok tt, rs')
              else pure (err (DesyncError.timeout (some type_name)), rs')
      ]
  verify type_name (SelectEvent.recv_error _) s rs = pure (ok tt, rs)

  replay_selection :
      RecordEntry
      → SelectEvent
      → Select S
      → Receivers A C T
      → Call Q (Result (SelectedOperation O) DesyncError × Receivers A C T)
  replay_selection entry event s rs = do
    (verified, rs') ← verify entry.type_name event s rs
    elim verified [
      | err e ↦ pure (err e, rs')
      | ok _ ↦ pure (ok (replayed event entry.channel_variant entry.chan_id), rs')
    ]

  replay_event :
      RecordEntry
      → TivoEvent
      → Select S
      → Receivers A C T
      → Call Q (Result (SelectedOperation O) DesyncError × Receivers A C T)
  replay_event entry (crossbeam_select event) s rs = replay_selection entry event s rs
  replay_event entry e s rs = do
    dummy ← new_det_thread_id
    pure (err (event_mismatch e (crossbeam_select (success dummy no_index))), rs)

  replay_select :
      Select S
      → Receivers A C T
      → Call Q (Result (SelectedOperation O) DesyncError × Receivers A C T)
  replay_select s rs = do
    found ← entry_or_sleep
    elim found [ err e ↦ pure (err e, rs) | ok entry ↦ replay_event entry entry.event s rs ]

  unfoldable pub rr_select :
      Select S
      → Receivers A C T
      → Call Q (Result (SelectedOperation O) DesyncError × Select S × Receivers A C T)
  unfolding verify replay_selection replay_event replay_select
  rr_select s rs = do
    is_desynced ← program_desynced
    if is_desynced then pure (err desynchronized, s, rs) else elim s.mode [
      | record_mode ↦ do
        (selected, s') ← wait real_select s rs
        pure (ok (recorded selected), s', rs)
      | replay_mode ↦ do (found, rs') ← replay_select s rs; pure (found, s, rs')
      | no_rr ↦ do (selected, s') ← wait real_select s rs; pure (ok (passed selected), s', rs)
    ]

  select_desynced :
      DesyncMode
      → Select S
      → Receivers A C T
      → Call Q (SelectedOperation O × Select S × Receivers A C T)
  select_desynced panic_mode s rs = panic
  select_desynced keep_going s rs = do
    mark_program_as_desynced
    elim (find_buffered s.receivers rs) [
      | some index ↦ pure (desync_buffer_entry index, s, rs)
      | none ↦ do (selected, s') ← wait real_select s rs; pure (desync selected, s', rs)
    ]

  unfoldable pub select :
      Select S → Receivers A C T → Call Q (SelectedOperation O × Select S × Receivers A C T)
  unfolding select_desynced
  select s rs = do
    (found, s', rs') ← rr_select s rs
    elim found [
      | ok inner ↦ pure (inner, s', rs')
      | err _ ↦ λ w. select_desynced w.desync_mode s' rs' w
    ]
