-- ===== src/Ipc/Set.antt =====
-- ipc_channel/mod.rs: `IpcReceiverSet`, its receivers and its buffer.
pub mod Entry
pub mod Found
pub mod Fifo
pub mod Moves
pub mod Refine
pub mod RoundTrip
pub mod Selection
pub mod Select
use rr_channel.Prelude.{
  ℕ, zero, suc, ◌+◌, ◌%◌, ◌^◌, Bool, true, false, Option, none, some, List, [], ◌∷◌, ◌++◌, Result,
  ok, err, Outcome, pure, panic, and_then, ◌>>=◌, ◌>>◌, ◌==◌, nat_eq, if◌then◌else◌, get_elem?,
}
use rr_channel.Prelude.Map.{Map, get, insert}
use rr_channel.Prelude.Map.Queues.{push_back, pop_front}
use rr_channel.DetThread.Id.{DetThreadId, id_eq}
use rr_channel.Event.{ipc_select_add}
use rr_channel.Error.{DesyncError, desynchronized, select_existing_entry}
use rr_channel.RecordLog.{RecordMetadata, LogQueue}
use rr_channel.World.{
  Call, RrMode, DesyncMode, record_mode, replay_mode, no_rr, panic_mode, keep_going,
}
use rr_channel.Checker.{Checker, check_event_mismatch}
use rr_channel.Recorder.{get_log_entry, write_event_to_record, check_events, get_rr_mode}
use rr_channel.Desync.{BufferedValues, program_desynced, mark_program_as_desynced}
use rr_channel.Ipc.{IpcReceiver, OpaqueIpcReceiver, to_opaque}
use rr_channel.Ipc.Create.{channel}

-- Both `IpcSelectionResult`s, ipc_channel's and the wrapper's, whose messages are opaque.
pub data IpcSelectionResult (M : Type 0) : Type 0 where
  message_received : ℕ → M → IpcSelectionResult M
  channel_closed : ℕ → IpcSelectionResult M

-- `IpcSelectionResult::unwrap`
unfoldable pub unwrap : {Q M : Type 0} → IpcSelectionResult M → Call Q (ℕ × M)
unwrap (message_received id message) = pure (id, message)
unwrap (channel_closed id) = panic

-- What is used of ipc_channel: its receiver set `R`, opaque receivers `K` and senders `D`, whose
-- messages are `M`, and the errors `X` of a receiver and `F` of the rest. `unit_channel` makes a
-- channel; `deserialize_id` is bincode's reading of the id that stands first in a message.
pub record RealSet (R K D M X F : Type 0) : Type 0 where
  pub new : Result R F
  pub add_opaque : K → R → Result ℕ F × R
  pub select : R → Outcome (Result (List (IpcSelectionResult M)) F × R)
  pub try_recv : K → Result M X × K
  pub channel_is_closed : X → Bool
  pub sleep : ℕ → K → K
  pub unit_channel : Result (D × K) F
  pub deserialize_id : M → Option DetThreadId

pub record IpcReceiverSet (R K D M : Type 0) : Type 0 where
  pub receiver_set : R
  pub mode : RrMode
  pub index : ℕ
  pub receivers : List (OpaqueIpcReceiver K)
  pub buffer : Map ℕ (BufferedValues M)
  pub desynced : Bool
  pub dummy_senders : List D

-- `n + 1` on a `u64` that wraps.
abbrev pub next_u64 : ℕ → ℕ
next_u64 n = (n + 1) % 2 ^ 64

-- `impl RecordEventChecker<()> for SelectAddChecker`
unfoldable pub check_select_add : {Q : Type 0} → ℕ → Checker Q
check_select_add actual_index (ipc_select_add expected_index) =
    if expected_index == actual_index
    then pure (ok tt)
    else pure (err (ipc_select_add actual_index))
check_select_add actual_index _ = pure (err (ipc_select_add actual_index))

-- `Vec::insert`, which panics beyond the end.
unfoldable pub insert_at : {Q A : Type 0} → ℕ → A → List A → Call Q (List A)
insert_at zero a l = pure (a ∷ l)
insert_at (suc i) a [] = panic
insert_at (suc i) a (x ∷ l) = do l' ← insert_at i a l; pure (x ∷ l')

module _ {Q R K D M X F : Type 0} (real : RealSet R K D M X F) where
  -- `IpcReceiverSet::new`
  unfoldable pub new_set : Call Q (Result (IpcReceiverSet R K D M) F)
  new_set = elim real.new [
    | err e ↦ pure (err e)
    | ok r ↦ do
      mode ← get_rr_mode
      pure (
          ok (record {
            receiver_set = r;
            mode = mode;
            index = 0;
            receivers = [];
            buffer = [];
            desynced = false;
            dummy_senders = [];
          }))
  ]

  -- `.expect(…)` on an `add_opaque`.
  expect_added : Result ℕ F × R → Call Q R
  expect_added (ok _, r) = pure r
  expect_added (err _, _) = panic

module _ {Q R K D M X F : Type 0} ⦃q : LogQueue Q⦄ (real : RealSet R K D M X F) where
  -- `channel::<()>().expect(…)`
  dummy_channel : Call Q (D × K)
  dummy_channel = do
    made ← channel {T = Unit {0}} "()" real.unit_channel
    elim made [ err _ ↦ panic | ok (s, r) ↦ pure (s.sender, r.channel) ]

  -- The loop of `move_receivers_to_set`.
  move_all : List (OpaqueIpcReceiver K) → R → List D → Call Q (R × List D)
  unfolding expect_added dummy_channel
  move_all [] receiver_set dummies = pure (receiver_set, dummies)
  move_all (r ∷ rs) receiver_set dummies = elim r.closed [
    | true ↦ do
      (s, k) ← dummy_channel
      receiver_set' ← expect_added real (real.add_opaque k receiver_set)
      move_all rs receiver_set' (dummies ++ s ∷ [])
    | false ↦ do
      receiver_set' ← expect_added real (real.add_opaque r.opaque_receiver receiver_set)
      move_all rs receiver_set' dummies
  ]

  pub move_receivers_to_set : IpcReceiverSet R K D M → Call Q (IpcReceiverSet R K D M)
  unfolding move_all
  move_receivers_to_set set = if set.desynced then pure set else do
    (receiver_set, dummies) ← move_all set.receivers set.receiver_set set.dummy_senders
    pure (record set {
      receiver_set = receiver_set;
      receivers = [];
      dummy_senders = dummies;
      desynced = true;
    })

  -- The closure that `rr_add` gives to `check_events`.
  unfoldable pub check_add :
      RecordMetadata → IpcReceiverSet R K D M → Call Q (Result (Unit {0}) DesyncError)
  check_add metadata set = and_then get_log_entry λ record_entry.
      and_then (check_event_mismatch (check_select_add set.index) record_entry metadata) λ _.
        elim (get_elem? set.receivers set.index) [
          | some _ ↦ pure (err (select_existing_entry set.index))
          | none ↦ pure (ok tt)
        ]

  record_add :
      OpaqueIpcReceiver K
      → IpcReceiverSet R K D M
      → Result ℕ F × R
      → Call Q (Result ℕ F × IpcReceiverSet R K D M)
  record_add receiver set (err e, r) = pure (err e, record set { receiver_set = r })
  record_add receiver set (ok index, r) = do
    written ← write_event_to_record (ipc_select_add index) receiver.metadata
    elim written [ err _ ↦ panic | ok _ ↦ pure (ok index, record set { receiver_set = r }) ]

  replay_add :
      OpaqueIpcReceiver K → IpcReceiverSet R K D M → Call Q (Result ℕ F × IpcReceiverSet R K D M)
  replay_add receiver set = do
    check_events (check_add receiver.metadata set)
    receivers ← insert_at set.index receiver set.receivers
    pure (ok set.index, record set { receivers = receivers; index = next_u64 set.index })

  add_in_mode :
      RrMode
      → OpaqueIpcReceiver K
      → IpcReceiverSet R K D M
      → Call Q (Result ℕ F × IpcReceiverSet R K D M)
  unfolding record_add replay_add
  add_in_mode record_mode receiver set =
      record_add receiver set (real.add_opaque receiver.opaque_receiver set.receiver_set)
  add_in_mode replay_mode receiver set = replay_add receiver set
  add_in_mode no_rr receiver set =
      let (added, r) = real.add_opaque receiver.opaque_receiver set.receiver_set in
      pure (added, record set { receiver_set = r })

  -- The receiver comes back with an error.
  pub rr_add :
      OpaqueIpcReceiver K
      → IpcReceiverSet R K D M
      → Call Q (Result (Result ℕ F) (DesyncError × OpaqueIpcReceiver K) × IpcReceiverSet R K D M)
  unfolding add_in_mode
  rr_add receiver set = do
    is_desynced ← program_desynced
    if is_desynced
        then pure (err (desynchronized, receiver), set)
        else if set.desynced
        then pure (err (desynchronized, receiver), set)
        else do (added, set') ← add_in_mode set.mode receiver set; pure (ok added, set')

  add_desynced :
      DesyncMode
      → OpaqueIpcReceiver K
      → IpcReceiverSet R K D M
      → Call Q (Result ℕ F × IpcReceiverSet R K D M)
  add_desynced panic_mode receiver set = panic
  add_desynced keep_going receiver set = do
    mark_program_as_desynced
    set' ← move_receivers_to_set set
    let (added, r) = real.add_opaque receiver.opaque_receiver set'.receiver_set
    pure (added, record set' { receiver_set = r })

  -- `do_add`, which is `add_opaque`.
  pub do_add :
      OpaqueIpcReceiver K → IpcReceiverSet R K D M → Call Q (Result ℕ F × IpcReceiverSet R K D M)
  unfolding add_desynced
  do_add receiver set = do
    (added, set') ← rr_add receiver set
    elim added [
      | ok added ↦ pure (added, set')
      | err (_, receiver) ↦ λ w. add_desynced w.desync_mode receiver set' w
    ]

  -- `IpcReceiverSet::add`, given the real `to_opaque`.
  unfoldable pub add :
      {C T : Type 0}
      → (C → K)
      → IpcReceiver C T
      → IpcReceiverSet R K D M
      → Call Q (Result ℕ F × IpcReceiverSet R K D M)
  add real_to_opaque receiver set = do_add (to_opaque real_to_opaque receiver) set
