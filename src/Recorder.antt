-- ===== src/Recorder.antt =====
-- lib.rs: `EventRecorder`, through which events are written and read back, and the creation events
-- of channels; recordlog.rs: its lazy thread-locals EVENT_SENDER and EVENT_RECEIVER.
pub mod Laws
pub mod Others
use rr_channel.Prelude.{
  String, Option, none, some, List, [], ◌∷◌, Result, ok, err, pure, panic, modify, and_then, ◌>>=◌,
  ◌>>◌,
}
use rr_channel.Prelude.Map.{get, insert}
use rr_channel.DetThread.Id.{DetThreadId, id_eq}
use rr_channel.DetThread.Tls.{next_u32, get_det_id}
use rr_channel.Event.{TivoEvent, DetChannelId, ChannelVariant, channel_creation}
use rr_channel.Error.{DesyncError, no_entry_in_log, cannot_write_event_to_log}
use rr_channel.RecordLog.{
  new_entry, RecordEntry, RecordMetadata, LogQueue, add_receiver, take_entry,
}
use rr_channel.World.{Call, RrMode, record_mode, replay_mode, no_rr, expect}
use rr_channel.Checker.{Checker, check_event_mismatch}

-- The entry that `write_event_to_record` builds.
unfoldable pub entry_of : TivoEvent → RecordMetadata → RecordEntry
entry_of event m = new_entry event m.channel_variant m.id m.type_name

module _ {Q : Type 0} where
  -- The two statements that count an event.
  abbrev count_event : Call Q (Unit {0})
  count_event =
      modify λ w. record w { thread = record w.thread { event_number = next_u32 w.event_number } }

  abbrev set_event_receiver : List RecordEntry → Call Q (Unit {0})
  set_event_receiver es =
      modify λ w. record w { thread = record w.thread { event_receiver = some es } }

  -- The first read of EVENT_RECEIVER takes the thread's entries from the replayer.
  force_event_receiver : Option (List RecordEntry) → Call Q (List RecordEntry)
  force_event_receiver (some es) = pure es
  force_event_receiver none = do
    det_id ← get_det_id
    (es, rest) ← (λ w. expect (take_entry w.replayer det_id) w)
    modify (λ w. record w { replayer = rest })
    set_event_receiver es
    pure es

  next : List RecordEntry → Call Q (Option RecordEntry)
  next [] = pure none
  next (e ∷ es) = do set_event_receiver es; pure (some e)

  pub next_record_entry : Call Q (Option RecordEntry)
  unfolding force_event_receiver next
  next_record_entry = do count_event; es ← (λ w. force_event_receiver w.event_receiver w); next es

  pub get_log_entry : Call Q (Result RecordEntry DesyncError)
  unfolding next_record_entry
  get_log_entry = do
    e ← next_record_entry
    pure (elim e [ none ↦ err no_entry_in_log | some entry ↦ ok entry ])

module _ {Q : Type 0} ⦃q : LogQueue Q⦄ where
  -- The first read of EVENT_SENDER makes the thread's log channel and hands its receiving end to
  -- the recorder, which must not have been taken.
  force_event_sender : Option DetThreadId → Call Q DetThreadId
  force_event_sender (some id) = pure id
  force_event_sender none = do
    g ← (λ w. expect w.recorder w)
    det_id ← get_det_id
    g' ← expect (add_receiver det_id q.unbounded g)
    modify (λ w. record w {
      recorder = some g';
      thread = record w.thread { event_sender = some det_id };
    })
    pure det_id

  -- A send reaches the receiver while the recorder holds it.
  send_entry : DetThreadId → RecordEntry → Call Q (Result (Unit {0}) DesyncError)
  send_entry id entry w = elim w.recorder [
    | none ↦ pure (err cannot_write_event_to_log) w
    | some g ↦ elim (get g.recorder id) [
      | none ↦ pure (err cannot_write_event_to_log) w
      | some r ↦ pure (ok tt) (record w {
        recorder = some (record g { recorder = insert g.recorder id (q.send r entry) });
      })
    ]
  ]

  unfoldable pub write_event_to_record :
      TivoEvent → RecordMetadata → Call Q (Result (Unit {0}) DesyncError)
  unfolding force_event_sender send_entry entry_of
  write_event_to_record event metadata = do
    count_event
    id ← (λ w. force_event_sender w.event_sender w)
    send_entry id (entry_of event metadata)

  -- `impl RecordEventChecker<()> for ChannelCreation`
  unfoldable pub check_channel_creation : Checker Q
  check_channel_creation channel_creation = pure (ok tt)
  check_channel_creation _ = pure (err channel_creation)

  unfoldable pub rr_channel_creation_event :
      String → RrMode → DetChannelId → ChannelVariant → Call Q (Result (Unit {0}) DesyncError)
  rr_channel_creation_event type_name mode id variant = elim mode [
    | record_mode ↦ write_event_to_record channel_creation metadata
    | replay_mode ↦
        and_then get_log_entry (λ event. check_event_mismatch check_channel_creation event metadata)
    | no_rr ↦ pure (ok tt)
  ]
    where
      metadata : RecordMetadata
      metadata = record { type_name = type_name; channel_variant = variant; id = id }

module _ {Q : Type 0} where
  unfoldable pub check_events : Call Q (Result (Unit {0}) DesyncError) → Call Q (Unit {0})
  check_events checker = do r ← checker; elim r [ ok _ ↦ pure tt | err _ ↦ panic ]

  unfoldable pub get_rr_mode : Call Q RrMode
  get_rr_mode w = expect w.rr_mode w

-- `if let Err(e) = rr_channel_creation_event(…) { panic!() }`, as the creating functions have it.
unfoldable pub create_or_panic :
    {Q : Type 0} ⦃q : LogQueue Q⦄
    → String
    → RrMode
    → DetChannelId
    → ChannelVariant
    → Call Q (Unit {0})
create_or_panic type_name mode id variant =
    check_events (rr_channel_creation_event type_name mode id variant)
