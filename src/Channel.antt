-- ===== src/Channel.antt =====
-- What crossbeam_channel.rs, mpsc.rs and ipc_channel/mod.rs write out for each kind of channel: the
-- receive and send methods around record and replay, and the templates of the two traits.
pub mod Steps
pub mod Desyncs
pub mod Sends
pub mod Losses
use rr_channel.Prelude.{ℕ, Result, ok, err, Outcome, pure, panic, ◌>>=◌, ◌>>◌}
use rr_channel.DetThread.Id.{DetThreadId}
use rr_channel.DetThread.Tls.{get_det_id, new_det_thread_id}
use rr_channel.Event.{TivoEvent, RecvError, TryRecvError, RecvTimeoutError}
use rr_channel.Error.{DesyncError}
use rr_channel.RecordLog.{RecordMetadata, LogQueue}
use rr_channel.World.{Call, RrMode, DesyncMode, panic_mode, keep_going}
use rr_channel.Desync.{DetMessage, Endpoint, handle_desync, mark_program_as_desynced}
use rr_channel.Rr.{RecvRecordReplay, SendRecordReplay, record_replay_recv, record_replay_send}

-- The receiving end of a real channel, of crossbeam_channel or std::sync::mpsc: `recv` blocks for
-- ever where nothing comes.
pub record RealReceiver (C M : Type 0) : Type 0 where
  pub recv : C → Outcome (Result M RecvError × C)
  pub try_recv : C → Result M TryRecvError × C
  pub recv_timeout : ℕ → C → Result M RecvTimeoutError × C

-- The sending end: the message comes back with an error.
pub record RealSender (S M : Type 0) : Type 0 where
  pub send : M → S → Outcome (Result (Unit {0}) M × S)

-- Calls of a real channel, as calls of the thread.
abbrev pub lift : {Q A : Type 0} → Outcome A → Call Q A
lift m w = elim m [
  | Outcome.returns a ↦ Outcome.returns (a, w)
  | Outcome.panics ↦ Outcome.panics
  | Outcome.hangs ↦ Outcome.hangs
  | Outcome.out_of_fuel ↦ Outcome.out_of_fuel
]

-- What a template's patterns make of an event: its success with the sender, its error, or another.
pub data Seen (E : Type 0) : Type 0 where
  succ : DetThreadId → Seen E
  error : E → Seen E
  other : Seen E

-- The two variants of an event that a template is given, and the patterns on them.
pub record Variants (E : Type 0) : Type 0 where
  pub succ_event : DetThreadId → TivoEvent
  pub err_event : E → TivoEvent
  pub see : TivoEvent → Seen E

module _ {Q C T E : Type 0} (v : Variants E)
    (replay_recv : DetThreadId → Endpoint C T → Call Q (Result T DesyncError × Endpoint C T)) where
  check_seen : Seen E → Call Q (Result (Unit {0}) TivoEvent)
  check_seen (succ _) = pure (ok tt)
  check_seen (error _) = pure (ok tt)
  check_seen other = do id ← new_det_thread_id; pure (err (v.succ_event id))

  replay_seen : Seen E → Endpoint C T → Call Q (Result (Result T E) DesyncError × Endpoint C T)
  replay_seen (succ sender_thread) r = do
    (received, r') ← replay_recv sender_thread r
    elim received [ ok retval ↦ pure (ok (ok retval), r') | err e ↦ pure (err e, r') ]
  replay_seen (error e) r = pure (ok (err e), r)
  replay_seen other r = panic

  -- The macros `ImplRecordEventChecker` and `impl_recvrr`; the `panic` is their `unreachable!`.
  unfoldable pub impl_recvrr : RecvRecordReplay Q (Endpoint C T) T E
  unfolding check_seen replay_seen
  impl_recvrr = record {
    check_recorded_event = λ re. check_seen (v.see re);
    recorded_event_succ = v.succ_event;
    recorded_event_err = v.err_event;
    replay_recorded_event = λ re. replay_seen (v.see re);
  }

module _ {Q C T E : Type 0} ⦃q : LogQueue Q⦄ (impl : RecvRecordReplay Q (Endpoint C T) T E) where
  on_channel :
      (C → Call Q (Result (DetMessage T) E × C))
      → Endpoint C T
      → Call Q (Result (DetMessage T) E × Endpoint C T)
  on_channel f r = do (m, channel) ← f r.channel; pure (m, record r { channel = channel })

  -- `self.record_replay(f).unwrap_or_else(|e| desync::handle_desync(e, f, self.get_buffer()))`
  unfoldable pub recv_with :
      RrMode
      → RecordMetadata
      → (C → Call Q (Result (DetMessage T) E × C))
      → Endpoint C T
      → Call Q (Result T E × Endpoint C T)
  unfolding on_channel
  recv_with mode metadata f r = do
    (received, r') ← record_replay_recv impl mode metadata (on_channel f) r
    elim received [ ok v ↦ pure (v, r') | err e ↦ handle_desync e f r' ]

module _ {Q S T E : Type 0} ⦃q : LogQueue Q⦄ (impl : SendRecordReplay Q S T E) where
  -- The send goes through in any case, except under `DesyncMode::Panic`.
  pub send_desynced : DesyncMode → T → S → Call Q (Result (Unit {0}) E × S)
  send_desynced panic_mode msg s = panic
  send_desynced keep_going msg s = do
    mark_program_as_desynced
    det_id ← get_det_id
    impl.underlying_send det_id msg s

  unfoldable pub send_with : RrMode → RecordMetadata → T → S → Call Q (Result (Unit {0}) E × S)
  unfolding send_desynced
  send_with mode metadata msg s = do
    (sent, s') ← record_replay_send impl msg mode metadata s
    elim sent [
      | ok v ↦ pure (v, s')
      | err (_, returned) ↦ λ w. send_desynced w.desync_mode returned s' w
    ]
