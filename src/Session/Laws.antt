-- ===== src/Session/Laws.antt =====
-- lib.rs: what holds after an execution is done.
use rr_channel.Prelude.{String, ◌≡◌, refl, Bool, none, some, ok, err, returns, arith}
use rr_channel.DetThread.Id.{DetThreadId, id_eq}
use rr_channel.Event.{TivoEvent}
use rr_channel.Error.{cannot_write_event_to_log}
use rr_channel.RecordLog.{RecordMetadata, LogQueue, Ron, GlobalRecorder, flush}
use rr_channel.World.{World, record_mode}
use rr_channel.Recorder.{write_event_to_record}
use rr_channel.Recorder.Laws.{write_event_to_record_closed}
use rr_channel.Session.{execution_done, no_recorder}

module _ {Q : Type 0} ⦃q : LogQueue Q⦄ (ron : Ron) (writable : String → String → Bool) where
  -- Once execution_done has flushed the log of a recorded execution without an error, a second call
  -- fails, and so does a later write of a thread that was connected to the recorder.
  pub execution_done_lem :
      (w : World Q) (g : GlobalRecorder Q) (file : String × String) (id : DetThreadId)
      (event : TivoEvent) (m : RecordMetadata)
      → w.rr_mode ≡ some record_mode
      → w.recorder ≡ some g
      → flush ron writable g ≡ ok file
      → w.event_sender ≡ some id
      → (w' : World Q) × (v : World Q) × (execution_done ron writable w
          ≡ returns (ok (some file), w'))
        × (execution_done ron writable w' ≡ returns (err no_recorder, w'))
        × (write_event_to_record event m w' ≡ returns (err cannot_write_event_to_log, v))
  unfolding execution_done
  execution_done_lem w g file id event m mode own flushed sender =
      let w' : World Q = record w { recorder = none } in
      let (v, e, _) = write_event_to_record_closed w' id event m sender refl in
      (w', v, ground arith, ground arith, e)
