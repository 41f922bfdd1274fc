-- ===== src/Ipc/Create.antt =====
-- ipc_channel/mod.rs: the functions that create channels. The real channel, made by ipc_channel, is
-- an argument.
use rr_channel.Prelude.{String, Result, ok, err, pure, panic, ◌>>=◌, ◌>>◌}
use rr_channel.DetThread.Tls.{generate_new_unique_channel_id}
use rr_channel.Event.{ipc}
use rr_channel.RecordLog.{LogQueue, new_metadata}
use rr_channel.World.{Call}
use rr_channel.Recorder.{create_or_panic, get_rr_mode}
use rr_channel.Ipc.{IpcReceiver, IpcSender, new_ipc_sender, new_receiver}

module _ {Q S C T F : Type 0} ⦃q : LogQueue Q⦄ (type_name : String) where
  -- `ripc::channel()` may fail, with an error of the type `F`.
  unfoldable pub channel : Result (S × C) F → Call Q (Result (IpcSender S × IpcReceiver C T) F)
  channel made = do
    mode ← get_rr_mode
    elim made [
      | err e ↦ pure (err e)
      | ok (sender, receiver) ↦ do
        id ← generate_new_unique_channel_id
        create_or_panic type_name mode id ipc
        pure (
            ok (
              new_ipc_sender sender (new_metadata type_name ipc id) mode,
              new_receiver type_name receiver id mode,
            ))
    ]

-- `IpcSender::connect`, which reaches a `todo!()` once it is connected.
unfoldable pub connect :
    {Q S F : Type 0} → (String → Result S F) → String → Call Q (Result (IpcSender S) F)
connect real_connect name = do
  id ← generate_new_unique_channel_id
  elim (real_connect name) [ ok _ ↦ panic | err e ↦ pure (err e) ]
