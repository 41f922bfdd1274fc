-- ===== src/Mpsc/Create.antt =====
-- mpsc.rs: the functions that create channels.
use rr_channel.Prelude.{String, pure, ◌>>=◌, ◌>>◌}
use rr_channel.DetThread.Tls.{generate_new_unique_channel_id}
use rr_channel.Event.{ChannelVariant, mpsc_bounded, mpsc_unbounded, DetChannelId}
use rr_channel.RecordLog.{LogQueue}
use rr_channel.World.{Call, RrMode}
use rr_channel.Recorder.{create_or_panic, get_rr_mode}
use rr_channel.Mpsc.{ReceiverKind, SenderKind, Sender, Receiver, new_receiver}

ends :
    {B U C T : Type 0}
    → String
    → SenderKind B U
    → ReceiverKind C
    → ChannelVariant
    → RrMode
    → DetChannelId
    → Sender B U × Receiver C T
ends type_name s c variant mode id = (
  record {
    sender = s;
    metadata = record { type_name = type_name; channel_variant = variant; id = id };
    mode = mode;
  },
  new_receiver type_name mode c id,
)

module _ {Q B U C T : Type 0} ⦃q : LogQueue Q⦄ (type_name : String) where
  -- The functions `sync_channel` and `channel`, given the real channel's ends.
  unfoldable pub sync_channel : B → C → Call Q (Sender B U × Receiver C T)
  unfolding ends
  sync_channel s c = do
    mode ← get_rr_mode
    id ← generate_new_unique_channel_id
    create_or_panic type_name mode id mpsc_bounded
    pure (ends type_name (SenderKind.bounded s) (ReceiverKind.bounded c) mpsc_bounded mode id)

  unfoldable pub channel : U → C → Call Q (Sender B U × Receiver C T)
  unfolding ends
  channel s c = do
    mode ← get_rr_mode
    id ← generate_new_unique_channel_id
    create_or_panic type_name mode id mpsc_unbounded
    pure (ends type_name (SenderKind.unbounded s) (ReceiverKind.unbounded c) mpsc_unbounded mode id)
