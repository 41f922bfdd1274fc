-- ===== src/Crossbeam/Create.antt =====
-- crossbeam_channel.rs: the functions that create channels. The real channel, made by
-- crossbeam_channel, is an argument.
use rr_channel.Prelude.{String, pure, ◌>>=◌, ◌>>◌}
use rr_channel.DetThread.Tls.{generate_new_unique_channel_id}
use rr_channel.Event.{ChannelVariant, DetChannelId, cb_unbounded, cb_after, cb_bounded, cb_never}
use rr_channel.RecordLog.{LogQueue, new_metadata}
use rr_channel.World.{Call, RrMode}
use rr_channel.Recorder.{create_or_panic, get_rr_mode}
use rr_channel.Crossbeam.{
  ChannelKind, after, bounded, never, unbounded, Sender, Receiver, new_sender, new_receiver,
}

ends :
    {S A C T : Type 0}
    → String
    → S
    → ChannelKind A C
    → ChannelVariant
    → RrMode
    → DetChannelId
    → Sender S × Receiver A C T
ends type_name s kind variant mode id =
    (new_sender s (new_metadata type_name variant id) mode, new_receiver type_name mode kind id)

module _ {Q A C T : Type 0} ⦃q : LogQueue Q⦄ (type_name : String) where
  -- `after` and `never`
  create_receiver : ChannelVariant → ChannelKind A C → Call Q (Receiver A C T)
  create_receiver variant kind = do
    id ← generate_new_unique_channel_id
    mode ← get_rr_mode
    create_or_panic type_name mode id variant
    pure (new_receiver type_name mode kind id)

  unfoldable pub create_after : A → Call Q (Receiver A C T)
  unfolding create_receiver
  create_after a = create_receiver cb_after (after a)

  unfoldable pub create_never : C → Call Q (Receiver A C T)
  unfolding create_receiver
  create_never c = create_receiver cb_never (never c)

  unfoldable pub create_unbounded : {S : Type 0} → S → C → Call Q (Sender S × Receiver A C T)
  unfolding ends
  create_unbounded s c = do
    mode ← get_rr_mode
    id ← generate_new_unique_channel_id
    create_or_panic type_name mode id cb_unbounded
    pure (ends type_name s (unbounded c) cb_unbounded mode id)

  unfoldable pub create_bounded : {S : Type 0} → S → C → Call Q (Sender S × Receiver A C T)
  unfolding ends
  create_bounded s c = do
    id ← generate_new_unique_channel_id
    mode ← get_rr_mode
    create_or_panic type_name mode id cb_bounded
    pure (ends type_name s (bounded c) cb_bounded mode id)
