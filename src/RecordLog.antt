-- ===== src/RecordLog.antt =====
-- recordlog.rs: the entries of a log, the recorder that collects them and the replayer that hands
-- them out.
pub mod Laws
use rr_channel.Prelude.{
  ℕ, String, ◌≡◌, Bool, true, false, Option, none, some, List, [], ◌∷◌, ◌++◌, Result, ok, err, ◌==◌,
  if◌then◌else◌,
}
use rr_channel.Prelude.Map.{Map, get, insert, remove}
use rr_channel.DetThread.Id.{DetThreadId, id_eq}
use rr_channel.Event.{ChannelVariant, DetChannelId, TivoEvent, variant_eq, channel_id_eq}
use rr_channel.Error.{DesyncError, channel_variant_mismatch, channel_mismatch}

pub record RecordEntry : Type 0 where
  pub event : TivoEvent
  pub channel_variant : ChannelVariant
  pub chan_id : DetChannelId
  pub type_name : String

pub record RecordMetadata : Type 0 where
  pub type_name : String
  pub channel_variant : ChannelVariant
  pub id : DetChannelId

-- `RecordEntry::new`
abbrev pub new_entry : TivoEvent → ChannelVariant → DetChannelId → String → RecordEntry
new_entry event channel_variant chan_id type_name = record {
  event = event;
  channel_variant = channel_variant;
  chan_id = chan_id;
  type_name = type_name;
}

-- `RecordMetadata::new`
abbrev pub new_metadata : String → ChannelVariant → DetChannelId → RecordMetadata
new_metadata type_name flavor id = record {
  type_name = type_name;
  channel_variant = flavor;
  id = id;
}

unfoldable pub check_mismatch : RecordEntry → RecordMetadata → Result (Unit {0}) DesyncError
check_mismatch e m =
    if e.channel_variant == m.channel_variant
    then if e.chan_id == m.id then ok tt else err (channel_mismatch e.chan_id m.id)
    else err (channel_variant_mismatch e.channel_variant m.channel_variant)

-- What is used of an unbounded crossbeam_channel, seen from outside: a send is never refused while
-- the receiver lives, and `try_iter` gives what was sent, in order.
pub record LogQueue (Q : Type 0) : Type 0 where
  pub unbounded : Q
  pub send : Q → RecordEntry → Q
  pub try_iter : Q → List RecordEntry
  pub try_iter-unbounded : try_iter unbounded ≡ []
  pub try_iter-send : (q : Q) (e : RecordEntry) → try_iter (send q e) ≡ try_iter q ++ e ∷ []

-- `HashMap<DetThreadId, VecDeque<RecordEntry>>`
abbrev pub Entries : Type 0
Entries = Map DetThreadId (List RecordEntry)

pub record GlobalRecorder (Q : Type 0) : Type 0 where
  pub recorder : Map DetThreadId Q
  pub path : Option String

unfoldable pub init : {Q : Type 0} → String → GlobalRecorder Q
init path = record { recorder = []; path = some path }

-- `none` is the panic "Entry already present".
unfoldable pub add_receiver :
    {Q : Type 0} → DetThreadId → Q → GlobalRecorder Q → Option (GlobalRecorder Q)
add_receiver sender_id r g = elim (get g.recorder sender_id) [
  | some _ ↦ none
  | none ↦ some (record g { recorder = insert g.recorder sender_id r })
]

module _ {Q : Type 0} ⦃q : LogQueue Q⦄ where
  -- The loop of `get_all_entries`; `none` is its `unreachable!`.
  unfoldable pub collect_entries : Map DetThreadId Q → Entries → Option Entries
  collect_entries [] hm = some hm
  collect_entries ((id, r) ∷ rest) hm = elim (get hm id) [
    | none ↦ collect_entries rest (insert hm id (q.try_iter r))
    | some _ ↦ none
  ]

  unfoldable pub get_all_entries : GlobalRecorder Q → Option Entries
  get_all_entries g = collect_entries g.recorder []

pub record GlobalReplayer : Type 0 where
  pub replayer : Entries

-- `none` is the panic "GlobalReplayer has no entry".
unfoldable pub take_entry :
    GlobalReplayer → DetThreadId → Option (List RecordEntry × GlobalReplayer)
take_entry g det_id = elim (get g.replayer det_id) [
  | none ↦ none
  | some v ↦ some (v, record { replayer = remove g.replayer det_id })
]

-- What is used of ron: a printed map is read back with the same entries under each key.
pub record Ron : Type 0 where
  pub to_string : Entries → Option String
  pub from_str : String → Option Entries
  pub from_str-to_string :
      (hm : Entries) (s : String)
      → to_string hm ≡ some s
      → (hm' : Entries) × (from_str s ≡ some hm') × ((id : DetThreadId) → get hm' id ≡ get hm id)

-- Why `flush` gives up.
pub data FlushError : Type 0 where
  no_path no_entries not_serialized not_written duplicate_entries : FlushError

-- `writable` says whether `std::fs::write` of a text to a path succeeds; the result is the path and
-- the text that the file then holds. `duplicate_entries` is the `unreachable!` of
-- `get_all_entries`.
unfoldable pub write_entries :
    Ron → (String → String → Bool) → String → Entries → Result (String × String) FlushError
write_entries ron writable path [] = err no_entries
write_entries ron writable path (e ∷ hm) = elim (ron.to_string (e ∷ hm)) [
  | none ↦ err not_serialized
  | some serialized ↦ if writable path serialized then ok (path, serialized) else err not_written
]

module _ {Q : Type 0} ⦃q : LogQueue Q⦄ (ron : Ron) (writable : String → String → Bool) where
  unfoldable pub flush : GlobalRecorder Q → Result (String × String) FlushError
  flush g = elim g.path [
    | none ↦ err no_path
    | some path ↦ elim (get_all_entries g) [
      | none ↦ err duplicate_entries
      | some hm ↦ write_entries ron writable path hm
    ]
  ]

-- `GlobalReplayer::new`; `none` is a panic, on a file that is missing or does not parse.
unfoldable pub open_log : Ron → (String → Option String) → String → Option GlobalReplayer
open_log ron read path = elim (read path) [
  | none ↦ none
  | some input ↦ elim (ron.from_str input) [
    | none ↦ none
    | some hm ↦ some (record { replayer = hm })
  ]
]
