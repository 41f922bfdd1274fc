-- ===== src/Ipc/Set/Selection.antt =====
-- ipc_channel/mod.rs: one selection of a receiver set, recorded and replayed.
use mathlib.Core.List.{append_assoc, append-nil}
use rr_channel.Prelude.{
  ℕ, zero, suc, ◌<◌, ◌≡◌, refl, sym, subst, ◌∙◌, true, false, some, List, [], ◌∷◌, ◌++◌, map, ok,
  returns, ◌>>=◌, length, length-set, arith, get_elem?, set, All,
}
use rr_channel.DetThread.Id.{DetThreadId, zeroed}
use rr_channel.DetThread.Tls.{new_det_thread_id, fake_channel_id}
use rr_channel.Event.{ChannelVariant, ipc_select}
use rr_channel.RecordLog.{RecordEntry, RecordMetadata, LogQueue}
use rr_channel.World.{World, record_mode}
use rr_channel.Recorder.{entry_of}
use rr_channel.Recorder.Laws.{
  rest, LogOpen, LogLeft, write_event_to_record_open, get_log_entry_some,
}
use rr_channel.Desync.Laws.{program_desynced_lem}
use rr_channel.Rr.{entry_or_sleep}
use rr_channel.Rr.Pending.{IsFifo}
use rr_channel.Ipc.{OpaqueIpcReceiver}
use rr_channel.Ipc.Set.{IpcSelectionResult, RealSet, IpcReceiverSet}
use rr_channel.Ipc.Set.Entry.{Buffer, deserialize_id}
use rr_channel.Ipc.Set.Moves.{replaying_set}
use rr_channel.Ipc.Set.Refine.{set_poll}
use rr_channel.Ipc.Set.Found.{Found, result_of, event_of, Stocked, replay_select_event-Found}
use rr_channel.Ipc.Set.Select.{do_select, events_of, replay_events, rr_select, select}

-- The metadata that a selection is logged with.
abbrev pub select_metadata : RecordMetadata
select_metadata = record {
  type_name = "IpcSelect";
  channel_variant = ChannelVariant.ipc_select;
  id = record { det_thread_id = zeroed; channel_id = 0 };
}

abbrev pub select_entry : {M : Type 0} → List (Found M) → RecordEntry
select_entry fs = entry_of (ipc_select (map event_of fs)) select_metadata

fake_channel_id_lem :
    {Q : Type 0} (w : World Q)
    → w.thread_initialized ≡ true
    → fake_channel_id w ≡ returns (record { det_thread_id = zeroed; channel_id = 0 }, w)
unfolding fake_channel_id new_det_thread_id
fake_channel_id_lem w h = rw h refl

get_elem?-bounded :
    {A : Type 0} (xs : List A) (i : ℕ) → i < length xs → (x : A) × (get_elem? xs i ≡ some x)
get_elem?-bounded [] i lt = absurd (omega arith)
get_elem?-bounded (x ∷ xs) zero lt = (x, refl)
get_elem?-bounded (x ∷ xs) (suc i) lt = get_elem?-bounded xs i (omega arith)

-- Every message is for a receiver among `n`.
abbrev pub AreWithin : {M : Type 0} → ℕ → List (Found M) → Type 0
AreWithin n = All (λ f. f.index < n)

-- The id of each message can be read.
abbrev pub AreSigned : {R K D M X F : Type 0} → RealSet R K D M X F → List (Found M) → Type 0
AreSigned real = All (λ f. real.deserialize_id f.msg ≡ some f.sender)

module _ {Q R K D M X F : Type 0} ⦃q : LogQueue Q⦄ (real : RealSet R K D M X F) (fuel : ℕ) where
  events_of-AreSigned :
      (fs : List (Found M)) (w : World Q)
      → AreSigned real fs
      → events_of real (map result_of fs) w ≡ returns (map event_of fs, w)
  unfolding events_of deserialize_id
  events_of-AreSigned [] w h = refl
  events_of-AreSigned (f ∷ fs) w h = rw (h.0, ◌>>=◌) (rw (events_of-AreSigned fs w h.1, ◌>>=◌) refl)

  pub select-record :
      (fs : List (Found M)) (rs : IpcReceiverSet R K D M) (r' : R) (id : DetThreadId) (w : World Q)
      (written : List RecordEntry)
      → w.desync ≡ false
      → w.thread_initialized ≡ true
      → rs.mode ≡ record_mode
      → LogOpen id w written
      → real.select rs.receiver_set ≡ returns (ok (map result_of fs), r')
      → AreSigned real fs
      → (w' : World Q) × (select real fuel rs w
          ≡ returns ((ok (map result_of fs), record rs { receiver_set = r' }), w'))
        × LogOpen id w' (written ++ select_entry fs ∷ [])
        × (rest w' ≡ rest w)
  unfolding select rr_select do_select
  select-record fs rs r' id w written synced started mode l p signed =
      let (w', e, l', same) =
        write_event_to_record_open id w written (ipc_select (map event_of fs)) select_metadata l in
      (
        w',
        rw (program_desynced_lem false w synced, ◌>>=◌)
            (rw mode (
              rw (p, ◌>>=◌)
                (rw (events_of-AreSigned fs w signed, ◌>>=◌)
                  (rw (fake_channel_id_lem w started, ◌>>=◌) (rw (e, ◌>>=◌) refl))))),
        l',
        same,
      )

  module _ (fifo : IsFifo {Q = Q} (set_poll real)) where
    replay_events-Stocked :
        (fs : List (Found M)) (events : List (IpcSelectionResult M)) (r : R) (index : ℕ)
        (rs : List (OpaqueIpcReceiver K)) (buffer : Buffer M) (dummies : List D)
        (later : ℕ → DetThreadId → List M) (w : World Q)
        → AreWithin (length rs) fs
        → Stocked real fifo fuel (replaying_set r index rs buffer dummies) fs later
        → (rs' : List (OpaqueIpcReceiver K)) × (buffer' : Buffer M) × (replay_events real fuel
              (map event_of fs)
              events
              (replaying_set r index rs buffer dummies)
              w
            ≡ returns (
              (ok (ok (events ++ map result_of fs)), replaying_set r index rs' buffer' dummies),
              w,
            ))
          × (length rs' ≡ length rs)
          × Stocked real fifo fuel (replaying_set r index rs' buffer' dummies) [] later
    unfolding replay_events
    replay_events-Stocked [] events r index rs buffer dummies later w within stock =
        (rs, buffer, rw append-nil refl, refl, stock)
    replay_events-Stocked (f ∷ fs) events r index rs buffer dummies later w within stock =
        let (x, here) = get_elem?-bounded rs f.index within.0 in
        let (buffer₁, k, p, stock₁) =
          replay_select_event-Found real fifo fuel f fs (replaying_set r index rs buffer dummies) x
            later w here stock in
        let kept = length-set rs f.index (record x { opaque_receiver = k }) in
        let (rs', buffer', p', n, stock') =
          replay_events-Stocked fs (events ++ result_of f ∷ []) r index
            (set rs f.index (record x { opaque_receiver = k })) buffer₁ dummies later w
            (subst (λ n. AreWithin n fs) (sym kept) within.1) stock₁ in
        (
          rs',
          buffer',
          rw (p, ◌>>=◌) (p' ∙ rw (append_assoc events (result_of f ∷ []) (map result_of fs)) refl),
          n ∙ kept,
          stock',
        )

    pub select-replay :
        (fs : List (Found M)) (r : R) (index : ℕ) (rs : List (OpaqueIpcReceiver K))
        (buffer : Buffer M) (dummies : List D) (later : ℕ → DetThreadId → List M) (w : World Q)
        (es : List RecordEntry)
        → w.desync ≡ false
        → LogLeft w (select_entry fs ∷ es)
        → AreWithin (length rs) fs
        → Stocked real fifo fuel (replaying_set r index rs buffer dummies) fs later
        → (rs' : List (OpaqueIpcReceiver K)) × (buffer' : Buffer M) × (w' : World Q) × (select real
              fuel
              (replaying_set r index rs buffer dummies)
              w
            ≡ returns ((ok (map result_of fs), replaying_set r index rs' buffer' dummies), w'))
          × LogLeft w' es
          × (rest w' ≡ rest w)
          × (length rs' ≡ length rs)
          × Stocked real fifo fuel (replaying_set r index rs' buffer' dummies) [] later
    unfolding select rr_select entry_or_sleep entry_of
    select-replay fs r index rs buffer dummies later w es synced left within stock =
        let (w', e, l, same) = get_log_entry_some w (select_entry fs) es left in
        let (rs', buffer', p, n, stock') =
          replay_events-Stocked fs [] r index rs buffer dummies later w' within stock in
        (
          rs',
          buffer',
          w',
          rw (program_desynced_lem false w synced, ◌>>=◌) (rw (e, ◌>>=◌) (rw (p, ◌>>=◌) refl)),
          l,
          same,
          n,
          stock',
        )
