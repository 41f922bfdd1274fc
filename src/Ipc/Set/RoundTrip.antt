-- ===== src/Ipc/Set/RoundTrip.antt =====
-- ipc_channel/mod.rs: from the recorded selections of a receiver set over the log file to the
-- replayed ones.
use mathlib.Core.List.{append_assoc, append-nil}
use rr_channel.Prelude.{
  ℕ, zero, suc, String, Bool, ◌≡◌, refl, ap, sym, subst, ◌∙◌, true, false, Option, some, List, [],
  ◌∷◌, ◌++◌, map, ok, returns, pure, ◌>>=◌, length, arith, All,
}
use rr_channel.DetThread.Id.{DetThreadId}
use rr_channel.RecordLog.{
  RecordEntry, LogQueue, GlobalRecorder, GlobalReplayer, Ron, flush, open_log,
}
use rr_channel.World.{World, Call, record_mode}
use rr_channel.Recorder.Laws.{Rest, rest, LogOpen, LogLeft}
use rr_channel.Crossbeam.RoundTrip.{IsReplaying, LogOpen-LogLeft}
use rr_channel.Ipc.{OpaqueIpcReceiver}
use rr_channel.Ipc.Set.{RealSet, IpcReceiverSet}
use rr_channel.Ipc.Set.Entry.{Buffer}
use rr_channel.Ipc.Set.Moves.{replaying_set}
use rr_channel.Ipc.Set.Fifo.{IsPatient, set_poll_fifo}
use rr_channel.Ipc.Set.Found.{Found, result_of, to_receiver, Stocked}
use rr_channel.Ipc.Set.Select.{Selected, select}
use rr_channel.Ipc.Set.Selection.{select_entry, AreWithin, AreSigned, select-record, select-replay}

-- The set of a recording.
abbrev pub recording_set : {R K D M : Type 0} → R → IpcReceiverSet R K D M
recording_set r = record {
  receiver_set = r;
  mode = record_mode;
  index = 0;
  receivers = [];
  buffer = [];
  desynced = false;
  dummy_senders = [];
}

-- The real set answers with these selections, one after the other, of messages whose senders can be
-- read.
abbrev pub Delivers :
    {R K D M X F : Type 0} → RealSet R K D M X F → R → List (List (Found M)) → Type 0
Delivers real r [] = Unit
Delivers {R = R} real r (fs ∷ selections) =
    (r' : R) × (real.select r ≡ returns (ok (map result_of fs), r'))
    × AreSigned real fs
    × Delivers real r' selections

-- The messages of a sender to the receiver at an index, in the selections and then in `later`.
abbrev pub in_turn :
    {M : Type 0} → List (List (Found M)) → (ℕ → DetThreadId → List M) → ℕ → DetThreadId → List M
in_turn [] later i s = later i s
in_turn (fs ∷ selections) later i s = to_receiver i s fs ++ in_turn selections later i s

-- What the receivers of the set still hand out in worlds with `Q`, sender by sender.
abbrev pub Holds :
    {R K D M X F : Type 0} (Q : Type 0) {real : RealSet R K D M X F}
    → IsPatient real
    → ℕ
    → IpcReceiverSet R K D M
    → (ℕ → DetThreadId → List M)
    → Type 0
Holds Q {real = real} patient fuel rs = Stocked real (set_poll_fifo real patient {Q = Q}) fuel rs []

module _ {Q R K D M X F : Type 0} ⦃q : LogQueue Q⦄ (real : RealSet R K D M X F) (fuel : ℕ) where
  -- A client that selects so many times.
  unfoldable pub selects :
      ℕ → IpcReceiverSet R K D M → Call Q (List (Selected M F) × IpcReceiverSet R K D M)
  selects zero rs = pure ([], rs)
  selects (suc n) rs = do
    (selected, rs') ← select real fuel rs
    (later, rs'') ← selects n rs'
    pure (selected ∷ later, rs'')

  selects-record :
      (selections : List (List (Found M))) (r : R) (id : DetThreadId) (w : World Q)
      (written : List RecordEntry)
      → w.desync ≡ false
      → w.thread_initialized ≡ true
      → LogOpen id w written
      → Delivers real r selections
      → (r' : R) × (w' : World Q) × (selects (length selections) (recording_set r) w
          ≡ returns ((map (λ fs. ok (map result_of fs)) selections, recording_set r'), w'))
        × LogOpen id w' (written ++ map select_entry selections)
        × (rest w' ≡ rest w)
  unfolding selects
  selects-record [] r id w written synced started l d = (r, w, refl, rw append-nil l, refl)
  selects-record (fs ∷ selections) r id w written synced started l (r₁, p, signed, d) =
      let (w₁, e, l₁, same) =
        select-record real fuel fs (recording_set r) r₁ id w written synced started refl l p
          signed in
      let (r', w', e', l', same') =
        selects-record selections r₁ id w₁ (written ++ select_entry fs ∷ [])
          (ap (λ (x : Rest _). x.desync) same ∙ synced)
          (ap (λ (x : Rest _). x.thread_initialized) same ∙ started) l₁ d in
      (
        r',
        w',
        rw (e, ◌>>=◌) (rw (e', ◌>>=◌) refl),
        subst (LogOpen id w') (append_assoc written (select_entry fs ∷ []) _) l',
        same' ∙ same,
      )

  module _ (patient : IsPatient real) where
    selects-replay :
        (selections : List (List (Found M))) (r : R) (index : ℕ) (rs : List (OpaqueIpcReceiver K))
        (buffer : Buffer M) (dummies : List D) (later : ℕ → DetThreadId → List M) (w : World Q)
        (es : List RecordEntry)
        → w.desync ≡ false
        → LogLeft w (map select_entry selections ++ es)
        → All (AreWithin (length rs)) selections
        → Holds Q patient fuel (replaying_set r index rs buffer dummies) (in_turn selections later)
        → (rs' : List (OpaqueIpcReceiver K)) × (buffer' : Buffer M) × (w' : World Q) × (selects
              (length selections)
              (replaying_set r index rs buffer dummies)
              w
            ≡ returns (
              (
                map (λ fs. ok (map result_of fs)) selections,
                replaying_set r index rs' buffer' dummies,
              ),
              w',
            ))
          × LogLeft w' es
          × Holds Q patient fuel (replaying_set r index rs' buffer' dummies) later
    unfolding selects
    selects-replay [] r index rs buffer dummies later w es synced left within stock =
        (rs, buffer, w, refl, left, stock)
    selects-replay (fs ∷ selections) r index rs buffer dummies later w es synced left within stock =
        let (rs₁, buffer₁, w₁, e, l, same, n, stock₁) =
          select-replay real fuel (set_poll_fifo real patient) fs r index rs buffer dummies
            (in_turn selections later) w (map select_entry selections ++ es) synced left within.0
            stock in
        let (rs', buffer', w', e', l', stock') =
          selects-replay selections r index rs₁ buffer₁ dummies later w₁ es
            (ap (λ (x : Rest _). x.desync) same ∙ synced) l
            (subst (λ n. All (AreWithin n) selections) (sym n) within.1) stock₁ in
        (rs', buffer', w', rw (e, ◌>>=◌) (rw (e', ◌>>=◌) refl), l', stock')

    -- A client of a receiver set that selects at least once, recorded by an initialised thread from
    -- an empty open log in a program that is not desynchronised, where the real set answers with
    -- messages whose senders can be read, then flushed, read back and replayed by a thread with the
    -- same id in a program that is not desynchronised, gets the same results in the same order from
    -- each select; the receivers of the replay, to which all indices belong, need only hold, within
    -- the fuel and in buffers or on their way, the same messages of each sender in the same order,
    -- which they then have handed out. Closed channels are left out.
    pub selects_then_replay :
        (ron : Ron) (writable : String → String → Bool) (read : String → Option String)
        (fs : List (Found M)) (selections : List (List (Found M))) (r r₁ r₂ : R) (index : ℕ)
        (rs : List (OpaqueIpcReceiver K)) (buffer : Buffer M) (dummies : List D)
        (later : ℕ → DetThreadId → List M) (replies : List (Selected M F)) (id : DetThreadId)
        (w w' v : World Q) (g : GlobalRecorder Q) (path text : String) (p : GlobalReplayer)
        → w.desync ≡ false
        → w.thread_initialized ≡ true
        → LogOpen id w []
        → Delivers real r (fs ∷ selections)
        → selects (suc (length selections)) (recording_set r) w
          ≡ returns ((replies, recording_set r₁), w')
        → w'.recorder ≡ some g
        → flush ron writable g ≡ ok (path, text)
        → read path ≡ some text
        → open_log ron read path ≡ some p
        → IsReplaying id p v
        → v.desync ≡ false
        → All (AreWithin (length rs)) (fs ∷ selections)
        → Holds Q patient fuel
            (replaying_set r₂ index rs buffer dummies)
            (in_turn (fs ∷ selections) later)
        → (rs' : List (OpaqueIpcReceiver K)) × (buffer' : Buffer M) × (v' : World Q) × (selects
              (suc (length selections))
              (replaying_set r₂ index rs buffer dummies)
              v
            ≡ returns ((replies, replaying_set r₂ index rs' buffer' dummies), v'))
          × Holds Q patient fuel (replaying_set r₂ index rs' buffer' dummies) later
    selects_then_replay ron writable read fs selections r r₁ r₂ index rs buffer dummies later
          replies id w w' v g path text p synced started l d ran eg fl rd op start synced₂ within
          stock =
        let (r', w₁, e, l₁, same) = selects-record (fs ∷ selections) r id w [] synced started l d in
        let same : w₁ ≡ w' = ground (arith, e, ran) in
        let same_replies : map (λ fs. ok (map result_of fs)) (fs ∷ selections) ≡ replies =
          ground (arith, e, ran) in
        let left : LogLeft v (map select_entry (fs ∷ selections)) =
          LogOpen-LogLeft ron writable read id w' v (map select_entry (fs ∷ selections)) g path text
            p (subst (λ w. LogOpen id w (map select_entry (fs ∷ selections))) same l₁)
            (λ x. ground (arith, x)) eg fl rd op start in
        let (rs', buffer', v', e', _, stock') =
          selects-replay (fs ∷ selections) r₂ index rs buffer dummies later v [] synced₂
            (rw append-nil left) within stock in
        (rs', buffer', v', rw (← same_replies) e', stock')
