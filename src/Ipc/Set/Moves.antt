-- ===== src/Ipc/Set/Moves.antt =====
-- ipc_channel/mod.rs: what becomes of the receivers of a replayed set when it desynchronises.
use mathlib.Core.List.{append_assoc, append-nil}
use rr_channel.Prelude.{
  ℕ, ◌≡◌, refl, ap, ◌∙◌, true, false, some, List, [], ◌∷◌, ◌++◌, map, ok, returns, panics, ◌>>=◌,
  length, All,
}
use rr_channel.DetThread.Id.{DetThreadId}
use rr_channel.DetThread.Tls.{next_u32, generate_new_unique_channel_id}
use rr_channel.Event.{DetChannelId, ipc}
use rr_channel.RecordLog.{LogQueue}
use rr_channel.World.{World, expect, replay_mode, keep_going}
use rr_channel.Recorder.{rr_channel_creation_event, create_or_panic, check_events, get_rr_mode}
use rr_channel.Recorder.Laws.{reading, get_log_entry_none}
use rr_channel.Desync.Laws.{program_desynced_lem, already_marked}
use rr_channel.Channel.Sends.{get_det_id_lem}
use rr_channel.Ipc.{OpaqueIpcReceiver}
use rr_channel.Ipc.Create.{channel}
use rr_channel.Ipc.Set.{
  RealSet, IpcReceiverSet, expect_added, dummy_channel, move_all, move_receivers_to_set, rr_add,
  add_desynced, do_add,
}
use rr_channel.Ipc.Set.Entry.{Buffer}
use rr_channel.Ipc.Set.Select.{rr_select, select, select_desynced}

-- The documented behaviour of the real set: indices count the receivers in the order of their adding.
pub record IsAppending {R K D M X F : Type 0} (real : RealSet R K D M X F) : Type 0 where
  pub contents : R → List K
  pub on_add :
      (k : K) (r : R)
      → (r' : R) × (real.add_opaque k r ≡ (ok (length (contents r)), r'))
        × (contents r' ≡ contents r ++ k ∷ [])

-- A set of a replay, which holds its receivers itself.
abbrev pub replaying_set :
    {R K D M : Type 0}
    → R
    → ℕ
    → List (OpaqueIpcReceiver K)
    → Buffer M
    → List D
    → IpcReceiverSet R K D M
replaying_set r index receivers buffer dummies = record {
  receiver_set = r;
  mode = replay_mode;
  index = index;
  receivers = receivers;
  buffer = buffer;
  desynced = false;
  dummy_senders = dummies;
}

-- The set after it has given its receivers away.
abbrev pub moved_set : {R K D M : Type 0} → R → ℕ → Buffer M → List D → IpcReceiverSet R K D M
moved_set r index buffer dummies = record {
  receiver_set = r;
  mode = replay_mode;
  index = index;
  receivers = [];
  buffer = buffer;
  desynced = true;
  dummy_senders = dummies;
}

abbrev pub handles : {K : Type 0} → List (OpaqueIpcReceiver K) → List K
handles = map (λ r. r.opaque_receiver)

module _ {Q R K D M X F : Type 0} ⦃q : LogQueue Q⦄ (real : RealSet R K D M X F) where
  module _ (appending : IsAppending real) where
    move_all-open :
        (rs : List (OpaqueIpcReceiver K)) (r : R) (dummies : List D) (w : World Q)
        → All (λ x. x.closed ≡ false) rs
        → (r' : R) × (move_all real rs r dummies w ≡ returns ((r', dummies), w))
          × (appending.contents r' ≡ appending.contents r ++ handles rs)
    unfolding move_all expect_added
    move_all-open [] r dummies w h = (r, refl, rw append-nil refl)
    move_all-open (x ∷ rs) r dummies w h =
        let (r₁, p, c) = appending.on_add x.opaque_receiver r in
        let (r', p', c') = move_all-open rs r₁ dummies w h.1 in
        (
          r',
          rw (h.0, move_all) (rw (p, ◌>>=◌) p'),
          c'
              ∙ ap (λ l. l ++ handles rs) c
              ∙ append_assoc (appending.contents r) (x.opaque_receiver ∷ []) (handles rs),
        )

    move_receivers_to_set-open :
        (r : R) (index : ℕ) (rs : List (OpaqueIpcReceiver K)) (buffer : Buffer M) (dummies : List D)
        (w : World Q)
        → All (λ x. x.closed ≡ false) rs
        → (r' : R) × (move_receivers_to_set real (replaying_set r index rs buffer dummies) w
            ≡ returns (moved_set r' index buffer dummies, w))
          × (appending.contents r' ≡ appending.contents r ++ handles rs)
    unfolding move_receivers_to_set
    move_receivers_to_set-open r index rs buffer dummies w h =
        let (r', p, c) = move_all-open rs r dummies w h in (r', rw (p, ◌>>=◌) refl, c)

    -- Under KeepGoing, in a program that is desynchronised, adding a receiver to a replayed set
    -- whose receivers are all open hands these to the empty real set in their order and then the
    -- new one: every receiver keeps its index, the new one gets the next, and the buffer stays.
    pub do_add-desynced :
        (receiver : OpaqueIpcReceiver K) (r : R) (index : ℕ) (rs : List (OpaqueIpcReceiver K))
        (buffer : Buffer M) (dummies : List D) (w : World Q)
        → w.desync ≡ true
        → w.desync_mode ≡ keep_going
        → appending.contents r ≡ []
        → All (λ x. x.closed ≡ false) rs
        → (r' : R) × (do_add real receiver (replaying_set r index rs buffer dummies) w
            ≡ returns ((ok (length (handles rs)), moved_set r' index buffer dummies), w))
          × (appending.contents r' ≡ handles rs ++ receiver.opaque_receiver ∷ [])
    unfolding do_add rr_add add_desynced
    do_add-desynced receiver r index rs buffer dummies w marked mode empty h =
        let (r₁, p, c) = move_receivers_to_set-open r index rs buffer dummies w h in
        let (r', p', c') = appending.on_add receiver.opaque_receiver r₁ in
        let all : appending.contents r₁ ≡ handles rs = c ∙ ap (λ l. l ++ handles rs) empty in
        (
          r',
          rw (program_desynced_lem true w marked, ◌>>=◌)
              (ap (λ d. add_desynced real d receiver (replaying_set r index rs buffer dummies) w)
                  mode
                ∙ rw (already_marked w marked, ◌>>=◌) (rw (p, ◌>>=◌) (rw p' (rw all refl)))),
          c' ∙ ap (λ l. l ++ receiver.opaque_receiver ∷ []) all,
        )

  -- A thread of a replay that has read all of its log.
  abbrev pub IsAtEnd : World Q → Type 0
  IsAtEnd w = (w.event_receiver ≡ some []) × (w.rr_mode ≡ some replay_mode)

  creation-at_end :
      (id : DetChannelId) (w : World Q)
      → w.event_receiver ≡ some []
      → create_or_panic "()" replay_mode id ipc w ≡ panics
  unfolding create_or_panic rr_channel_creation_event check_events
  creation-at_end id w e =
      let (w', p, l, same) = get_log_entry_none w (reading e) in rw (p, ◌>>=◌) refl

  get_rr_mode_lem :
      (w : World Q) → w.rr_mode ≡ some replay_mode → get_rr_mode w ≡ returns (replay_mode, w)
  unfolding get_rr_mode
  get_rr_mode_lem w e = ap (λ m. expect m w) e

  generate_id_lem :
      (own : DetThreadId) (w : World Q)
      → w.det_id ≡ some own
      → generate_new_unique_channel_id w
        ≡ returns (
          record { det_thread_id = own; channel_id = w.next_channel_id },
          record w { thread = record w.thread { next_channel_id = next_u32 w.next_channel_id } },
        )
  unfolding generate_new_unique_channel_id
  generate_id_lem own w d =
      rw
        (
          get_det_id_lem own
              (record w {
                thread = record w.thread { next_channel_id = next_u32 w.next_channel_id };
              })
              d,
          ◌>>=◌,
        )
        refl

  dummy_channel-at_end :
      (own : DetThreadId) (s : D) (k : K) (w : World Q)
      → w.det_id ≡ some own
      → IsAtEnd w
      → real.unit_channel ≡ ok (s, k)
      → dummy_channel real w ≡ panics
  unfolding dummy_channel channel
  dummy_channel-at_end own s k w d (e, mode) made =
      let id : DetChannelId = record { det_thread_id = own; channel_id = w.next_channel_id } in
      let w₁ : World Q = record w {
        thread = record w.thread { next_channel_id = next_u32 w.next_channel_id };
      } in
      rw (get_rr_mode_lem w mode, ◌>>=◌)
        (rw (made, ◌>>=◌)
          (rw (generate_id_lem own w d, ◌>>=◌) (rw (creation-at_end id w₁ e, ◌>>=◌) refl)))

  move_all-closed :
      (x : OpaqueIpcReceiver K) (after : List (OpaqueIpcReceiver K)) (r : R) (dummies : List D)
      (own : DetThreadId) (s : D) (k : K) (w : World Q)
      → x.closed ≡ true
      → w.det_id ≡ some own
      → IsAtEnd w
      → real.unit_channel ≡ ok (s, k)
      → move_all real (x ∷ after) r dummies w ≡ panics
  unfolding move_all
  move_all-closed x after r dummies own s k w h d e made =
      rw (h, move_all) (rw (dummy_channel-at_end own s k w d e made, ◌>>=◌) refl)

  move_all-some_closed :
      (appending : IsAppending real) (before after : List (OpaqueIpcReceiver K))
      (x : OpaqueIpcReceiver K) (r : R) (dummies : List D) (own : DetThreadId) (s : D) (k : K)
      (w : World Q)
      → All (λ x. x.closed ≡ false) before
      → x.closed ≡ true
      → w.det_id ≡ some own
      → IsAtEnd w
      → real.unit_channel ≡ ok (s, k)
      → move_all real (before ++ x ∷ after) r dummies w ≡ panics
  unfolding move_all expect_added
  move_all-some_closed appending [] after x r dummies own s k w open_before h d e made =
      move_all-closed x after r dummies own s k w h d e made
  move_all-some_closed appending (y ∷ before) after x r dummies own s k w open_before h d e made =
      let (r₁, p, c) = appending.on_add y.opaque_receiver r in
      rw (open_before.0, move_all)
        (rw (p, ◌>>=◌)
          (move_all-some_closed appending before after x r₁ dummies own s k w open_before.1 h d e
            made))

  -- Under KeepGoing, in a program that is desynchronised, selecting on a replayed set that holds a
  -- closed receiver panics when the log of the thread is at its end: the dummy receiver is made by
  -- the recorded channel function, which looks for its entry.
  pub select-some_closed :
      (appending : IsAppending real) (before after : List (OpaqueIpcReceiver K))
      (x : OpaqueIpcReceiver K) (r : R) (index : ℕ) (buffer : Buffer M) (dummies : List D)
      (fuel : ℕ) (own : DetThreadId) (s : D) (k : K) (w : World Q)
      → w.desync ≡ true
      → w.desync_mode ≡ keep_going
      → All (λ x. x.closed ≡ false) before
      → x.closed ≡ true
      → w.det_id ≡ some own
      → IsAtEnd w
      → real.unit_channel ≡ ok (s, k)
      → select real fuel (replaying_set r index (before ++ x ∷ after) buffer dummies) w ≡ panics
  unfolding select rr_select select_desynced move_receivers_to_set
  select-some_closed appending before after x r index buffer dummies fuel own s k w marked mode
        open_before h d e made =
      let rs = replaying_set r index (before ++ x ∷ after) buffer dummies in
      rw (program_desynced_lem true w marked, ◌>>=◌)
        (ap (λ d. select_desynced real fuel d rs w) mode
          ∙ rw (already_marked w marked, ◌>>=◌)
              (rw
                (
                  move_all-some_closed appending before after x r dummies own s k w open_before h d
                      e made,
                  ◌>>=◌,
                )
                refl))
