-- ===== src/Select/Replay.antt =====
-- crossbeam_select.rs: replayed rounds of selecting and receiving.
use rr_channel.Prelude.{
  ℕ, ◌≡◌, refl, sym, subst, true, false, some, List, ◌∷◌, Result, ok, err, returns, arith, ◌>>=◌,
  nat_eq,
}
use rr_channel.Prelude.Map.{Map, get}
use rr_channel.DetThread.Id.{DetThreadId, id_eq}
use rr_channel.Event.{
  RecvError, crossbeam_select, SelectEvent, success, variant_eq, channel_id_eq, variant_beq_iff,
  channel_id_beq_iff,
}
use rr_channel.RecordLog.{RecordEntry, RecordMetadata, LogQueue}
use rr_channel.World.{World, replay_mode}
use rr_channel.Recorder.{entry_of, get_log_entry}
use rr_channel.Recorder.Laws.{rest, LogLeft, get_log_entry_some}
use rr_channel.Desync.{DetMessage, Endpoint}
use rr_channel.Desync.Laws.{program_desynced_lem}
use rr_channel.Rr.{entry_or_sleep}
use rr_channel.Channel.{RealReceiver}
use rr_channel.Crossbeam.{ChannelKind, Receiver}
use rr_channel.Crossbeam.Fifo.{IsFifoChannel}
use rr_channel.Crossbeam.Receive.{poll_entry, replay_recv}
use rr_channel.Select.{RealSelect, Receivers, assign, replayed, select, rr_select, poll_receiver}
use rr_channel.Select.Operation.{selected_index, select_event, rr_select_recv, recv_selected}
use rr_channel.Select.Rounds.{selecting, round, Answer, reply_of, delivered_to}
use rr_channel.Select.Supply.{
  assign_same, replayed_receivers, of_receiver, after_round, poll_then_recv, with_endpoint,
  Supplies,
}

module _ {Q S O A C T : Type 0} ⦃q : LogQueue Q⦄ (timer : RealReceiver A T)
    (real : RealReceiver C (DetMessage T)) (real_select : RealSelect S O A C T) (fuel : ℕ) where
  select-replayed :
      (sender : DetThreadId) (index p : ℕ) (s : S) (m : Map ℕ ℕ) (rs : Receivers A C T)
      (r₁ : Endpoint (ChannelKind A C) T) (md : RecordMetadata) (w w' : World Q)
      → w.desync ≡ false
      → get m index ≡ some p
      → get_log_entry w ≡ returns (ok (entry_of (crossbeam_select (success sender index)) md), w')
      → poll_entry timer real fuel sender (rs p).endpoint w' ≡ returns ((true, r₁), w')
      → select timer real real_select fuel (selecting replay_mode s m) rs w
        ≡ returns (
          (
            replayed (success sender index) md.channel_variant md.id,
            selecting replay_mode s m,
            with_endpoint rs p r₁,
          ),
          w',
        )
  unfolding select rr_select entry_or_sleep poll_receiver entry_of
  select-replayed sender index p s m rs r₁ md w w' synced g e found =
      rw (program_desynced_lem false w synced, ◌>>=◌)
        (rw (e, ◌>>=◌) (rw g (rw (found, ◌>>=◌) refl)))

  rr_select_recv-replayed :
      (sender : DetThreadId) (index : ℕ) (r : Receiver A C T) (msg : T)
      (r₂ : Endpoint (ChannelKind A C) T) (w : World Q)
      → replay_recv timer real fuel sender r.endpoint w ≡ returns ((ok msg, r₂), w)
      → rr_select_recv timer real real_select fuel
          (replayed (success sender index) r.metadata.channel_variant r.metadata.id)
          r
          w
        ≡ returns ((ok (ok msg), record r { endpoint = r₂ }), w)
  unfolding rr_select_recv
  rr_select_recv-replayed sender index r msg r₂ w found =
      rw
        (
          (variant_beq_iff r.metadata.channel_variant r.metadata.channel_variant).1 refl,
          (channel_id_beq_iff r.metadata.id r.metadata.id).1 refl,
        )
        (rw (found, ◌>>=◌) refl)

  recv_selected-replayed :
      (sender : DetThreadId) (index p : ℕ) (rs : Receivers A C T) (r : Receiver A C T) (msg : T)
      (r₂ : Endpoint (ChannelKind A C) T) (w : World Q)
      → rs p ≡ r
      → replay_recv timer real fuel sender r.endpoint w ≡ returns ((ok msg, r₂), w)
      → recv_selected timer real real_select fuel
          (replayed (success sender index) r.metadata.channel_variant r.metadata.id)
          p
          rs
          w
        ≡ returns ((ok msg, assign rs p (record r { endpoint = r₂ })), w)
  unfolding recv_selected
  recv_selected-replayed sender index p rs r msg r₂ w here found =
      rw
        (
          subst
              (λ x.
                rr_select_recv timer real real_select fuel
                  (replayed (success sender index) r.metadata.channel_variant r.metadata.id) x w
                ≡ returns ((ok (ok msg), record r { endpoint = r₂ }), w))
              (sym here) (rr_select_recv-replayed sender index r msg r₂ w found),
          ◌>>=◌,
        )
        refl

  module _ (fifo : IsFifoChannel real) where
    -- A round replays the answer `a`.
    abbrev pub Replays :
        Answer T
        → List (Answer T)
        → List RecordEntry
        → (ℕ → DetThreadId → List T)
        → S
        → Map ℕ ℕ
        → Receivers A C T
        → World Q
        → Type 0
    Replays a answers es later s m rs w =
        (rs' : Receivers A C T) × (w' : World Q) × (round timer real real_select fuel
            (selecting replay_mode s m) rs w
          ≡ returns ((reply_of a, selecting replay_mode s m, rs'), w'))
        × LogLeft w' es
        × (rest w' ≡ rest w)
        × Supplies fifo fuel rs' answers later
        × ((i : ℕ) → (rs' i).metadata ≡ (rs i).metadata)

    pub round-replayed_ok :
        (index p : ℕ) (sender : DetThreadId) (msg : T) (answers : List (Answer T))
        (es : List RecordEntry) (later : ℕ → DetThreadId → List T) (s : S) (m : Map ℕ ℕ)
        (rs : Receivers A C T) (w : World Q)
        → w.desync ≡ false
        → get m index ≡ some p
        → LogLeft w (entry_of (crossbeam_select (success sender index)) (rs p).metadata ∷ es)
        → Supplies fifo fuel rs
            (record { index = index; receiver = p; outcome = ok (sender, msg) } ∷ answers)
            later
        → Replays
            (record { index = index; receiver = p; outcome = ok (sender, msg) })
            answers
            es
            later
            s
            m
            rs
            w
    unfolding round selected_index select_event
    round-replayed_ok index p sender msg answers es later s m rs w synced g left supply =
        let (w', e, l, same) = get_log_entry_some w _ es left in
        let x : Result (DetMessage T) RecvError = ok (sender, msg) in
        let here = of_receiver fifo fuel p index x answers rs later supply in
        let (r₁, r₂, found, got, after) =
          poll_then_recv timer real fifo fuel sender msg (delivered_to p answers) (later p)
            (rs p).endpoint w' w' here in
        let r : Receiver A C T = record (rs p) { endpoint = r₁ } in
        (
          replayed_receivers rs p r₁ r₂,
          w',
          rw (select-replayed sender index p s m rs r₁ (rs p).metadata w w' synced g e found, ◌>>=◌)
              (rw g (
                rw
                  (
                    recv_selected-replayed sender index p (with_endpoint rs p r₁) r msg r₂ w'
                        (assign_same rs p r) got,
                    ◌>>=◌,
                  )
                  refl)),
          l,
          same,
          after_round fifo fuel p index x answers rs later supply (with_endpoint rs p r₁)
              (record r { endpoint = r₂ }) after (λ i h. rw h refl),
          λ i. ground arith,
        )

    pub round-replayed_err :
        (index p : ℕ) (answers : List (Answer T)) (es : List RecordEntry)
        (later : ℕ → DetThreadId → List T) (s : S) (m : Map ℕ ℕ) (rs : Receivers A C T)
        (w : World Q)
        → w.desync ≡ false
        → get m index ≡ some p
        → LogLeft w
            (entry_of (crossbeam_select (SelectEvent.recv_error index)) (rs p).metadata ∷ es)
        → Supplies fifo fuel rs
            (record { index = index; receiver = p; outcome = err RecvError.recv_error } ∷ answers)
            later
        → Replays
            (record { index = index; receiver = p; outcome = err RecvError.recv_error })
            answers
            es
            later
            s
            m
            rs
            w
    unfolding round selected_index select rr_select entry_or_sleep entry_of recv_selected
        rr_select_recv
    round-replayed_err index p answers es later s m rs w synced g left supply =
        let v = (rs p).metadata.channel_variant in
        let c = (rs p).metadata.id in
        let (w', e, l, same) = get_log_entry_some w _ es left in
        (
          assign rs p (rs p),
          w',
          rw (program_desynced_lem false w synced, ◌>>=◌)
              (rw (e, ◌>>=◌)
                (rw (g, (variant_beq_iff v v).1 refl, (channel_id_beq_iff c c).1 refl) refl)),
          l,
          same,
          after_round fifo fuel p index (err RecvError.recv_error) answers rs later supply rs (rs p)
              (of_receiver fifo fuel p index (err RecvError.recv_error) answers rs later supply)
              (λ i h. refl),
          λ i. ground arith,
        )
