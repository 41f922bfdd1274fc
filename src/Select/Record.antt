-- ===== src/Select/Record.antt =====
-- crossbeam_select.rs: recorded rounds of selecting and receiving.
use mathlib.Core.List.{append_assoc, append-nil}
use rr_channel.Prelude.{
  ℕ, ◌≡◌, refl, subst, ◌∙◌, ap, false, some, List, [], ◌∷◌, ◌++◌, map, Result, returns, arith,
  ◌>>=◌, nat_eq, length,
}
use rr_channel.Prelude.Map.{Map, get}
use rr_channel.DetThread.Id.{DetThreadId}
use rr_channel.Event.{RecvError, crossbeam_select}
use rr_channel.RecordLog.{RecordEntry, RecordMetadata, LogQueue}
use rr_channel.World.{World, record_mode}
use rr_channel.Recorder.{entry_of}
use rr_channel.Recorder.Laws.{Rest, rest, LogOpen, write_event_to_record_open}
use rr_channel.Desync.{DetMessage, message}
use rr_channel.Desync.Laws.{program_desynced_lem}
use rr_channel.Channel.{RealReceiver}
use rr_channel.Crossbeam.{ChannelKind, after, bounded, never, unbounded, Receiver}
use rr_channel.Crossbeam.Receive.{on_kind}
use rr_channel.Select.{RealSelect, Receivers, recorded, select, rr_select}
use rr_channel.Select.Operation.{
  do_recv, select_event, selected_index, rr_select_recv, recv_selected,
}
use rr_channel.Select.Rounds.{
  selecting, round, rounds, Answer, reply_of, entry_for, with_channel, Completes, Delivers,
}

-- A receiver after its channel has changed.
abbrev pub rewired : {A C T : Type 0} → Receiver A C T → ChannelKind A C → Receiver A C T
rewired r k = record r { endpoint = record r.endpoint { channel = k } }

-- Changing the channel of a receiver keeps the metadata of all.
with_channel-metadata :
    {A C T : Type 0} (rs : Receivers A C T) (r i : ℕ) (k : ChannelKind A C)
    → (with_channel rs r k i).metadata ≡ (rs i).metadata
with_channel-metadata rs r i k = ground arith

module _ {Q S O A C T : Type 0} ⦃q : LogQueue Q⦄ (timer : RealReceiver A T)
    (real : RealReceiver C (DetMessage T)) (real_select : RealSelect S O A C T) (fuel : ℕ) where
  do_recv-Completes :
      (o : O) (r : Receiver A C T) (c k : ChannelKind A C) (x : Result (DetMessage T) RecvError)
      (w : World Q)
      → r.channel ≡ c
      → Completes real_select o c x k
      → do_recv real_select o r w ≡ returns ((x, rewired r k), w)
  unfolding do_recv on_kind
  do_recv-Completes o r (after a) k x w e h = absurd h
  do_recv-Completes o r (bounded c) k x w e (c', p, d) = rw (e, p, d)
  do_recv-Completes o r (never c) k x w e (c', p, d) = rw (e, p, d)
  do_recv-Completes o r (unbounded c) k x w e (c', p, d) = rw (e, p, d)

  recv_selected-recorded :
      (o : O) (r : ℕ) (rs : Receivers A C T) (k : ChannelKind A C)
      (x : Result (DetMessage T) RecvError) (id : DetThreadId) (w : World Q)
      (written : List RecordEntry)
      → Completes real_select o (rs r).channel x k
      → LogOpen id w written
      → (w' : World Q) × (recv_selected timer real real_select fuel (recorded o) r rs w
          ≡ returns ((message x, with_channel rs r k), w'))
        × LogOpen id w' (
            written
            ++ entry_of (crossbeam_select (select_event (real_select.index o) x)) (rs r).metadata
              ∷ [])
        × (rest w' ≡ rest w)
  unfolding recv_selected rr_select_recv
  recv_selected-recorded o r rs k x id w written h l =
      let (w', e, l', same) =
        write_event_to_record_open id w written
          (crossbeam_select (select_event (real_select.index o) x)) (rs r).metadata l in
      (
        w',
        rw (do_recv-Completes o (rs r) (rs r).channel k x w refl h, ◌>>=◌) (rw (e, ◌>>=◌) refl),
        l',
        same,
      )

  select-recorded :
      (o : O) (s s' : S) (m : Map ℕ ℕ) (rs : Receivers A C T) (w : World Q)
      → w.desync ≡ false
      → real_select.select s (λ i. (rs i).channel) ≡ returns (o, s')
      → select timer real real_select fuel (selecting record_mode s m) rs w
        ≡ returns ((recorded o, selecting record_mode s' m, rs), w)
  unfolding select rr_select
  select-recorded o s s' m rs w synced p =
      rw (program_desynced_lem false w synced, ◌>>=◌) (rw p refl)

  round-recorded :
      (a : Answer T) (o : O) (s s' : S) (m : Map ℕ ℕ) (k : ChannelKind A C) (rs : Receivers A C T)
      (id : DetThreadId) (w : World Q) (written : List RecordEntry)
      → w.desync ≡ false
      → real_select.select s (λ i. (rs i).channel) ≡ returns (o, s')
      → real_select.index o ≡ a.index
      → get m a.index ≡ some a.receiver
      → Completes real_select o (rs a.receiver).channel a.outcome k
      → LogOpen id w written
      → (w' : World Q) × (round timer real real_select fuel (selecting record_mode s m) rs w
          ≡ returns ((reply_of a, selecting record_mode s' m, with_channel rs a.receiver k), w'))
        × LogOpen id w' (written ++ entry_for (λ r. (rs r).metadata) a ∷ [])
        × (rest w' ≡ rest w)
  unfolding round selected_index
  round-recorded a o s s' m k rs id w written synced p e g h l =
      let (w', q, l', same) = recv_selected-recorded o a.receiver rs k a.outcome id w written h l in
      let index : selected_index real_select (recorded o) ≡ a.index = e in
      (
        w',
        rw (select-recorded o s s' m rs w synced p, ◌>>=◌)
            (rw (index, g) (rw (q, ◌>>=◌) (rw index refl))),
        subst
            (λ i. LogOpen id w' (
              written
              ++ entry_of (crossbeam_select (select_event i a.outcome)) (rs a.receiver).metadata
                ∷ []))
            e l',
        same,
      )

  -- Recorded rounds.
  pub rounds-record :
      (answers : List (Answer T)) (md : ℕ → RecordMetadata) (s : S) (m : Map ℕ ℕ)
      (rs : Receivers A C T) (id : DetThreadId) (w : World Q) (written : List RecordEntry)
      → w.desync ≡ false
      → LogOpen id w written
      → ((i : ℕ) → (rs i).metadata ≡ md i)
      → Delivers real_select m s rs answers
      → (s' : S) × (rs' : Receivers A C T) × (w' : World Q) × (rounds timer real real_select fuel
            (length answers)
            (selecting record_mode s m)
            rs
            w
          ≡ returns ((map reply_of answers, selecting record_mode s' m, rs'), w'))
        × LogOpen id w' (written ++ map (entry_for md) answers)
        × (rest w' ≡ rest w)
  unfolding rounds
  rounds-record [] md s m rs id w written synced l named d = (s, rs, w, refl, rw append-nil l, refl)
  rounds-record (a ∷ answers) md s m rs id w written synced l named (o, s₁, k, p, e, g, h, d) =
      let (w₁, q, l₁, same) = round-recorded a o s s₁ m k rs id w written synced p e g h l in
      let (s', rs', w', q', l', same') =
        rounds-record answers md s₁ m (with_channel rs a.receiver k) id w₁
          (written ++ entry_for md a ∷ []) (ap (λ (x : Rest _). x.desync) same ∙ synced)
          (subst
            (λ x.
              LogOpen id w₁
                (written ++ entry_of (crossbeam_select (select_event a.index a.outcome)) x ∷ []))
            (named a.receiver) l₁)
          (λ i. with_channel-metadata rs a.receiver i k ∙ named i) d in
      (
        s',
        rs',
        w',
        rw (q, ◌>>=◌) (rw (q', ◌>>=◌) refl),
        subst (LogOpen id w') (append_assoc written (entry_for md a ∷ []) _) l',
        same' ∙ same,
      )
