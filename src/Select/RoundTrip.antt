-- ===== src/Select/RoundTrip.antt =====
-- crossbeam_select.rs: from recorded rounds of selecting over the log file to the replayed rounds.
use mathlib.Core.List.{append-nil}
use rr_channel.Prelude.{
  ℕ, String, ◌≡◌, refl, sym, ap, subst, ◌∙◌, false, Option, some, List, [], ◌∷◌, ◌++◌, map, Bool,
  Result, ok, err, returns, arith, ◌>>=◌, nat_eq, length,
}
use rr_channel.Prelude.Map.{Map, get}
use rr_channel.DetThread.Id.{DetThreadId}
use rr_channel.Event.{RecvError, SelectEvent, success, crossbeam_select}
use rr_channel.RecordLog.{
  RecordEntry, RecordMetadata, LogQueue, GlobalRecorder, GlobalReplayer, Ron, flush, open_log,
}
use rr_channel.World.{World, record_mode, replay_mode}
use rr_channel.Recorder.{entry_of}
use rr_channel.Recorder.Laws.{Rest, rest, LogOpen, LogLeft}
use rr_channel.Desync.{DetMessage}
use rr_channel.Channel.{RealReceiver}
use rr_channel.Crossbeam.Fifo.{IsFifoChannel}
use rr_channel.Crossbeam.RoundTrip.{IsReplaying, LogOpen-LogLeft}
use rr_channel.Select.{RealSelect, Receivers}
use rr_channel.Select.Operation.{select_event}
use rr_channel.Select.Rounds.{
  selecting, Reply, rounds, Answer, reply_of, entry_for, Delivers, AddedAt,
}
use rr_channel.Select.Record.{rounds-record}
use rr_channel.Select.Supply.{Supplies}
use rr_channel.Select.Replay.{Replays, round-replayed_ok, round-replayed_err}

AddedAt-Delivers :
    {S O A C T : Type 0} (real_select : RealSelect S O A C T) (m : Map ℕ ℕ) (s : S)
    (rs : Receivers A C T) (answers : List (Answer T))
    → Delivers real_select m s rs answers
    → AddedAt m answers
AddedAt-Delivers real_select m s rs [] d = tt
AddedAt-Delivers real_select m s rs (a ∷ answers) (o, s', k, p, e, g, h, d) =
    (g, AddedAt-Delivers real_select m s' _ answers d)

module _ {Q S O A C T : Type 0} ⦃q : LogQueue Q⦄ (timer : RealReceiver A T)
    (real : RealReceiver C (DetMessage T)) (real_select : RealSelect S O A C T) (fuel : ℕ) where
  module _ (fifo : IsFifoChannel real) where
    one :
        (index p : ℕ) (x : Result (DetMessage T) RecvError) (answers : List (Answer T))
        (es : List RecordEntry) (md : ℕ → RecordMetadata) (later : ℕ → DetThreadId → List T) (s : S)
        (m : Map ℕ ℕ) (rs : Receivers A C T) (w : World Q)
        → let a : Answer T = record { index = index; receiver = p; outcome = x } in
          w.desync ≡ false
          → ((i : ℕ) → (rs i).metadata ≡ md i)
          → get m index ≡ some p
          → LogLeft w (entry_for md a ∷ es)
          → Supplies fifo fuel rs (a ∷ answers) later
          → Replays timer real real_select fuel fifo a answers es later s m rs w
    unfolding select_event
    one index p (ok (sender, msg)) answers es md later s m rs w synced named g l supply =
        round-replayed_ok timer real real_select fuel fifo index p sender msg answers es later s m
          rs w synced g
          (subst (λ x. LogLeft w (entry_of (crossbeam_select (success sender index)) x ∷ es))
            (sym (named p)) l)
          supply
    one index p (err RecvError.recv_error) answers es md later s m rs w synced named g l supply =
        round-replayed_err timer real real_select fuel fifo index p answers es later s m rs w synced
          g
          (subst
            (λ x. LogLeft w (entry_of (crossbeam_select (SelectEvent.recv_error index)) x ∷ es))
            (sym (named p)) l)
          supply

    -- Replayed rounds.
    pub rounds-replay :
        (answers : List (Answer T)) (md : ℕ → RecordMetadata) (later : ℕ → DetThreadId → List T)
        (s : S) (m : Map ℕ ℕ) (rs : Receivers A C T) (w : World Q) (es : List RecordEntry)
        → w.desync ≡ false
        → ((i : ℕ) → (rs i).metadata ≡ md i)
        → AddedAt m answers
        → LogLeft w (map (entry_for md) answers ++ es)
        → Supplies fifo fuel rs answers later
        → (rs' : Receivers A C T) × (w' : World Q) × (rounds timer real real_select fuel
              (length answers)
              (selecting replay_mode s m)
              rs
              w
            ≡ returns ((map reply_of answers, selecting replay_mode s m, rs'), w'))
          × LogLeft w' es
          × (rest w' ≡ rest w)
          × Supplies fifo fuel rs' [] later
    unfolding rounds
    rounds-replay [] md later s m rs w es synced named added l supply =
        (rs, w, refl, l, refl, supply)
    rounds-replay (a ∷ answers) md later s m rs w es synced named added l supply =
        let (rs₁, w₁, p, l₁, same, supply₁, named₁) =
          one a.index a.receiver a.outcome answers (map (entry_for md) answers ++ es) md later s m
            rs w synced named added.0 l supply in
        let (rs', w', p', l', same', supply') =
          rounds-replay answers md later s m rs₁ w₁ es (ap (λ (x : Rest _). x.desync) same ∙ synced)
            (λ i. named₁ i ∙ named i) added.1 l₁ supply₁ in
        (rs', w', rw (p, ◌>>=◌) (rw (p', ◌>>=◌) refl), l', same' ∙ same, supply')

    -- A client of a Select that selects and receives in turns, at least once, recorded from an
    -- empty open log in a program that is not desynchronised, where each real selection and its
    -- operation answer from a receiver that was added at the index, then flushed, read back and
    -- replayed by a thread with the same id in a program that is not desynchronised, gets the same
    -- indices and the same messages or errors; the channels of the replay need only hold, within
    -- the fuel, the same messages of each sender in the same order. The replay leaves the real
    -- selector as it was.
    pub rounds_then_replay :
        (ron : Ron) (writable : String → String → Bool) (read : String → Option String)
        (a : Answer T) (answers : List (Answer T)) (md : ℕ → RecordMetadata)
        (later : ℕ → DetThreadId → List T) (s s' s₂ : S) (m : Map ℕ ℕ)
        (rs rs' rs₂ : Receivers A C T) (replies : List (Reply T)) (id : DetThreadId)
        (w w' v : World Q) (g : GlobalRecorder Q) (path text : String) (p : GlobalReplayer)
        → w.desync ≡ false
        → LogOpen id w []
        → ((i : ℕ) → (rs i).metadata ≡ md i)
        → Delivers real_select m s rs (a ∷ answers)
        → rounds timer real real_select fuel (length (a ∷ answers)) (selecting record_mode s m) rs w
          ≡ returns ((replies, selecting record_mode s' m, rs'), w')
        → w'.recorder ≡ some g
        → flush ron writable g ≡ ok (path, text)
        → read path ≡ some text
        → open_log ron read path ≡ some p
        → IsReplaying id p v
        → v.desync ≡ false
        → ((i : ℕ) → (rs₂ i).metadata ≡ md i)
        → Supplies fifo fuel rs₂ (a ∷ answers) later
        → (rs₃ : Receivers A C T) × (v' : World Q) × (rounds timer real real_select fuel
              (length (a ∷ answers))
              (selecting replay_mode s₂ m)
              rs₂
              v
            ≡ returns ((replies, selecting replay_mode s₂ m, rs₃), v'))
          × Supplies fifo fuel rs₃ [] later
    rounds_then_replay ron writable read a answers md later s s' s₂ m rs rs' rs₂ replies id w w' v g
          path text p synced l named d ran eg fl rd op start synced₂ named₂ supply =
        let (s₁, rs₁, w₁, e, l₁, same) =
          rounds-record timer real real_select fuel (a ∷ answers) md s m rs id w [] synced l named
            d in
        let same : w₁ ≡ w' = ground (arith, e, ran) in
        let same_replies : map reply_of (a ∷ answers) ≡ replies = ground (arith, e, ran) in
        let left : LogLeft v (map (entry_for md) (a ∷ answers)) =
          LogOpen-LogLeft ron writable read id w' v (map (entry_for md) (a ∷ answers)) g path text p
            (subst (λ w. LogOpen id w (map (entry_for md) (a ∷ answers))) same l₁)
            (λ x. ground (arith, x)) eg fl rd op start in
        let (rs₃, v', e', _, _, supply') =
          rounds-replay (a ∷ answers) md later s₂ m rs₂ v [] synced₂ named₂
            (AddedAt-Delivers real_select m s rs (a ∷ answers) d) (rw append-nil left) supply in
        (rs₃, v', rw (← same_replies) e', supply')
