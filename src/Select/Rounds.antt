-- ===== src/Select/Rounds.antt =====
-- crossbeam_select.rs: a client that selects and receives in turns, and what its log stands for.
use rr_channel.Prelude.{
  ℕ, zero, suc, ◌≡◌, none, some, List, [], ◌∷◌, Result, ok, err, returns, pure, panic, ◌>>=◌,
  nat_eq, ◌==◌, if◌then◌else◌, All,
}
use rr_channel.Prelude.Map.{Map, get}
use rr_channel.Event.{RecvError, crossbeam_select}
use rr_channel.RecordLog.{RecordEntry, RecordMetadata, LogQueue}
use rr_channel.World.{Call, RrMode}
use rr_channel.Recorder.{entry_of}
use rr_channel.Desync.{DetMessage, message}
use rr_channel.Channel.{RealReceiver}
use rr_channel.Crossbeam.{ChannelKind, after, bounded, never, unbounded}
use rr_channel.Select.{RealSelect, Select, Receivers, assign, select}
use rr_channel.Select.Operation.{selected_index, select_event, recv_selected}

abbrev pub selecting : {S : Type 0} → RrMode → S → Map ℕ ℕ → Select S
selecting mode selector m = record { selector = selector; mode = mode; receivers = m }

-- What a round of the client gets: the index of the selected operation, and what it received.
abbrev pub Reply : Type 0 → Type 0
Reply T = ℕ × Result T RecvError

module _ {Q S O A C T : Type 0} ⦃q : LogQueue Q⦄ (timer : RealReceiver A T)
    (real : RealReceiver C (DetMessage T)) (real_select : RealSelect S O A C T) (fuel : ℕ) where
  -- The client completes the operation on the receiver that it added at the selected index.
  unfoldable pub round : Select S → Receivers A C T → Call Q (Reply T × Select S × Receivers A C T)
  round s rs = do
    (inner, s', rs') ← select timer real real_select fuel s rs
    let index = selected_index real_select inner
    elim (get s.receivers index) [
      | none ↦ panic
      | some r ↦ do
        (received, rs'') ← recv_selected timer real real_select fuel inner r rs'
        pure ((index, received), s', rs'')
    ]

  unfoldable pub rounds :
      ℕ → Select S → Receivers A C T → Call Q (List (Reply T) × Select S × Receivers A C T)
  rounds zero s rs = pure ([], s, rs)
  rounds (suc n) s rs = do
    (reply, s', rs') ← round s rs
    (replies, s'', rs'') ← rounds n s' rs'
    pure (reply ∷ replies, s'', rs'')

-- The real answers to one round: the selected index, the receiver that was added there, and the
-- message or error that the operation completes with.
pub record Answer (T : Type 0) : Type 0 where
  pub index : ℕ
  pub receiver : ℕ
  pub outcome : Result (DetMessage T) RecvError

abbrev pub reply_of : {T : Type 0} → Answer T → Reply T
reply_of a = (a.index, message a.outcome)

-- `md` gives the metadata of the receivers.
abbrev pub entry_for : {T : Type 0} → (ℕ → RecordMetadata) → Answer T → RecordEntry
entry_for md a = entry_of (crossbeam_select (select_event a.index a.outcome)) (md a.receiver)

-- The receiver `r` with the channel `k`.
abbrev pub with_channel : {A C T : Type 0} → Receivers A C T → ℕ → ChannelKind A C → Receivers A C T
with_channel rs r k =
    assign rs r (record (rs r) { endpoint = record (rs r).endpoint { channel = k } })

module _ {S O A C T : Type 0} (real_select : RealSelect S O A C T) where
  -- The operation takes `x` out of a channel, which is not that of `after`.
  abbrev pub Completes :
      O → ChannelKind A C → Result (DetMessage T) RecvError → ChannelKind A C → Type 0
  Completes o (after a) x k = ⊥
  Completes o (bounded c) x k =
      (c' : C) × (real_select.recv_message o c ≡ returns (x, c')) × (k ≡ bounded c')
  Completes o (never c) x k =
      (c' : C) × (real_select.recv_message o c ≡ returns (x, c')) × (k ≡ never c')
  Completes o (unbounded c) x k =
      (c' : C) × (real_select.recv_message o c ≡ returns (x, c')) × (k ≡ unbounded c')

  -- The real selector and the real channels give these answers.
  abbrev pub Delivers : Map ℕ ℕ → S → Receivers A C T → List (Answer T) → Type 0
  Delivers m s rs [] = Unit
  Delivers m s rs (a ∷ answers) =
      (o : O) × (s' : S) × (k : ChannelKind A C) × (real_select.select s (λ i. (rs i).channel)
        ≡ returns (o, s'))
      × (real_select.index o ≡ a.index)
      × (get m a.index ≡ some a.receiver)
      × Completes o (rs a.receiver).channel a.outcome k
      × Delivers m s' (with_channel rs a.receiver k) answers

-- The messages among the answers that come from the receiver `p`, before `ms`.
abbrev pub deliver :
    {T : Type 0} → Result (DetMessage T) RecvError → List (DetMessage T) → List (DetMessage T)
deliver (ok m) ms = m ∷ ms
deliver (err _) ms = ms

abbrev pub delivered_to : {T : Type 0} → ℕ → List (Answer T) → List (DetMessage T)
delivered_to p [] = []
delivered_to p (a ∷ answers) =
    let rest = delivered_to p answers in if a.receiver == p then deliver a.outcome rest else rest

-- The receivers stand at the indices of the answers.
abbrev pub AddedAt : {T : Type 0} → Map ℕ ℕ → List (Answer T) → Type 0
AddedAt m = All (λ a. get m a.index ≡ some a.receiver)
