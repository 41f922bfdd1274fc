-- ===== src/System/Follows.antt =====
-- Programs along what was recorded of them, and the abstract view of a system that replays.
use rr_channel.Prelude.{
  ℕ, ◌+◌, ◌<◌, ◌≡◌, ◌⊎◌, sym, ap, ◌∙◌, inl, inr, false, some, List, [], ◌∷◌, ◌++◌, map, ok, Result,
  returns, hangs, length, arith, ◌==◌, nat_eq, nat_beq_iff, Bool-cases,
}
use rr_channel.DetThread.Id.{DetThreadId, id_eq}
use rr_channel.Event.{crossbeam_sender, RecvError}
use rr_channel.RecordLog.{RecordEntry, RecordMetadata}
use rr_channel.World.{World}
use rr_channel.Recorder.{entry_of}
use rr_channel.Recorder.Laws.{Rest, rest, LogLeft}
use rr_channel.Recorder.Others.{LogLeft-kept}
use rr_channel.Desync.{DetMessage, Endpoint}
use rr_channel.Channel.{RealReceiver, RealSender}
use rr_channel.Crossbeam.{ChannelKind}
use rr_channel.Crossbeam.Fifo.{IsFifoChannel, IsMessages, kind_arrivals}
use rr_channel.Crossbeam.Receive.{recv_variants}
use rr_channel.Crossbeam.Replay.{waiting}
use rr_channel.System.{Program, sending, receiving, System, update, world_of, after_call}
use rr_channel.System.Machine.{Act, sends, receives, Machine, set_to_do, set_queued}

-- From `p`, these acts lead to `p'`. Every send succeeds.
abbrev pub Follows : {T : Type 0} → Program T → List (Act T) → Program T → Type 0
Follows p [] p' = p ≡ p'
Follows {T} p (sends c v ∷ acts) p' =
    (k : Result (Unit {0}) T → Program T) × (p ≡ sending c v k) × Follows (k (ok tt)) acts p'
Follows {T} p (receives c j v ∷ acts) p' =
    (k : Result T RecvError → Program T) × (p ≡ receiving c k) × Follows (k (ok v)) acts p'

-- The entry that an act is logged with; `ids` gives the ids of the threads.
abbrev pub entry_for : {T : Type 0} → (ℕ → DetThreadId) → (ℕ → RecordMetadata) → Act T → RecordEntry
entry_for ids md (sends c v) = entry_of crossbeam_sender (md c)
entry_for ids md (receives c j v) = entry_of (recv_variants.succ_event (ids j)) (md c)

-- A thread that has these acts left finds them in its log. Where it has none, it may have no log.
abbrev pub HasLeft :
    {Q T : Type 0} → (ℕ → DetThreadId) → (ℕ → RecordMetadata) → World Q → List (Act T) → Type 0
HasLeft ids md w acts = (acts ≡ []) ⊎ LogLeft w (map (entry_for ids md) acts)

-- A real channel with both its ends: a send puts a message at the end, and succeeds; a receive takes
-- the first message, and waits for ever while there is none.
pub record IsLinked {A C T : Type 0} {real : RealReceiver C (DetMessage T)}
    (fifo : IsFifoChannel real) (real_send : RealSender (ChannelKind A C) (DetMessage T))
    : Type 0 where
  pub on_send :
      (k : ChannelKind A C) (m : DetMessage T)
      → IsMessages k
      → (k' : ChannelKind A C) × (real_send.send m k ≡ returns (ok tt, k'))
        × IsMessages k'
        × (kind_arrivals fifo k' ≡ kind_arrivals fifo k ++ m ∷ [])
  pub on_recv :
      (c : C) (m : DetMessage T) (ms : List (DetMessage T))
      → fifo.arrivals c ≡ m ∷ ms
      → (c' : C) × (real.recv c ≡ returns (ok m, c')) × (fifo.arrivals c' ≡ ms)
  pub on_wait : (c : C) → fifo.arrivals c ≡ [] → real.recv c ≡ hangs

module _ {Q A C T : Type 0} {real : RealReceiver C (DetMessage T)} (fifo : IsFifoChannel real)
    (fuel : ℕ) (ids : ℕ → DetThreadId) (md : ℕ → RecordMetadata) where
  -- The system replays what the machine has to do, with messages waiting as there. The fuel is enough
  -- for `turns` more sends.
  pub record Simulates (s : System Q A C T) (m : Machine T) (turns : ℕ) : Type 0 where
    pub synced : s.shared.desync ≡ false
    pub named : (i : ℕ) → (s.threads i).det_id ≡ some (ids i)
    pub logs : (i : ℕ) → HasLeft ids md (world_of s i) (m.to_do i)
    pub carries_messages : (c : ℕ) → IsMessages (s.channels c).channel
    pub within_fuel : (c : ℕ) → length (kind_arrivals fifo (s.channels c).channel) + turns < fuel
    pub in_line : (c j : ℕ) → waiting fifo (s.channels c) (ids j) ≡ m.queued c j

  module _ (distinct : (i j : ℕ) → (ids i == ids j) ≡ (i == j)) (s : System Q A C T) (m : Machine T)
      (turns : ℕ) (sim : Simulates s m (turns + 1)) (i : ℕ) (acts : List (Act T)) (w' : World Q)
      (same : rest w' ≡ rest (world_of s i)) (logs : HasLeft ids md w' acts) where
    HasLeft-after :
        (j : ℕ)
        → HasLeft ids md
            (record w' { thread = update s.threads i w'.thread j })
            (set_to_do m.to_do i acts j)
    HasLeft-after j = elim (Bool-cases (i == j)) [
      | inl t ↦ rw t logs
      | inr f ↦ rw f (elim (sim.logs j) [
        | inl e ↦ inl e
        | inr l ↦ inr (
            LogLeft-kept (ids i) (ids j) (world_of s i) w' (s.threads j) (sim.named i)
              (distinct i j ∙ f) (sim.named j) same _ l)
      ])
    ]

    -- After a call of thread `i` on channel `c` that changed the queue of thread `x`.
    pub Simulates-after :
        (c x : ℕ) (l : List T) (p : Program T) (e : Endpoint (ChannelKind A C) T)
        → IsMessages e.channel
        → length (kind_arrivals fifo e.channel) + turns < fuel
        → waiting fifo e (ids x) ≡ l
        → ((j : ℕ) → (x == j) ≡ false → waiting fifo e (ids j) ≡ m.queued c j)
        → Simulates
            (after_call s i c w' p e)
            (record { to_do = set_to_do m.to_do i acts; queued = set_queued m.queued c x l })
            turns
    Simulates-after c x l p e carries lt own others = record {
      synced = ap (λ (r : Rest Q). r.desync) same ∙ sim.synced;
      named = λ j. elim (Bool-cases (i == j)) [
        | inl t ↦ rw t (
            ap (λ (r : Rest Q). r.det_id) same
            ∙ sim.named i
            ∙ ap (λ k. some (ids k)) ((nat_beq_iff i j).0 t))
        | inr f ↦ rw f (sim.named j)
      ];
      logs = HasLeft-after;
      carries_messages = λ d. elim (Bool-cases (c == d)) [
        | inl t ↦ rw t carries
        | inr f ↦ rw f (sim.carries_messages d)
      ];
      within_fuel = λ d. elim (Bool-cases (c == d)) [
        | inl t ↦ rw t lt
        | inr f ↦ rw f (omega (arith, sim.within_fuel d))
      ];
      in_line = λ d j. elim (Bool-cases (c == d)) [
        | inl t ↦ rw t (elim (Bool-cases (x == j)) [
          | inl g ↦ rw g (ap (λ k. waiting fifo e (ids k)) (sym ((nat_beq_iff x j).0 g)) ∙ own)
          | inr g ↦ rw g (others j g ∙ ap (λ k. m.queued k j) ((nat_beq_iff c d).0 t))
        ])
        | inr f ↦ rw f (sim.in_line d j)
      ];
    }
