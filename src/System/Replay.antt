-- ===== src/System/Replay.antt =====
-- A replay of a system, turn by turn.
use rr_channel.Prelude.{
  ℕ, ◌+◌, ◌≡◌, refl, sym, ap, ◌∙◌, inl, inr, none, some, List, [], ◌∷◌, List-cases, Option-cases,
  ok, returns, length, arith, subst, ◌==◌, nat_eq, nat_beq_iff, Bool-cases,
}
use mathlib.Core.Option.{some-injective}
use rr_channel.DetThread.Id.{DetThreadId, id_eq}
use rr_channel.RecordLog.{RecordMetadata, LogQueue}
use rr_channel.World.{replay_mode}
use rr_channel.Desync.{DetMessage}
use rr_channel.Channel.{RealReceiver, RealSender}
use rr_channel.Crossbeam.{ChannelKind}
use rr_channel.Crossbeam.Fifo.{IsFifoChannel}
use rr_channel.System.{Program, System, update, take_turn, run_turns}
use rr_channel.System.Machine.{
  Act, sends, receives, Machine, set_to_do, set_queued, turn_with, turn, play, IsFair,
}
use rr_channel.System.Fair.{IsFair-sends, IsFair-receives, head_is_next}
use rr_channel.System.Follows.{Follows, IsLinked, Simulates}
use rr_channel.System.Turns.{turn-sends, turn-receives}

module _ {Q A C T : Type 0} ⦃q : LogQueue Q⦄ (timer : RealReceiver A T)
    (real : RealReceiver C (DetMessage T)) (real_send : RealSender (ChannelKind A C) (DetMessage T))
    (fifo : IsFifoChannel real) (linked : IsLinked fifo real_send) (fuel : ℕ)
    (ids : ℕ → DetThreadId) (md : ℕ → RecordMetadata)
    (distinct : (i j : ℕ) → (ids i == ids j) ≡ (i == j)) where
  -- One turn of thread `i` with what it has to do.
  abbrev Turned :
      (System Q A C T → Machine T → Type 0)
      → (ℕ → ℕ)
      → (ℕ → ℕ → List T)
      → ℕ
      → System Q A C T
      → Machine T
      → (ℕ → Program T)
      → Type 0
  Turned Sim owner left i s m' final =
      (s' : System Q A C T) × (take_turn timer real real_send fuel md replay_mode i (s.programs i) s
        ≡ returns s')
      × Sim s' m'
      × ((j : ℕ) → Follows (s'.programs j) (m'.to_do j) (final j))
      × IsFair owner left m'

  module _ (owner : ℕ → ℕ) (left : ℕ → ℕ → List T) (final : ℕ → Program T) where
    -- Each thread follows what it has to do, after a turn of thread `i`.
    followed :
        (s : System Q A C T) (programs : ℕ → Program T) (m : Machine T) (i : ℕ)
        (acts : List (Act T)) (p : Program T)
        → ((j : ℕ) → Follows (s.programs j) (m.to_do j) (final j))
        → programs ≡ update s.programs i p
        → Follows p acts (final i)
        → (j : ℕ) → Follows (programs j) (set_to_do m.to_do i acts j) (final j)
    followed s programs m i acts p follows e f j = rw e (elim (Bool-cases (i == j)) [
      | inl t ↦ rw t (subst (λ k. Follows p acts (final k)) ((nat_beq_iff i j).0 t) f)
      | inr n ↦ rw n (follows j)
    ])

    turned :
        (s : System Q A C T) (m m' : Machine T) (turns i : ℕ) (acts : List (Act T))
        → Simulates fifo fuel ids md s m (turns + 1)
        → ((j : ℕ) → Follows (s.programs j) (m.to_do j) (final j))
        → IsFair owner left m
        → m.to_do i ≡ acts
        → turn_with m i acts ≡ some m'
        → Turned (λ s m. Simulates fifo fuel ids md s m turns) owner left i s m' final
    unfolding turn_with
    turned s m m' turns i [] sim follows fair t p = ground arith
    turned s m m' turns i (sends c v ∷ acts) sim follows fair t p =
        let (k, is, f) = subst (λ l. Follows (s.programs i) l (final i)) t (follows i) in
        let (s', e, sim', ps) =
          turn-sends timer real real_send fifo linked fuel ids md distinct s m turns i c v acts k
            sim t in
        subst (λ m. Turned (λ s m. Simulates fifo fuel ids md s m turns) owner left i s m final)
          (some-injective _ m' p)
          (
            s',
            ap (λ p. take_turn timer real real_send fuel md replay_mode i p s) is ∙ e,
            sim',
            followed s s'.programs m i acts (k (ok tt)) follows ps f,
            IsFair-sends m i acts owner left c v t fair,
          )
    turned s m m' turns i (receives c x v ∷ acts) sim follows fair t p =
        elim (List-cases (m.queued c x)) [
          | inl z ↦ ground (arith, z)
          | inr (u, l, q) ↦
              let (k, is, f) = subst (λ l. Follows (s.programs i) l (final i)) t (follows i) in
              let (s', e, sim', ps) =
                turn-receives timer real real_send fifo linked fuel ids md distinct s m turns i c x
                  v acts l k sim t
                  (q ∙ ap (λ u. u ∷ l) (head_is_next m i acts owner left c x v u l t q fair)) in
              subst
                (λ m. Turned (λ s m. Simulates fifo fuel ids md s m turns) owner left i s m final)
                (some-injective _ m' (
                  ap
                    (λ z. elim z [
                      | [] ↦ none
                      | _ ∷ l ↦ some (record {
                        to_do = set_to_do m.to_do i acts;
                        queued = set_queued m.queued c x l;
                      })
                    ])
                    (sym q)
                  ∙ p))
                (
                  s',
                  ap (λ p. take_turn timer real real_send fuel md replay_mode i p s) is ∙ e,
                  sim',
                  followed s s'.programs m i acts (k (ok v)) follows ps f,
                  IsFair-receives m i acts owner left c x v u l t q fair,
                )
        ]

    -- A system that simulates a machine replays every order of turns that the machine can play, and
    -- simulates it to the end, where each thread follows what it has left to do.
    pub play-replays :
        (turns : List ℕ) (s : System Q A C T) (m m' : Machine T)
        → Simulates fifo fuel ids md s m (length turns)
        → ((j : ℕ) → Follows (s.programs j) (m.to_do j) (final j))
        → IsFair owner left m
        → play turns m ≡ some m'
        → (s' : System Q A C T) × (run_turns timer real real_send fuel md replay_mode turns s
            ≡ returns s')
          × Simulates fifo fuel ids md s' m' 0
          × ((j : ℕ) → Follows (s'.programs j) (m'.to_do j) (final j))
          × IsFair owner left m'
    unfolding play run_turns turn
    play-replays [] s m m' sim follows fair p =
        subst
          (λ m'.
            (s' : System Q A C T) × (run_turns timer real real_send fuel md replay_mode [] s
              ≡ returns s')
            × Simulates fifo fuel ids md s' m' 0
            × ((j : ℕ) → Follows (s'.programs j) (m'.to_do j) (final j))
            × IsFair owner left m')
          (some-injective m m' p) (s, refl, sim, follows, fair)
    play-replays (i ∷ turns) s m m' sim follows fair p = elim (Option-cases (turn i m)) [
      | inl z ↦ ground (arith, z)
      | inr (m₁, z) ↦
          let (s₁, e, sim₁, follows₁, fair₁) =
            turned s m m₁ (length turns) i (m.to_do i)
              (subst (Simulates fifo fuel ids md s m) (omega arith) sim) follows fair refl z in
          let (s', e', sim', follows', fair') =
            play-replays turns s₁ m₁ m' sim₁ follows₁ fair₁
              (ap (λ o. elim o [ none ↦ none | some m' ↦ play turns m' ]) (sym z) ∙ p) in
          (s', rw (e, run_turns) e', sim', follows', fair')
    ]
