-- ===== src/System/Trace.antt =====
-- What a recording of a system says of its threads, and one act more of it.
use rr_channel.Prelude.{
  ℕ, suc, ◌≤◌, length, arith, ◌≡◌, refl, inl, inr, false, some, List, [], ◌∷◌, ◌++◌, map, subst,
  ◌==◌, nat_eq, nat_beq_iff, Bool-cases,
}
use mathlib.Core.List.{append_assoc, append-nil}
use rr_channel.DetThread.Id.{DetThreadId, id_eq}
use rr_channel.RecordLog.{RecordEntry, RecordMetadata, LogQueue}
use rr_channel.Recorder.Laws.{LogOpen}
use rr_channel.Desync.{DetMessage}
use rr_channel.Channel.{RealReceiver}
use rr_channel.Crossbeam.Fifo.{IsFifoChannel}
use rr_channel.System.{System, update, world_of}
use rr_channel.System.Machine.{Act, set_to_do, turn_with, play, play-turn, IsFair}
use rr_channel.System.Follows.{Follows, entry_for}
use rr_channel.System.Recording.{Records}
use rr_channel.System.Views.{machine_of}

module _ {Q A C T : Type 0} ⦃q : LogQueue Q⦄ {real : RealReceiver C (DetMessage T)}
    (fifo : IsFifoChannel real) (ids : ℕ → DetThreadId) (md : ℕ → RecordMetadata)
    (distinct : (i j : ℕ) → (ids i == ids j) ≡ (i == j)) (owner : ℕ → ℕ) where
  -- What the threads did from `s` to `s₁`, in at most `n` turns of the machine.
  pub record Recorded (s s₁ : System Q A C T) (written : ℕ → List RecordEntry) (n : ℕ)
      : Type 0 where
    pub acts : ℕ → List (Act T)
    pub turns : List ℕ
    pub within : length turns ≤ n
    pub plays : play turns (machine_of fifo ids s acts) ≡ some (machine_of fifo ids s₁ (λ _. []))
    pub follows : (i : ℕ) → Follows (s.programs i) (acts i) (s₁.programs i)
    pub fair : IsFair owner (machine_of fifo ids s₁ (λ _. [])).queued (machine_of fifo ids s acts)
    pub logs :
        (i : ℕ) → LogOpen (ids i) (world_of s₁ i) (written i ++ map (entry_for ids md) (acts i))

  -- One more act of thread `i`, in front of what was recorded after it.
  pub recorded_step :
      (s s' s₁ : System Q A C T) (written : ℕ → List RecordEntry) (n i : ℕ) (a : Act T)
      (next : Recorded s' s₁ (update written i (written i ++ entry_for ids md a ∷ [])) n)
      → turn_with
          (machine_of fifo ids s (set_to_do next.acts i (a ∷ next.acts i)))
          i
          (a ∷ next.acts i)
        ≡ some (machine_of fifo ids s' next.acts)
      → (Follows (s'.programs i) (next.acts i) (s₁.programs i)
          → Follows (s.programs i) (a ∷ next.acts i) (s₁.programs i))
      → ((j : ℕ) → (i == j) ≡ false → s'.programs j ≡ s.programs j)
      → ((left : ℕ → ℕ → List T)
          → IsFair owner left (machine_of fifo ids s' next.acts)
          → IsFair owner left (machine_of fifo ids s (set_to_do next.acts i (a ∷ next.acts i))))
      → Recorded s s₁ written (suc n)
  recorded_step s s' s₁ written n i a next t f others o = record {
    acts = set_to_do next.acts i (a ∷ next.acts i);
    turns = i ∷ next.turns;
    within = omega (arith, next.within);
    plays =
        play-turn next.turns (machine_of fifo ids s (set_to_do next.acts i (a ∷ next.acts i)))
          (machine_of fifo ids s' next.acts) _ i (a ∷ next.acts i)
          (rw ((nat_beq_iff i i).1 refl) refl) t next.plays;
    follows = λ j. elim (Bool-cases (i == j)) [
      | inl e ↦ rw e (
          subst (λ j. Follows (s.programs j) (a ∷ next.acts i) (s₁.programs j))
            ((nat_beq_iff i j).0 e) (f (next.follows i)))
      | inr n ↦
          rw n (subst (λ p. Follows p (next.acts j) (s₁.programs j)) (others j n) (next.follows j))
    ];
    fair = o _ next.fair;
    logs = λ j. elim (Bool-cases (i == j)) [
      | inl e ↦ rw e (
          subst
            (λ j.
              LogOpen (ids j) (world_of s₁ j)
                (written j ++ entry_for ids md a ∷ map (entry_for ids md) (next.acts i)))
            ((nat_beq_iff i j).0 e)
            (subst (LogOpen (ids i) (world_of s₁ i))
              (rw ((nat_beq_iff i i).1 refl) (
                append_assoc (written i) (entry_for ids md a ∷ [])
                  (map (entry_for ids md) (next.acts i))))
              (next.logs i)))
      | inr n ↦ rw n (
          subst (λ w. LogOpen (ids j) (world_of s₁ j) (w ++ map (entry_for ids md) (next.acts j)))
            (rw n refl) (next.logs j))
    ];
  }

  -- Nothing was done.
  pub recorded_nothing :
      (s : System Q A C T) (written : ℕ → List RecordEntry)
      → Records fifo ids s written
      → Recorded s s written 0
  unfolding play
  recorded_nothing s written rec = record {
    acts = λ _. [];
    turns = [];
    within = omega arith;
    plays = refl;
    follows = λ _. refl;
    fair = record { owned = λ _. tt; conserved = λ c j. append-nil _ };
    logs = λ i. rw (append-nil (written i)) (rec.logs i);
  }

  -- One turn more, in which nothing was done.
  pub recorded_idle :
      (s s₁ : System Q A C T) (written : ℕ → List RecordEntry) (n : ℕ)
      → Recorded s s₁ written n
      → Recorded s s₁ written (suc n)
  recorded_idle s s₁ written n rec = record {
    acts = rec.acts;
    turns = rec.turns;
    within = omega (arith, rec.within);
    plays = rec.plays;
    follows = rec.follows;
    fair = rec.fair;
    logs = rec.logs;
  }
