-- ===== src/System/Progress.antt =====
-- The abstract view of a replay: whatever turns it took, it can go on to the end.
use rr_channel.Prelude.{
  ℕ, suc, ◌+◌, ◌++◌, ◌≡◌, refl, sym, ap, ◌∙◌, none, some, List, [], ◌∷◌, nat_eq, ◌==◌, nat_beq_iff,
  Bool-cases, Option-cases, inl, inr, arith, subst, length,
}
use mathlib.Core.Option.{some-injective}
use rr_channel.System.Machine.{Act, sends, receives, Machine, turn, play, IsOwned}
use rr_channel.System.Effect.{turn-Turns}
use rr_channel.System.Fair.{IsOwned-after}
use rr_channel.System.Commute.{turns_comm}

module _ {T : Type 0} (owner : ℕ → ℕ) where
  IsOwned-rest :
      (i : ℕ) (a : Act T) (acts : List (Act T)) → IsOwned owner i (a ∷ acts) → IsOwned owner i acts
  IsOwned-rest i (sends c v) acts o = o
  IsOwned-rest i (receives c j v) acts (_, o) = o

  turn-IsOwned :
      (m m₁ : Machine T) (i : ℕ)
      → turn i m ≡ some m₁
      → ((k : ℕ) → IsOwned owner k (m.to_do k))
      → (k : ℕ) → IsOwned owner k (m₁.to_do k)
  turn-IsOwned m m₁ i p owned k =
      let x = turn-Turns m m₁ i p in
      subst (λ n. IsOwned owner k (n.to_do k)) x.leads
        (IsOwned-after m i x.acts owner x.act (IsOwned-rest i x.act x.acts) x.has owned k)

  -- A thread that takes its turn early keeps the others from nothing.
  completes :
      (turns : List ℕ) (m m₁ done : Machine T) (i : ℕ)
      → ((k : ℕ) → IsOwned owner k (m.to_do k))
      → ((k : ℕ) → done.to_do k ≡ [])
      → play turns m ≡ some done
      → turn i m ≡ some m₁
      → (rest : List ℕ) × (play rest m₁ ≡ some done) × (suc (length rest) ≡ length turns)
  unfolding play
  completes [] m m₁ done i owned empty p t =
      let x = turn-Turns m m₁ i t in
      let same : m ≡ done = some-injective m done p in
      absurd (ground (arith, sym x.has ∙ ap (λ m. m.to_do i) same ∙ empty i))
  completes (j ∷ turns) m m₁ done i owned empty p t = elim (Option-cases (turn j m)) [
    | inl z ↦ ground (arith, z)
    | inr (m₂, z) ↦
        let p' : play turns m₂ ≡ some done =
          ap (λ o. elim o [ none ↦ none | some m' ↦ play turns m' ]) (sym z) ∙ p in
        elim (Bool-cases (i == j)) [
          | inl e ↦
              let same : m₁ ≡ m₂ =
                some-injective m₁ m₂ (sym t ∙ ap (λ i. turn i m) ((nat_beq_iff i j).0 e) ∙ z) in
              (turns, subst (λ m. play turns m ≡ some done) (sym same) p', refl)
          | inr ne ↦
              let (m₃, e, e') = turns_comm owner m m₁ m₂ i j owned ne t z in
              let (rest, played, l) =
                completes turns m₂ m₃ done i (turn-IsOwned m m₂ j z owned) empty p' e' in
              (
                j ∷ rest,
                ap (λ o. elim o [ none ↦ none | some m' ↦ play rest m' ]) e ∙ played,
                ap (λ n. suc n) l,
              )
        ]
  ]

  -- A machine that can play to its end can still do so after any turns, in the turns that are left.
  pub play_on :
      (taken turns : List ℕ) (m m' done : Machine T)
      → ((k : ℕ) → IsOwned owner k (m.to_do k))
      → ((k : ℕ) → done.to_do k ≡ [])
      → play turns m ≡ some done
      → play taken m ≡ some m'
      → (rest : List ℕ) × (play rest m' ≡ some done) × (length taken + length rest ≡ length turns)
  unfolding play
  play_on [] turns m m' done owned empty p t =
      (turns, subst (λ m. play turns m ≡ some done) (some-injective m m' t) p, omega arith)
  play_on (i ∷ taken) turns m m' done owned empty p t = elim (Option-cases (turn i m)) [
    | inl z ↦ ground (arith, z)
    | inr (m₁, z) ↦
        let (turns', p', l) = completes turns m m₁ done i owned empty p z in
        let (rest, played, l') =
          play_on taken turns' m₁ m' done (turn-IsOwned m m₁ i z owned) empty p'
            (ap (λ o. elim o [ none ↦ none | some m' ↦ play taken m' ]) (sym z) ∙ t) in
        (rest, played, omega (arith, l, l'))
  ]

  -- Turns taken one list after the other.
  pub play-append :
      (taken turns : List ℕ) (m m₁ m' : Machine T)
      → play taken m ≡ some m₁
      → play turns m₁ ≡ some m'
      → play (taken ++ turns) m ≡ some m'
  unfolding play
  play-append [] turns m m₁ m' p p' = ap (play turns) (some-injective m m₁ p) ∙ p'
  play-append (i ∷ taken) turns m m₁ m' p p' = elim (Option-cases (turn i m)) [
    | inl z ↦ ground (arith, z)
    | inr (m₂, z) ↦
        ap (λ o. elim o [ none ↦ none | some m' ↦ play (taken ++ turns) m' ]) z
        ∙ play-append taken turns m₂ m₁ m'
            (ap (λ o. elim o [ none ↦ none | some m' ↦ play taken m' ]) (sym z) ∙ p) p'
  ]
