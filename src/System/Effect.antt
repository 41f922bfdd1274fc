-- ===== src/System/Effect.antt =====
-- The abstract view of a replay: a turn as an effect on one queue.
use rr_channel.Prelude.{
  ℕ, ◌≡◌, refl, sym, ap, ◌∙◌, Option, none, some, List, [], ◌∷◌, ◌++◌, nat_eq, List-cases, inl, inr,
  arith,
}
use mathlib.Core.Option.{some-injective}
use rr_channel.System.Machine.{
  Act, sends, receives, Machine, set_to_do, set_queued, turn_with, turn,
}

module _ {T : Type 0} where
  -- The queue that an act of thread `i` changes.
  abbrev pub channel_of : Act T → ℕ
  channel_of (sends c v) = c
  channel_of (receives c j v) = c

  abbrev pub sender_of : ℕ → Act T → ℕ
  sender_of i (sends c v) = i
  sender_of i (receives c j v) = j

  -- What it makes of that queue.
  abbrev pub effect : Act T → List T → Option (List T)
  effect (sends c v) q = some (q ++ v ∷ [])
  effect (receives c j v) [] = none
  effect (receives c j v) (u ∷ q) = some q

  -- The turn of thread `i` at an act.
  abbrev pub after_act : Machine T → ℕ → Act T → List (Act T) → List T → Machine T
  after_act m i a acts l = record {
    to_do = set_to_do m.to_do i acts;
    queued = set_queued m.queued (channel_of a) (sender_of i a) l;
  }

  pub record Turns (m : Machine T) (i : ℕ) (m₁ : Machine T) : Type 0 where
    pub act : Act T
    pub acts : List (Act T)
    pub queue : List T
    pub has : m.to_do i ≡ act ∷ acts
    pub changes : effect act (m.queued (channel_of act) (sender_of i act)) ≡ some queue
    pub leads : after_act m i act acts queue ≡ m₁

  turn_with-Turns :
      (m m₁ : Machine T) (i : ℕ) (acts : List (Act T))
      → m.to_do i ≡ acts
      → turn_with m i acts ≡ some m₁
      → Turns m i m₁
  unfolding turn_with
  turn_with-Turns m m₁ i [] h p = ground arith
  turn_with-Turns m m₁ i (sends c v ∷ acts) h p = record {
    act = sends c v;
    acts = acts;
    queue = m.queued c i ++ v ∷ [];
    has = h;
    changes = refl;
    leads = some-injective _ m₁ p;
  }
  turn_with-Turns m m₁ i (receives c j v ∷ acts) h p = elim (List-cases (m.queued c j)) [
    | inl z ↦ ground (arith, z)
    | inr (u, l, z) ↦ record {
      act = receives c j v;
      acts = acts;
      queue = l;
      has = h;
      changes = ap (effect (receives c j v)) z;
      leads = some-injective _ m₁ (
          ap
            (λ z. elim z [
              | [] ↦ none
              | _ ∷ l ↦
                  some (record {
                    to_do = set_to_do m.to_do i acts;
                    queued = set_queued m.queued c j l;
                  })
            ])
            (sym z)
          ∙ p);
    }
  ]

  pub turn-Turns : (m m₁ : Machine T) (i : ℕ) → turn i m ≡ some m₁ → Turns m i m₁
  unfolding turn
  turn-Turns m m₁ i p = turn_with-Turns m m₁ i (m.to_do i) refl p

  pub turn-after_act :
      (m : Machine T) (i : ℕ) (a : Act T) (acts : List (Act T)) (l : List T)
      → m.to_do i ≡ a ∷ acts
      → effect a (m.queued (channel_of a) (sender_of i a)) ≡ some l
      → turn i m ≡ some (after_act m i a acts l)
  unfolding turn turn_with
  turn-after_act m i (sends c v) acts l h e =
      ap (turn_with m i) h
      ∙ ap (λ l. some (after_act m i (sends c v) acts l)) (some-injective _ l e)
  turn-after_act m i (receives c j v) acts l h e = elim (List-cases (m.queued c j)) [
    | inl z ↦
        let stuck : none ≡ some l = ap (effect (receives c j v)) (sym z) ∙ e in
        ground (arith, stuck)
    | inr (u, r, z) ↦
        let same : r ≡ l = some-injective r l (ap (effect (receives c j v)) (sym z) ∙ e) in
        ap (turn_with m i) h
        ∙ ap (λ z. elim z [ [] ↦ none | _ ∷ l ↦ some (after_act m i (receives c j v) acts l) ]) z
        ∙ ap (λ l. some (after_act m i (receives c j v) acts l)) same
  ]
