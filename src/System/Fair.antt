-- ===== src/System/Fair.antt =====
-- The abstract view of a replay: whatever the order of the turns, each thread receives the messages
-- that it did receive.
use rr_channel.Prelude.{
  ℕ, Bool, ◌≡◌, ◌⊎◌, refl, sym, ap, ap₂, ◌∙◌, true, false, List, [], ◌∷◌, ◌++◌, nat_eq, ◌==◌,
  nat_beq_iff, if◌then◌else◌, Bool-cases, inl, inr, arith, subst,
}
use mathlib.Core.List.{append_assoc}
use rr_channel.System.Machine.{
  Act, sends, receives, Machine, sent_to, received_of, set_to_do, set_queued, IsOwned, IsFair,
}

-- What has been or will be sent to a channel by a thread.
abbrev supplied : {T : Type 0} → Machine T → ℕ → ℕ → List T
supplied m c j = m.queued c j ++ sent_to c (m.to_do j)

-- What its owner is still to receive of it.
abbrev wanted : {T : Type 0} → (ℕ → ℕ) → Machine T → ℕ → ℕ → List T
wanted owner m c j = received_of c j (m.to_do (owner c))

module _ {T : Type 0} (m : Machine T) (i : ℕ) (acts : List (Act T)) where
  -- A statement about what a thread has to do, after the turn of `i`.
  after_turn :
      (P : List (Act T) → Type 0) (j : ℕ)
      → ((i == j) ≡ true → P acts)
      → ((i == j) ≡ false → P (m.to_do j))
      → P (set_to_do m.to_do i acts j)
  after_turn P j here there = elim (Bool-cases (i == j)) [
    | inl t ↦ rw t (here t)
    | inr f ↦ rw f (there f)
  ]

  pub IsOwned-after :
      (owner : ℕ → ℕ) (a : Act T)
      → (IsOwned owner i (a ∷ acts) → IsOwned owner i acts)
      → m.to_do i ≡ a ∷ acts
      → ((j : ℕ) → IsOwned owner j (m.to_do j))
      → (j : ℕ) → IsOwned owner j (set_to_do m.to_do i acts j)
  IsOwned-after owner a drop t owned j =
      after_turn (IsOwned owner j) j
        (λ e.
          subst (λ k. IsOwned owner k acts) ((nat_beq_iff i j).0 e)
            (drop (subst (IsOwned owner i) t (owned i))))
        (λ _. owned j)

  IsOwned-before :
      (owner : ℕ → ℕ) (a : Act T)
      → (IsOwned owner i acts → IsOwned owner i (a ∷ acts))
      → m.to_do i ≡ a ∷ acts
      → ((j : ℕ) → IsOwned owner j (set_to_do m.to_do i acts j))
      → (j : ℕ) → IsOwned owner j (m.to_do j)
  IsOwned-before owner a add t owned j = elim (Bool-cases (i == j)) [
    | inl e ↦
        let mine : IsOwned owner i acts =
          subst (λ b. IsOwned owner i (if b then acts else m.to_do i)) ((nat_beq_iff i i).1 refl)
            (owned i) in
        subst (λ k. IsOwned owner k (m.to_do k)) ((nat_beq_iff i j).0 e)
          (subst (IsOwned owner i) (sym t) (add mine))
    | inr f ↦ subst (λ b. IsOwned owner j (if b then acts else m.to_do j)) f (owned j)
  ]

  -- What a thread does beside this act, where the act does not count.
  uncounted :
      (f : List (Act T) → List T) (a : Act T) (j : ℕ)
      → m.to_do i ≡ a ∷ acts
      → ((i == j) ≡ true → f (a ∷ acts) ≡ f acts)
      → f (set_to_do m.to_do i acts j) ≡ f (m.to_do j)
  uncounted f a j t h =
      after_turn (λ l. f l ≡ f (m.to_do j)) j
        (λ e. sym (h e) ∙ ap f (sym t) ∙ ap (λ k. f (m.to_do k)) ((nat_beq_iff i j).0 e))
        (λ _. refl)

  module _ (owner : ℕ → ℕ) (left : ℕ → ℕ → List T) (c : ℕ) (v : T)
      (t : m.to_do i ≡ sends c v ∷ acts) where
    abbrev sent_machine : Machine T
    sent_machine = record {
      to_do = set_to_do m.to_do i acts;
      queued = set_queued m.queued c i (m.queued c i ++ v ∷ []);
    }

    wanted_same : (d j : ℕ) → wanted owner sent_machine d j ≡ wanted owner m d j
    wanted_same d j = uncounted (received_of d j) (sends c v) (owner d) t (λ _. refl)

    supplied_same : (d j : ℕ) → supplied sent_machine d j ≡ supplied m d j
    supplied_same d j = elim (Bool-cases (i == j)) [
      | inr f ↦ rw f (ground arith)
      | inl e ↦ rw e (
          let same : i ≡ j = (nat_beq_iff i j).0 e in
          let counted : (b : Bool)
              → (c == d) ≡ b
              → (if b then v ∷ sent_to d acts else sent_to d acts) ≡ sent_to d (m.to_do j) =
            λ b g.
              ap (λ b. if b then v ∷ sent_to d acts else sent_to d acts) (sym g)
              ∙ ap (sent_to d) (sym t)
              ∙ ap (λ k. sent_to d (m.to_do k)) same in
          elim (Bool-cases (c == d)) [
            | inr g ↦ rw g (ap (λ l. m.queued d j ++ l) (counted false g))
            | inl g ↦ rw g (
                append_assoc (m.queued c i) (v ∷ []) (sent_to d acts)
                ∙ ap₂ (λ x y. m.queued x y ++ v ∷ sent_to d acts) ((nat_beq_iff c d).0 g) same
                ∙ ap (λ l. m.queued d j ++ l) (counted true g))
          ])
    ]

    pub IsFair-sends : IsFair owner left m → IsFair owner left sent_machine
    IsFair-sends fair = record {
      owned = IsOwned-after owner (sends c v) (λ h. h) t fair.owned;
      conserved = λ d j.
          supplied_same d j ∙ fair.conserved d j ∙ ap (λ l. l ++ left d j) (sym (wanted_same d j));
    }

    pub IsFair-sends_back : IsFair owner left sent_machine → IsFair owner left m
    IsFair-sends_back fair = record {
      owned = IsOwned-before owner (sends c v) (λ h. h) t fair.owned;
      conserved = λ d j.
          sym (supplied_same d j) ∙ fair.conserved d j ∙ ap (λ l. l ++ left d j) (wanted_same d j);
    }

  module _ (owner : ℕ → ℕ) (left : ℕ → ℕ → List T) (c j : ℕ) (v u : T) (l : List T)
      (t : m.to_do i ≡ receives c j v ∷ acts) (e : m.queued c j ≡ u ∷ l) where
    abbrev received_machine : Machine T
    received_machine = record {
      to_do = set_to_do m.to_do i acts;
      queued = set_queued m.queued c j l;
    }

    here :
        owner c ≡ i
        → (supplied m c j ≡ u ∷ supplied received_machine c j)
          × (wanted owner m c j ≡ v ∷ wanted owner received_machine c j)
    here own =
        let sent = uncounted (sent_to c) (receives c j v) j t (λ _. refl) in
        (
          ap₂ (λ x y. x ++ y) e (sym sent)
              ∙ rw ((nat_beq_iff c c).1 refl, (nat_beq_iff j j).1 refl) refl,
          ap (λ k. received_of c j (m.to_do k)) own
              ∙ ap (received_of c j) t
              ∙ rw
                  (
                    (nat_beq_iff c c).1 refl,
                    (nat_beq_iff j j).1 refl,
                    (nat_beq_iff i (owner c)).1 (sym own),
                  )
                  refl,
        )

    -- One message less waits and is wanted, at one channel and sender.
    taken :
        owner c ≡ i
        → (d k : ℕ)
        → ((supplied received_machine d k ≡ supplied m d k)
            × (wanted owner received_machine d k ≡ wanted owner m d k))
          ⊎ ((supplied m d k ≡ u ∷ supplied received_machine d k)
              × (wanted owner m d k ≡ v ∷ wanted owner received_machine d k))
    taken own d k =
        let sent = uncounted (sent_to d) (receives c j v) k t (λ _. refl) in
        let unseen : ((c == d) ≡ false) ⊎ ((j == k) ≡ false)
            → received_of d k (receives c j v ∷ acts) ≡ received_of d k acts =
          λ h. ground (arith, h) in
        let others : ((c == d) ≡ false) ⊎ ((j == k) ≡ false)
            → (supplied received_machine d k ≡ supplied m d k)
              × (wanted owner received_machine d k ≡ wanted owner m d k) =
          λ h. (
            ap₂ (λ x y. x ++ y) (ground (arith, h)) sent,
            uncounted (received_of d k) (receives c j v) (owner d) t (λ _. unseen h),
          ) in
        elim (Bool-cases (c == d)) [
          | inr f ↦ inl (others (inl f))
          | inl f ↦ elim (Bool-cases (j == k)) [
            | inr g ↦ inl (others (inr g))
            | inl g ↦ inr (
                subst
                  (λ d.
                    (supplied m d k ≡ u ∷ supplied received_machine d k)
                    × (wanted owner m d k ≡ v ∷ wanted owner received_machine d k))
                  ((nat_beq_iff c d).0 f)
                  (subst
                    (λ k.
                      (supplied m c k ≡ u ∷ supplied received_machine c k)
                      × (wanted owner m c k ≡ v ∷ wanted owner received_machine c k))
                    ((nat_beq_iff j k).0 g) (here own)))
          ]
        ]

    -- The message that waits in front is the one that the thread receives next.
    pub head_is_next : IsFair owner left m → u ≡ v
    head_is_next fair =
        let (front, next) = here (subst (IsOwned owner i) t (fair.owned i)).0 in
        let equal : u ∷ supplied received_machine c j
            ≡ v ∷ (wanted owner received_machine c j ++ left c j) =
          sym front ∙ fair.conserved c j ∙ ap (λ l. l ++ left c j) next in
        ground (arith, equal)

    pub IsFair-receives : IsFair owner left m → IsFair owner left received_machine
    IsFair-receives fair = record {
      owned = IsOwned-after owner (receives c j v) (λ h. h.1) t fair.owned;
      conserved = λ d k. elim (taken (subst (IsOwned owner i) t (fair.owned i)).0 d k) [
        | inl (s, r) ↦ s ∙ fair.conserved d k ∙ ap (λ l. l ++ left d k) (sym r)
        | inr (s, r) ↦
            let equal : u ∷ supplied received_machine d k
                ≡ v ∷ (wanted owner received_machine d k ++ left d k) =
              sym s ∙ fair.conserved d k ∙ ap (λ l. l ++ left d k) r in
            ground (arith, equal)
      ];
    }

    pub IsFair-receives_back :
        owner c ≡ i → u ≡ v → IsFair owner left received_machine → IsFair owner left m
    IsFair-receives_back own same fair = record {
      owned = IsOwned-before owner (receives c j v) (λ h. (own, h)) t fair.owned;
      conserved = λ d k. elim (taken own d k) [
        | inl (s, r) ↦ sym s ∙ fair.conserved d k ∙ ap (λ l. l ++ left d k) r
        | inr (s, r) ↦
            s ∙ ap₂ (λ x l. x ∷ l) same (fair.conserved d k) ∙ ap (λ l. l ++ left d k) (sym r)
      ];
    }
