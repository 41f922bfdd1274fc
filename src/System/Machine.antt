-- ===== src/System/Machine.antt =====
-- The abstract view of a replay: what each thread has still to do, and the messages of each sender
-- that wait in each channel.
use rr_channel.Prelude.{
  ℕ, ◌≡◌, refl, ap, ◌∙◌, Option, none, some, List, [], ◌∷◌, ◌++◌, nat_eq, ◌==◌, nat_beq_iff,
  if◌then◌else◌, Bool-cases, inl, inr,
}
use mathlib.Core.Path.{fun_ext}

-- What a thread did: it sent a message to a channel, or received one of a thread from a channel.
pub data Act (T : Type 0) : Type 0 where
  sends : ℕ → T → Act T
  receives : ℕ → ℕ → T → Act T

-- Channels and threads have numbers.
pub record Machine (T : Type 0) : Type 0 where
  pub to_do : ℕ → List (Act T)
  pub queued : ℕ → ℕ → List T

module _ {T : Type 0} where
  -- The messages that are sent to a channel, in order.
  abbrev pub sent_to : ℕ → List (Act T) → List T
  sent_to c [] = []
  sent_to c (sends d v ∷ acts) = if d == c then v ∷ sent_to c acts else sent_to c acts
  sent_to c (receives d j v ∷ acts) = sent_to c acts

  -- The messages of thread `j` that are received from a channel, in order.
  abbrev pub received_of : ℕ → ℕ → List (Act T) → List T
  received_of c j [] = []
  received_of c j (sends d v ∷ acts) = received_of c j acts
  received_of c j (receives d i v ∷ acts) =
      if d == c
      then if i == j then v ∷ received_of c j acts else received_of c j acts
      else received_of c j acts

  abbrev pub set_to_do : (ℕ → List (Act T)) → ℕ → List (Act T) → ℕ → List (Act T)
  set_to_do f i acts j = if i == j then acts else f j

  abbrev pub set_queued : (ℕ → ℕ → List T) → ℕ → ℕ → List T → ℕ → ℕ → List T
  set_queued f c i l d j = if c == d then if i == j then l else f d j else f d j

  -- Writing back what a thread has to do.
  pub set_to_do_again :
      (f : ℕ → List (Act T)) (i : ℕ) (l : List (Act T)) → set_to_do (set_to_do f i l) i (f i) ≡ f
  set_to_do_again f i l = fun_ext (λ j. elim (Bool-cases (i == j)) [
    | inl t ↦ rw t (ap f ((nat_beq_iff i j).0 t))
    | inr n ↦ rw n refl
  ])

  unfoldable pub turn_with : Machine T → ℕ → List (Act T) → Option (Machine T)
  turn_with m i [] = none
  turn_with m i (sends c v ∷ acts) = some (record {
    to_do = set_to_do m.to_do i acts;
    queued = set_queued m.queued c i (m.queued c i ++ v ∷ []);
  })
  turn_with m i (receives c j v ∷ acts) = elim (m.queued c j) [
    | [] ↦ none
    | _ ∷ l ↦ some (record { to_do = set_to_do m.to_do i acts; queued = set_queued m.queued c j l })
  ]

  -- A turn of thread `i`: there is none where it has nothing to do, or waits for a message that was
  -- not sent yet.
  unfoldable pub turn : ℕ → Machine T → Option (Machine T)
  unfolding turn_with
  turn i m = turn_with m i (m.to_do i)

  unfoldable pub play : List ℕ → Machine T → Option (Machine T)
  play [] m = some m
  play (i ∷ turns) m = elim (turn i m) [ none ↦ none | some m' ↦ play turns m' ]

  -- The first of several turns.
  pub play-turn :
      (turns : List ℕ) (m m₁ m' : Machine T) (i : ℕ) (acts : List (Act T))
      → m.to_do i ≡ acts
      → turn_with m i acts ≡ some m₁
      → play turns m₁ ≡ some m'
      → play (i ∷ turns) m ≡ some m'
  unfolding play turn
  play-turn turns m m₁ m' i acts t e p =
      ap (λ o. elim o [ none ↦ none | some m' ↦ play turns m' ]) (ap (turn_with m i) t ∙ e) ∙ p

  -- Only the owner of a channel receives from it.
  abbrev pub IsOwned : (ℕ → ℕ) → ℕ → List (Act T) → Type 0
  IsOwned owner i [] = Unit
  IsOwned owner i (sends c v ∷ acts) = IsOwned owner i acts
  IsOwned owner i (receives c j v ∷ acts) = (owner c ≡ i) × IsOwned owner i acts

  -- What waits in a channel and what is still to be sent to it is received, in order, but for a rest
  -- that never is.
  pub record IsFair (owner : ℕ → ℕ) (left : ℕ → ℕ → List T) (m : Machine T) : Type 0 where
    pub owned : (i : ℕ) → IsOwned owner i (m.to_do i)
    pub conserved :
        (c j : ℕ)
        → m.queued c j ++ sent_to c (m.to_do j) ≡ received_of c j (m.to_do (owner c)) ++ left c j
