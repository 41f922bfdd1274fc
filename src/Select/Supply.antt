-- ===== src/Select/Supply.antt =====
-- crossbeam_select.rs: what the receivers of a replayed `Select` have to hold.
use rr_channel.Prelude.{
  ℕ, ◌≤◌, ◌≡◌, refl, sym, subst, ◌∙◌, true, false, List, ◌∷◌, ◌++◌, Result, ok, returns, arith,
  nat_eq, length, ◌==◌, Bool-cases, inl, inr, nat_beq_iff, if◌then◌else◌,
}
use rr_channel.DetThread.Id.{DetThreadId, id_eq, id_beq_iff}
use rr_channel.Event.{RecvError, variant_eq, channel_id_eq}
use rr_channel.World.{World}
use rr_channel.Desync.{DetMessage, Endpoint}
use rr_channel.Rr.Pending.{from, taken, missing, recv_expected_message-Receives}
use rr_channel.Channel.{RealReceiver}
use rr_channel.Crossbeam.{ChannelKind, Receiver}
use rr_channel.Crossbeam.Fifo.{IsFifoChannel, IsMessages, kind_arrivals, poll_fifo}
use rr_channel.Crossbeam.Polling.{present, absent, closed, poll_entry-Polls}
use rr_channel.Crossbeam.Receive.{poll_entry, replay_recv}
use rr_channel.Crossbeam.Replay.{waiting, IsSupplied, after_taken}
use rr_channel.Select.{Receivers, assign}
use rr_channel.Select.Rounds.{Answer, deliver, delivered_to}

module _ {Q A C T : Type 0} (timer : RealReceiver A T) (real : RealReceiver C (DetMessage T))
    (fifo : IsFifoChannel real) (fuel : ℕ) where
  abbrev pub Found :
      DetThreadId
      → T
      → List (DetMessage T)
      → (DetThreadId → List T)
      → Endpoint (ChannelKind A C) T
      → World Q
      → World Q
      → Type 0
  Found s m ms later r w v =
      (r₁ : Endpoint (ChannelKind A C) T) × (r₂ : Endpoint (ChannelKind A C) T) × (poll_entry timer
          real fuel s r w
        ≡ returns ((true, r₁), w))
      × (replay_recv timer real fuel s r₁ v ≡ returns ((ok m, r₂), v))
      × IsSupplied fifo fuel r₂ ms later

  recv_present :
      (s : DetThreadId) (m : T) (ms : List (DetMessage T)) (later : DetThreadId → List T)
      (r r₁ : Endpoint (ChannelKind A C) T) (w v : World Q)
      → IsSupplied fifo fuel r ((s, m) ∷ ms) later
      → waiting fifo r s ≡ m ∷ from s ms ++ later s
      → poll_entry timer real fuel s r w ≡ returns ((true, r₁), w)
      → IsMessages r₁.channel
      → length (kind_arrivals fifo r₁.channel) ≤ length (kind_arrivals fifo r.channel)
      → ((i : DetThreadId) → waiting fifo r₁ i ≡ waiting fifo r i)
      → Found s m ms later r w v
  unfolding replay_recv
  recv_present s m ms later r r₁ w v supply have o ready n same =
      elim (recv_expected_message-Receives (poll_fifo timer real fifo) fuel s r₁ v ready
        (omega (arith, supply.within_fuel))) [
          | taken m' r₂ o' ready' n' mine others ↦
              let heads : m' ∷ waiting fifo r₂ s ≡ m ∷ from s ms ++ later s =
                sym mine ∙ same s ∙ have in
              (
                r₁,
                r₂,
                o,
                rw o' (ground (arith, heads)),
                record {
                  carries_messages = ready';
                  within_fuel = omega (arith, supply.within_fuel);
                  per_sender = λ i.
                      after_taken fifo fuel r r₂ s i m ms later supply (ground (arith, heads))
                        (λ j ne. others j ne ∙ same j);
                },
              )
          | missing e r₂ o' ready' n' none_left others ↦ cc (sym have ∙ sym (same s) ∙ none_left)
        ]

  -- A poll for the next message finds it, and a receive from its sender takes it.
  pub poll_then_recv :
      (s : DetThreadId) (m : T) (ms : List (DetMessage T)) (later : DetThreadId → List T)
      (r : Endpoint (ChannelKind A C) T) (w v : World Q)
      → IsSupplied fifo fuel r ((s, m) ∷ ms) later
      → Found s m ms later r w v
  unfolding replay_recv from
  poll_then_recv s m ms later r w v supply =
      let have : waiting fifo r s ≡ m ∷ from s ms ++ later s =
        supply.per_sender s ∙ rw ((id_beq_iff s s).1 refl) refl in
      elim (poll_entry-Polls timer real fifo fuel s r w supply.carries_messages
        supply.within_fuel) [
          | present r₁ o q ready n same ↦
              recv_present s m ms later r r₁ w v supply have o ready n same
          | absent r₁ o none_left ready n same times_out ↦ cc (sym have ∙ none_left)
          | closed c' o none_left ends ↦ cc (sym have ∙ none_left)
        ]

pub assign_same :
    {A C T : Type 0} (rs : Receivers A C T) (p : ℕ) (r : Receiver A C T) → assign rs p r p ≡ r
assign_same rs p r = rw ((nat_beq_iff p p).1 refl)

-- The receiver `p` with the buffer and the channel of `r`.
abbrev pub with_endpoint :
    {A C T : Type 0} → Receivers A C T → ℕ → Endpoint (ChannelKind A C) T → Receivers A C T
with_endpoint rs p r = assign rs p (record (rs p) { endpoint = r })

-- The receivers after a poll of `p` that left it with `r₁`, and a receive that left it with `r₂`.
abbrev pub replayed_receivers :
    {A C T : Type 0}
    → Receivers A C T
    → ℕ
    → Endpoint (ChannelKind A C) T
    → Endpoint (ChannelKind A C) T
    → Receivers A C T
replayed_receivers rs p r₁ r₂ = assign (with_endpoint rs p r₁) p (record (rs p) { endpoint = r₂ })

-- Every receiver holds, sender by sender, its messages among the answers, and those of `later`.
abbrev pub Supplies :
    {A C T : Type 0} {real : RealReceiver C (DetMessage T)}
    → IsFifoChannel real
    → ℕ
    → Receivers A C T
    → List (Answer T)
    → (ℕ → DetThreadId → List T)
    → Type 0
Supplies fifo fuel rs answers later =
    (p : ℕ) → IsSupplied fifo fuel (rs p).endpoint (delivered_to p answers) (later p)

module _ {A C T : Type 0} {real : RealReceiver C (DetMessage T)} (fifo : IsFifoChannel real)
    (fuel p index : ℕ) (x : Result (DetMessage T) RecvError) (answers : List (Answer T))
    (rs : Receivers A C T) (later : ℕ → DetThreadId → List T)
    (supply : Supplies fifo fuel rs
      (record { index = index; receiver = p; outcome = x } ∷ answers)
      later) where
  pub of_receiver :
      IsSupplied fifo fuel (rs p).endpoint (deliver x (delivered_to p answers)) (later p)
  of_receiver =
      subst
        (λ b.
          IsSupplied fifo fuel (rs p).endpoint
            (if b then deliver x (delivered_to p answers) else delivered_to p answers) (later p))
        ((nat_beq_iff p p).1 refl) (supply p)

  of_others :
      (i : ℕ)
      → (p == i) ≡ false
      → IsSupplied fifo fuel (rs i).endpoint (delivered_to i answers) (later i)
  of_others i h =
      subst
        (λ b.
          IsSupplied fifo fuel (rs i).endpoint
            (if b then deliver x (delivered_to i answers) else delivered_to i answers) (later i))
        h (supply i)

  pub after_round :
      (rs' : Receivers A C T) (r : Receiver A C T)
      → IsSupplied fifo fuel r.endpoint (delivered_to p answers) (later p)
      → ((i : ℕ) → (p == i) ≡ false → rs' i ≡ rs i)
      → Supplies fifo fuel (assign rs' p r) answers later
  after_round rs' r here same i = elim (Bool-cases (p == i)) [
    | inl h ↦ rw h (
        subst (λ j. IsSupplied fifo fuel r.endpoint (delivered_to j answers) (later j))
          ((nat_beq_iff p i).0 h) here)
    | inr h ↦ rw h (
        subst (λ r. IsSupplied fifo fuel r.endpoint (delivered_to i answers) (later i))
          (sym (same i h)) (of_others i h))
  ]
