-- ===== src/System/Views.antt =====
-- The machine that a recorded system looks like, before and after a call.
use rr_channel.Prelude.{
  ℕ, ◌≡◌, refl, sym, ap, ap₂, ◌∙◌, inl, inr, false, none, some, List, [], ◌∷◌, ◌++◌, subst, ◌==◌,
  nat_eq, nat_beq_iff, if◌then◌else◌, Bool-cases,
}
use mathlib.Core.Path.{fun_ext}
use mathlib.Core.List.{append-nil}
use rr_channel.DetThread.Id.{DetThreadId, id_eq}
use rr_channel.World.{World}
use rr_channel.Desync.{DetMessage}
use rr_channel.Rr.Pending.{from}
use rr_channel.Channel.{RealReceiver}
use rr_channel.Crossbeam.{ChannelKind}
use rr_channel.Crossbeam.Fifo.{IsFifoChannel, kind_arrivals}
use rr_channel.System.{Program, System, after_call}
use rr_channel.System.Machine.{
  Act, sends, receives, Machine, set_to_do, set_queued, set_to_do_again, turn_with, IsFair,
}
use rr_channel.System.Fair.{IsFair-sends_back, IsFair-receives_back}
use rr_channel.System.Turns.{from-append}

module _ {Q A C T : Type 0} {real : RealReceiver C (DetMessage T)} (fifo : IsFifoChannel real)
    (ids : ℕ → DetThreadId) where
  -- The machine whose channels hold the messages that have arrived in those of the system.
  abbrev pub machine_of : System Q A C T → (ℕ → List (Act T)) → Machine T
  machine_of s acts = record {
    to_do = acts;
    queued = λ c j. from (ids j) (kind_arrivals fifo (s.channels c).channel);
  }

module _ {Q A C T : Type 0} {real : RealReceiver C (DetMessage T)} (fifo : IsFifoChannel real)
    (ids : ℕ → DetThreadId) (distinct : (i j : ℕ) → (ids i == ids j) ≡ (i == j))
    (owner : ℕ → ℕ) where
  -- Writing the queue of one sender where it changed.
  set_queued_lem :
      (s : System Q A C T) (i c x : ℕ) (w' : World Q) (p : Program T) (k' : ChannelKind A C)
      (l : List T)
      → from (ids x) (kind_arrivals fifo k') ≡ l
      → ((j : ℕ)
          → (x == j) ≡ false
          → from (ids j) (kind_arrivals fifo k')
            ≡ from (ids j) (kind_arrivals fifo (s.channels c).channel))
      → set_queued (machine_of fifo ids s (λ _. [])).queued c x l
        ≡ (machine_of fifo ids
            (after_call s i c w' p (record (s.channels c) { channel = k' }))
            (λ _. [])).queued
  set_queued_lem s i c x w' p k' l own others = fun_ext (λ d. fun_ext (λ j.
      elim (Bool-cases (c == d)) [
        | inr f ↦ rw f refl
        | inl f ↦ rw f (elim (Bool-cases (x == j)) [
          | inl g ↦
              rw g
                (sym own ∙ ap (λ j. from (ids j) (kind_arrivals fifo k')) ((nat_beq_iff x j).0 g))
          | inr g ↦ rw g (
              ap (λ d. from (ids j) (kind_arrivals fifo (s.channels d).channel))
                (sym ((nat_beq_iff c d).0 f))
              ∙ sym (others j g))
        ])
      ]))

  module _ (s : System Q A C T) (acts : ℕ → List (Act T)) (i c : ℕ) (v : T) (w' : World Q)
      (p : Program T) (k' : ChannelKind A C) where
    -- Before a send of thread `i`, and after the call.
    abbrev before_send : Machine T
    before_send = machine_of fifo ids s (set_to_do acts i (sends c v ∷ acts i))

    abbrev before_receive : ℕ → Machine T
    before_receive x = machine_of fifo ids s (set_to_do acts i (receives c x v ∷ acts i))

    abbrev pub after : Machine T
    after =
        machine_of fifo ids (after_call s i c w' p (record (s.channels c) { channel = k' })) acts

    machine-sends :
        kind_arrivals fifo k' ≡ kind_arrivals fifo (s.channels c).channel ++ (ids i, v) ∷ []
        → record {
          to_do = set_to_do before_send.to_do i (acts i);
          queued = set_queued before_send.queued c i (before_send.queued c i ++ v ∷ []);
        }
          ≡ after
    unfolding from
    machine-sends a =
        let queues : (j : ℕ)
            → from (ids j) (kind_arrivals fifo k')
              ≡ from (ids j) (kind_arrivals fifo (s.channels c).channel)
                ++ (if i == j then v ∷ [] else []) =
          λ j.
            ap (from (ids j)) a
            ∙ from-append (ids j) _ ((ids i, v) ∷ [])
            ∙ rw (distinct i j) refl in
        ap₂ (λ x y. record { to_do = x; queued = y }) (set_to_do_again acts i _)
          (set_queued_lem s i c i w' p k' _ (queues i ∙ rw ((nat_beq_iff i i).1 refl) refl)
            (λ j ne. queues j ∙ rw ne (append-nil _)))

    pub turn-sends :
        kind_arrivals fifo k' ≡ kind_arrivals fifo (s.channels c).channel ++ (ids i, v) ∷ []
        → turn_with before_send i (sends c v ∷ acts i) ≡ some after
    unfolding turn_with
    turn-sends a = ap some (machine-sends a)

    pub IsFair-before_send :
        (left : ℕ → ℕ → List T)
        → kind_arrivals fifo k' ≡ kind_arrivals fifo (s.channels c).channel ++ (ids i, v) ∷ []
        → IsFair owner left after
        → IsFair owner left before_send
    IsFair-before_send left a fair =
        IsFair-sends_back before_send i (acts i) owner left c v (rw ((nat_beq_iff i i).1 refl) refl)
          (subst (IsFair owner left) (sym (machine-sends a)) fair)

    module _ (x : ℕ) (ms : List (DetMessage T))
        (a : kind_arrivals fifo (s.channels c).channel ≡ (ids x, v) ∷ ms)
        (b : kind_arrivals fifo k' ≡ ms) where
      machine-receives :
          record {
            to_do = set_to_do (before_receive x).to_do i (acts i);
            queued = set_queued (before_receive x).queued c x (from (ids x) ms);
          }
          ≡ after
      unfolding from
      machine-receives =
          let queues : (j : ℕ)
              → from (ids j) (kind_arrivals fifo (s.channels c).channel)
                ≡ (if x == j then v ∷ from (ids j) ms else from (ids j) ms) =
            λ j. ap (from (ids j)) a ∙ rw (distinct x j) refl in
          ap₂ (λ x y. record { to_do = x; queued = y }) (set_to_do_again acts i _)
            (set_queued_lem s i c x w' p k' _ (ap (from (ids x)) b)
              (λ j ne. ap (from (ids j)) b ∙ sym (queues j ∙ rw ne refl)))

      next : (before_receive x).queued c x ≡ v ∷ from (ids x) ms
      unfolding from
      next = ap (from (ids x)) a ∙ rw (distinct x x, (nat_beq_iff x x).1 refl) refl

      pub turn-receives : turn_with (before_receive x) i (receives c x v ∷ acts i) ≡ some after
      unfolding turn_with
      turn-receives =
          ap
            (λ z. elim z [
              | [] ↦ none
              | _ ∷ l ↦ some (record {
                to_do = set_to_do (before_receive x).to_do i (acts i);
                queued = set_queued (before_receive x).queued c x l;
              })
            ])
            next
          ∙ ap some machine-receives

      pub IsFair-before_receive :
          (left : ℕ → ℕ → List T)
          → owner c ≡ i
          → IsFair owner left after
          → IsFair owner left (before_receive x)
      IsFair-before_receive left own fair =
          IsFair-receives_back (before_receive x) i (acts i) owner left c x v v (from (ids x) ms)
            (rw ((nat_beq_iff i i).1 refl) refl) next own refl
            (subst (IsFair owner left) (sym machine-receives) fair)
