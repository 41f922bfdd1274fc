-- ===== src/System/Record.antt =====
-- A recording of a system under any schedule: what each thread did is what the schedule lets it do on
-- the abstract machine.
use rr_channel.Prelude.{
  ℕ, suc, length, ◌≡◌, refl, sym, ap, ◌∙◌, inl, inr, List, [], ◌∷◌, ◌++◌, ok, Result, Outcome,
  returns, panics, hangs, out_of_fuel, arith, subst, ◌==◌, nat_eq, nat_beq_iff, if◌then◌else◌,
  Bool-cases, List-cases,
}
use rr_channel.DetThread.Id.{DetThreadId, id_eq}
use rr_channel.Event.{RecvError}
use rr_channel.RecordLog.{RecordEntry, RecordMetadata, LogQueue}
use rr_channel.World.{record_mode}
use rr_channel.Desync.{DetMessage}
use rr_channel.Channel.{RealReceiver, RealSender}
use rr_channel.Crossbeam.{ChannelKind}
use rr_channel.Crossbeam.Fifo.{IsFifoChannel, IsMessages, kind_arrivals}
use rr_channel.System.{
  Program, stop, sending, receiving, System, update, world_of, after_call, take_turn, run_turns,
}
use rr_channel.System.Machine.{sends, receives}
use rr_channel.System.Follows.{Follows, entry_for, IsLinked}
use rr_channel.System.Recording.{
  Records-after, Owns, AreNamed, AreNamed-append, Records, kind_recv-message, kind_recv-hangs,
  recv-hangs, send-recorded, recv-recorded,
}
use rr_channel.System.Views.{turn-sends, IsFair-before_send, turn-receives, IsFair-before_receive}
use rr_channel.System.Trace.{Recorded, recorded_step, recorded_nothing, recorded_idle}

module _ {Q A C T : Type 0} ⦃q : LogQueue Q⦄ (timer : RealReceiver A T)
    (real : RealReceiver C (DetMessage T)) (real_send : RealSender (ChannelKind A C) (DetMessage T))
    (fifo : IsFifoChannel real) (linked : IsLinked fifo real_send) (fuel : ℕ)
    (ids : ℕ → DetThreadId) (md : ℕ → RecordMetadata)
    (distinct : (i j : ℕ) → (ids i == ids j) ≡ (i == j)) (owner : ℕ → ℕ) where
  -- A turn at a send, in front of what was recorded after it.
  step_sends :
      (s s₁ : System Q A C T) (written : ℕ → List RecordEntry) (n i c : ℕ) (v : T)
      (k : Result (Unit {0}) T → Program T)
      → s.programs i ≡ sending c v k
      → Records fifo ids s written
      → (s' : System Q A C T) × (take_turn timer real real_send fuel md record_mode i
            (sending c v k)
            s
          ≡ returns s')
        × Records fifo ids s' (update written i (written i ++ entry_for ids md (sends c v) ∷ []))
        × (s'.programs ≡ update s.programs i (k (ok tt)))
        × (Recorded fifo ids md distinct owner s' s₁
              (update written i (written i ++ entry_for ids md (sends c v) ∷ []))
              n
            → Recorded fifo ids md distinct owner s s₁ written (suc n))
  unfolding take_turn
  step_sends s s₁ written n i c v k is rec =
      let (k', p, carries, a) =
        linked.on_send (s.channels c).channel (ids i, v) (rec.carries_messages c) in
      let (w', e, l, same) =
        send-recorded timer real real_send fifo linked fuel ids md s i c v (written i) k' rec.synced
          (rec.logs i) p in
      let s' : System Q A C T =
        after_call s i c w' (k (ok tt)) (record (s.channels c) { channel = k' }) in
      (
        s',
        rw (e, take_turn) refl,
        Records-after fifo ids distinct s written i c w' (k (ok tt)) k' _ rec l same carries
            (subst (AreNamed ids) (sym a) (AreNamed-append ids _ i v (rec.from_threads c))),
        refl,
        λ next.
            recorded_step fifo ids md distinct owner s s' s₁ written n i (sends c v) next
              (turn-sends fifo ids distinct owner s next.acts i c v w' (k (ok tt)) k' a)
              (λ f. (
                k,
                is,
                subst
                    (λ b.
                      Follows (if b then k (ok tt) else s.programs i) (next.acts i) (s₁.programs i))
                    ((nat_beq_iff i i).1 refl) f,
              ))
              (λ j ne. rw ne refl)
              (λ left.
                IsFair-before_send fifo ids distinct owner s next.acts i c v w' (k (ok tt)) k' left
                  a),
      )

  -- A turn at a receive that returns, in front of what was recorded after it.
  step_receives :
      (s s₁ : System Q A C T) (written : ℕ → List RecordEntry) (n i c x : ℕ) (v : T)
      (ms : List (DetMessage T)) (k : Result T RecvError → Program T)
      → owner c ≡ i
      → s.programs i ≡ receiving c k
      → kind_arrivals fifo (s.channels c).channel ≡ (ids x, v) ∷ ms
      → AreNamed ids ms
      → Records fifo ids s written
      → (s' : System Q A C T) × (take_turn timer real real_send fuel md record_mode i
            (receiving c k)
            s
          ≡ returns s')
        × Records fifo ids s'
            (update written i (written i ++ entry_for ids md (receives c x v) ∷ []))
        × (s'.programs ≡ update s.programs i (k (ok v)))
        × (Recorded fifo ids md distinct owner s' s₁
              (update written i (written i ++ entry_for ids md (receives c x v) ∷ []))
              n
            → Recorded fifo ids md distinct owner s s₁ written (suc n))
  unfolding take_turn
  step_receives s s₁ written n i c x v ms k own is a named rec =
      let (k', p, carries, b) =
        kind_recv-message fifo linked timer (s.channels c).channel (ids x, v) ms
          (rec.carries_messages c) a in
      let (w', e, l, same) =
        recv-recorded timer real real_send fifo linked fuel ids md s i c (ids x, v) (written i) k'
          (rec.logs i) (p (world_of s i)) in
      let s' : System Q A C T =
        after_call s i c w' (k (ok v)) (record (s.channels c) { channel = k' }) in
      (
        s',
        rw (e, take_turn) refl,
        Records-after fifo ids distinct s written i c w' (k (ok v)) k' _ rec l same carries
            (subst (AreNamed ids) (sym b) named),
        refl,
        λ next.
            recorded_step fifo ids md distinct owner s s' s₁ written n i (receives c x v) next
              (turn-receives fifo ids distinct owner s next.acts i c v w' (k (ok v)) k' x ms a b)
              (λ f. (
                k,
                is,
                subst
                    (λ b.
                      Follows (if b then k (ok v) else s.programs i) (next.acts i) (s₁.programs i))
                    ((nat_beq_iff i i).1 refl) f,
              ))
              (λ j ne. rw ne refl)
              (λ left.
                IsFair-before_receive fifo ids distinct owner s next.acts i c v w' (k (ok v)) k' x
                  ms a b left own),
      )

  Owns-after :
      (s : System Q A C T) (programs : ℕ → Program T) (i : ℕ) (p : Program T)
      → programs ≡ update s.programs i p
      → Owns owner i p
      → ((j : ℕ) → Owns owner j (s.programs j))
      → (j : ℕ) → Owns owner j (programs j)
  Owns-after s programs i p e own owns j = rw e (elim (Bool-cases (i == j)) [
    | inl t ↦ rw t (subst (λ j. Owns owner j p) ((nat_beq_iff i j).0 t) own)
    | inr f ↦ rw f (owns j)
  ])

  -- A recorded turn at a receive waits for ever while the channel is empty.
  turn-hangs :
      (s : System Q A C T) (i c : ℕ) (k : Result T RecvError → Program T)
      → IsMessages (s.channels c).channel
      → kind_arrivals fifo (s.channels c).channel ≡ []
      → take_turn timer real real_send fuel md record_mode i (receiving c k) s ≡ hangs
  unfolding take_turn
  turn-hangs s i c k carries a =
      let e =
        recv-hangs timer real real_send fifo linked fuel ids md s i c
          (kind_recv-hangs fifo linked timer (s.channels c).channel (world_of s i) carries a) in
      rw (e, take_turn) refl

  -- What follows a turn.
  abbrev go_on : List ℕ → Outcome (System Q A C T) → Outcome (System Q A C T)
  go_on turns o = elim o [
    | returns s ↦ run_turns timer real real_send fuel md record_mode turns s
    | panics ↦ panics
    | hangs ↦ hangs
    | out_of_fuel ↦ out_of_fuel
  ]

  -- The rest of a schedule is recorded, from any system.
  abbrev Recordable : List ℕ → System Q A C T → Type 0
  Recordable turns s₁ =
      (s : System Q A C T) (written : ℕ → List RecordEntry)
      → Records fifo ids s written
      → ((j : ℕ) → Owns owner j (s.programs j))
      → run_turns timer real real_send fuel md record_mode turns s ≡ returns s₁
      → Recorded fifo ids md distinct owner s s₁ written (length turns)

  step :
      (s s₁ : System Q A C T) (written : ℕ → List RecordEntry) (turns : List ℕ) (i : ℕ)
      (p : Program T)
      → s.programs i ≡ p
      → Owns owner i p
      → Records fifo ids s written
      → ((j : ℕ) → Owns owner j (s.programs j))
      → go_on turns (take_turn timer real real_send fuel md record_mode i p s) ≡ returns s₁
      → Recordable turns s₁
      → Recorded fifo ids md distinct owner s s₁ written (suc (length turns))
  unfolding take_turn
  step s s₁ written turns i stop is own rec owns ran later =
      recorded_idle fifo ids md distinct owner s s₁ written (length turns)
        (later s written rec owns ran)
  step s s₁ written turns i (sending c v k) is own rec owns ran later =
      let (s', e, rec', ps, back) = step_sends s s₁ written (length turns) i c v k is rec in
      back (
        later s' _ rec' (Owns-after s s'.programs i (k (ok tt)) ps (own (ok tt)) owns)
          (ap (go_on turns) (sym e) ∙ ran))
  step s s₁ written turns i (receiving c k) is (own, o) rec owns ran later =
      elim (List-cases (kind_arrivals fifo (s.channels c).channel)) [
        | inl z ↦
            let stuck = turn-hangs s i c k (rec.carries_messages c) z in
            let never : hangs ≡ returns s₁ = ap (go_on turns) (sym stuck) ∙ ran in
            ground (arith, never)
        | inr ((x, v), ms, a) ↦
            let ((j, x_is), named) = subst (AreNamed ids) a (rec.from_threads c) in
            let (s', e, rec', ps, back) =
              step_receives s s₁ written (length turns) i c j v ms k own is
                (a ∙ ap (λ x. (x, v) ∷ ms) x_is) named rec in
            back (
              later s' _ rec' (Owns-after s s'.programs i (k (ok v)) ps (o (ok v)) owns)
                (ap (go_on turns) (sym e) ∙ ran))
      ]

  -- A system whose threads have their logs open and share crossbeam channels, each received from by
  -- its owner only, is recorded under any order of turns. If that run returns, there are acts of
  -- each thread, sends and receives with their messages, such that the program of the thread leads
  -- along them to where the run left it, its log holds their entries after those it held before, in
  -- order, the abstract machine can make them in some order of turns, no more than were taken, and
  -- then holds the messages that are left in the channels, and the owner of a channel receives the
  -- messages of each sender in the order of their sending.
  pub run_turns-Recorded :
      (turns : List ℕ) (s s₁ : System Q A C T) (written : ℕ → List RecordEntry)
      → Records fifo ids s written
      → ((j : ℕ) → Owns owner j (s.programs j))
      → run_turns timer real real_send fuel md record_mode turns s ≡ returns s₁
      → Recorded fifo ids md distinct owner s s₁ written (length turns)
  unfolding run_turns
  run_turns-Recorded [] s s₁ written rec owns ran =
      let same : s ≡ s₁ = ground (arith, ran) in
      subst (λ x. Recorded fifo ids md distinct owner s x written 0) same
        (recorded_nothing fifo ids md distinct owner s written rec)
  run_turns-Recorded (i ∷ turns) s s₁ written rec owns ran =
      step s s₁ written turns i (s.programs i) refl (owns i) rec owns ran
        (λ s' written' rec' owns' ran'. run_turns-Recorded turns s' s₁ written' rec' owns' ran')
