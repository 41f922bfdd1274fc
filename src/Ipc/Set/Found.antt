-- ===== src/Ipc/Set/Found.antt =====
-- ipc_channel/mod.rs: a replayed event of a receiver set, where its message has been sent.
use rr_channel.Prelude.{
  ℕ, zero, suc, ◌<◌, ◌≡◌, refl, sym, ◌∙◌, false, some, inl, inr, List, [], ◌∷◌, ◌++◌, Result, ok,
  Outcome, returns, ◌>>=◌, ◌==◌, if◌then◌else◌, nat_eq, nat_beq_iff, Bool-cases, length, arith,
  get_elem?, set,
}
use rr_channel.DetThread.Id.{DetThreadId, id_eq, id_beq_iff}
use rr_channel.Error.{DesyncError}
use rr_channel.Event.{IpcSelectEvent}
use rr_channel.World.{World}
use rr_channel.Desync.{Endpoint}
use rr_channel.Rr.{recv_expected_message}
use rr_channel.Rr.Pending.{IsFifo, pending, taken, missing, recv_expected_message-Receives}
use rr_channel.Ipc.{OpaqueIpcReceiver}
use rr_channel.Ipc.Set.{IpcSelectionResult, message_received, RealSet, IpcReceiverSet}
use rr_channel.Ipc.Set.Entry.{Buffer, Step, replay_select_event}
use rr_channel.Ipc.Set.Refine.{
  held, set_poll, IsUpdate, Refines, found, timed_out, closed, panicked, ran_out,
  do_replay_recv_for_entry-Refines,
}

-- A message that a selection found: the index of the receiver, the sender and the message.
pub record Found (M : Type 0) : Type 0 where
  pub index : ℕ
  pub sender : DetThreadId
  pub msg : M

abbrev pub result_of : {M : Type 0} → Found M → IpcSelectionResult M
result_of f = message_received f.index f.msg

abbrev pub event_of : {M : Type 0} → Found M → IpcSelectEvent
event_of f = IpcSelectEvent.message_received f.index f.sender

-- The messages of a sender to the receiver at an index, in order.
abbrev pub to_receiver : {M : Type 0} → ℕ → DetThreadId → List (Found M) → List M
to_receiver i s [] = []
to_receiver i s (f ∷ fs) =
    if f.index == i
    then if f.sender == s then f.msg ∷ to_receiver i s fs else to_receiver i s fs
    else to_receiver i s fs

-- What the shared code would see of the receiver at an index.
abbrev pub endpoint_at : {K M : Type 0} → Buffer M → ℕ → OpaqueIpcReceiver K → Endpoint K M
endpoint_at buffer i x = record { buffer = held buffer i; channel = x.opaque_receiver }

module _ {K M : Type 0} (index : ℕ) (buffer : Buffer M) (receiver : OpaqueIpcReceiver K) where
  -- Where the shared code finds a message, the set does.
  Refines-found :
      {Q : Type 0} (o : Outcome ((Result M DesyncError × Endpoint K M) × World Q))
      (o' : Outcome (Step K M × World Q)) (v : M) (r : Endpoint K M) (w : World Q)
      → Refines index buffer receiver o o'
      → o ≡ returns ((ok v, r), w)
      → (buffer' : Buffer M) × (o'
          ≡ returns (
            (
              ok (message_received index v),
              buffer',
              record receiver { opaque_receiver = r.channel },
            ),
            w,
          ))
        × IsUpdate buffer index r.buffer buffer'
  Refines-found o o' v r w (found msg r₁ w₁ buffer' p p' u) e =
      let same_msg : msg ≡ v = ground (arith, p, e) in
      let same_r : r₁ ≡ r = ground (arith, p, e) in
      let same_w : w₁ ≡ w = ground (arith, p, e) in
      (buffer', rw (← same_msg, ← same_r, ← same_w) p', rw (← same_r) u)
  Refines-found o o' v r w (timed_out r₁ w₁ buffer' p p' u) e = absurd (ground (arith, p, e))
  Refines-found o o' v r w (closed r₁ w₁ buffer' p p' u) e = absurd (ground (arith, p, e))
  Refines-found o o' v r w (panicked p p') e = absurd (ground (arith, p, e))
  Refines-found o o' v r w (ran_out p p') e = absurd (ground (arith, p, e))

get_elem?-set_same :
    {A : Type 0} (xs : List A) (i : ℕ) (x y : A)
    → get_elem? xs i ≡ some x
    → get_elem? (set xs i y) i ≡ some y
get_elem?-set_same [] i x y h = cc
get_elem?-set_same (z ∷ xs) zero x y h = refl
get_elem?-set_same (z ∷ xs) (suc i) x y h = get_elem?-set_same xs i x y h

get_elem?-set_other :
    {A : Type 0} (xs : List A) (i j : ℕ) (y : A)
    → (i == j) ≡ false
    → get_elem? (set xs i y) j ≡ get_elem? xs j
get_elem?-set_other [] i j y h = refl
get_elem?-set_other (z ∷ xs) zero zero y h = absurd (ground (arith, nat_beq_iff 0 0, h))
get_elem?-set_other (z ∷ xs) zero (suc j) y h = refl
get_elem?-set_other (z ∷ xs) (suc i) zero y h = refl
get_elem?-set_other (z ∷ xs) (suc i) (suc j) y h =
    get_elem?-set_other xs i j y (ground (arith, nat_beq_iff i j, nat_beq_iff (suc i) (suc j), h))

module _ {Q R K D M X F : Type 0} (real : RealSet R K D M X F)
    (fifo : IsFifo {Q = Q} (set_poll real)) (fuel : ℕ) where
  -- The receiver at index `i` has yet to hand out these messages, sender by sender.
  pub record IsStocked (buffer : Buffer M) (i : ℕ) (x : OpaqueIpcReceiver K)
      (waiting : DetThreadId → List M) : Type 0 where
    pub carries_messages : fifo.IsReady x.opaque_receiver
    pub within_fuel : length (fifo.arrivals x.opaque_receiver) < fuel
    pub per_sender : (s : DetThreadId) → pending fifo (endpoint_at buffer i x) s ≡ waiting s

  -- So it is for the receivers of a set and the messages found, then those of `later`; every message
  -- is for a receiver of the set.
  abbrev pub Stocked : IpcReceiverSet R K D M → List (Found M) → (ℕ → DetThreadId → List M) → Type 0
  Stocked rs fs later =
      (i : ℕ) (x : OpaqueIpcReceiver K)
      → get_elem? rs.receivers i ≡ some x
      → IsStocked rs.buffer i x (λ s. to_receiver i s fs ++ later i s)

  -- The first message is taken from the endpoint of its receiver.
  head_received :
      (f : Found M) (fs : List (Found M)) (r : Endpoint K M) (later : DetThreadId → List M)
      (w : World Q)
      → fifo.IsReady r.channel
      → length (fifo.arrivals r.channel) < fuel
      → ((s : DetThreadId) → pending fifo r s ≡ to_receiver f.index s (f ∷ fs) ++ later s)
      → (r' : Endpoint K M) × (recv_expected_message (set_poll real) fuel f.sender r w
          ≡ returns ((ok f.msg, r'), w))
        × fifo.IsReady r'.channel
        × (length (fifo.arrivals r'.channel) < fuel)
        × ((s : DetThreadId) → pending fifo r' s ≡ to_receiver f.index s fs ++ later s)
  head_received f fs r later w d lt h =
      let own : pending fifo r f.sender
          ≡ f.msg ∷ (to_receiver f.index f.sender fs ++ later f.sender) =
        ground (arith, h f.sender, nat_beq_iff f.index f.index, id_beq_iff f.sender f.sender) in
      elim (recv_expected_message-Receives fifo fuel f.sender r w d lt) [
        | taken v r' p d' n q others ↦ (
          r',
          ground (arith, p, q, own),
          d',
          omega arith,
          λ s. elim (Bool-cases (f.sender == s)) [
            | inl e ↦ ground (arith, id_beq_iff f.sender s, q, own)
            | inr e ↦ ground (arith, others s e, h s, nat_beq_iff f.index f.index)
          ],
        )
        | missing e r' p d' n q others ↦ cc (sym q ∙ own)
      ]

  -- The set after a message of the receiver `x` at an index.
  abbrev advanced :
      IpcReceiverSet R K D M → ℕ → Buffer M → OpaqueIpcReceiver K → K → IpcReceiverSet R K D M
  advanced rs i buffer' x k = record rs {
    buffer = buffer';
    receivers = set rs.receivers i (record x { opaque_receiver = k });
  }

  Stocked-advanced :
      (f : Found M) (fs : List (Found M)) (rs : IpcReceiverSet R K D M) (x : OpaqueIpcReceiver K)
      (buffer' : Buffer M) (r' : Endpoint K M) (later : ℕ → DetThreadId → List M)
      → get_elem? rs.receivers f.index ≡ some x
      → Stocked rs (f ∷ fs) later
      → IsUpdate rs.buffer f.index r'.buffer buffer'
      → fifo.IsReady r'.channel
      → length (fifo.arrivals r'.channel) < fuel
      → ((s : DetThreadId) → pending fifo r' s ≡ to_receiver f.index s fs ++ later f.index s)
      → Stocked (advanced rs f.index buffer' x r'.channel) fs later
  Stocked-advanced f fs rs x buffer' r' later here stock u d lt h i y e =
      elim (Bool-cases (f.index == i)) [
        | inl t ↦
            let same : f.index ≡ i = (nat_beq_iff f.index i).0 t in
            let b : held buffer' i ≡ r'.buffer = u i ∙ rw t refl in
            let y_is : record x { opaque_receiver = r'.channel } ≡ y = ground (
              arith,
              get_elem?-set_same rs.receivers f.index x (record x { opaque_receiver = r'.channel })
                  here,
              e,
              same,
            ) in
            rw (← y_is) (record {
              carries_messages = d;
              within_fuel = lt;
              per_sender = λ s. rw b (h s ∙ rw same refl);
            })
        | inr ne ↦
            let b : held buffer' i ≡ held rs.buffer i = u i ∙ rw ne refl in
            let old = stock i y (
              sym (
                get_elem?-set_other rs.receivers f.index i
                  (record x { opaque_receiver = r'.channel }) ne)
              ∙ e) in
            record {
              carries_messages = old.carries_messages;
              within_fuel = old.within_fuel;
              per_sender = λ s. rw b (old.per_sender s ∙ rw ne refl);
            }
      ]

  -- One event.
  pub replay_select_event-Found :
      (f : Found M) (fs : List (Found M)) (rs : IpcReceiverSet R K D M) (x : OpaqueIpcReceiver K)
      (later : ℕ → DetThreadId → List M) (w : World Q)
      → get_elem? rs.receivers f.index ≡ some x
      → Stocked rs (f ∷ fs) later
      → (buffer' : Buffer M) × (k : K) × (replay_select_event real fuel (event_of f) rs w
          ≡ returns ((ok (result_of f), advanced rs f.index buffer' x k), w))
        × Stocked (advanced rs f.index buffer' x k) fs later
  unfolding replay_select_event
  replay_select_event-Found f fs rs x later w here stock =
      let s = stock f.index x here in
      let (r', p, d, lt, h) =
        head_received f fs (endpoint_at rs.buffer f.index x) (later f.index) w s.carries_messages
          s.within_fuel s.per_sender in
      let (buffer', q, u) =
        Refines-found f.index rs.buffer x _ _ f.msg r' w
          (do_replay_recv_for_entry-Refines real f.index f.sender fuel rs.buffer x w) p in
      (
        buffer',
        r'.channel,
        rw (here, replay_select_event) (rw (q, ◌>>=◌) refl),
        Stocked-advanced f fs rs x buffer' r' later here stock u d lt h,
      )
