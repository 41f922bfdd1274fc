-- ===== src/Ipc/Set/Entry.antt =====
-- ipc_channel/mod.rs: how a replayed `IpcReceiverSet::select` finds one recorded event.
use rr_channel.Prelude.{
  ℕ, zero, suc, true, Option, none, some, [], Result, ok, err, out_of_fuel, pure, ◌>>=◌, ◌==◌,
  nat_eq, if◌then◌else◌, get_elem?, set,
}
use rr_channel.Prelude.Map.{Map, get, insert}
use rr_channel.Prelude.Map.Queues.{push_back, pop_front}
use rr_channel.DetThread.Id.{DetThreadId, id_eq}
use rr_channel.Event.{IpcSelectEvent}
use rr_channel.Error.{
  DesyncError, RecvErrorRr, missing_receiver, channel_closed_expected, channel_closed_unexpected,
}
use rr_channel.World.{Call, expect}
use rr_channel.Desync.{BufferedValues}
use rr_channel.Ipc.{OpaqueIpcReceiver}
use rr_channel.Ipc.Receive.{attempts, pause}
use rr_channel.Ipc.Set.{
  IpcSelectionResult, message_received, channel_closed, RealSet, IpcReceiverSet,
}

-- The buffer of a set: first by the index of a receiver, then by the sender.
abbrev pub Buffer : Type 0 → Type 0
Buffer M = Map ℕ (BufferedValues M)

-- `buffer.get_mut(&index).and_then(|m| m.get_mut(sender)).and_then(|e| e.pop_front())`
unfoldable pub pop_entry : {M : Type 0} → Buffer M → ℕ → DetThreadId → Option (M × Buffer M)
pop_entry buffer index sender = elim (get buffer index) [
  | none ↦ none
  | some m ↦ elim (pop_front m sender) [
    | none ↦ none
    | some (entry, m') ↦ some (entry, insert buffer index m')
  ]
]

-- `buffer.entry(index).or_insert_with(…).entry(det_id).or_insert_with(…).push_back(msg)`
unfoldable pub push_entry : {M : Type 0} → Buffer M → ℕ → DetThreadId → M → Buffer M
push_entry buffer index det_id msg = elim (get buffer index) [
  | none ↦ insert buffer index (push_back [] det_id msg)
  | some m ↦ insert buffer index (push_back m det_id msg)
]

-- The error of a replayed selection, with the event that was seen in place of the expected one.
abbrev pub Diverges : Type 0 → Type 0
Diverges M = DesyncError × Option (IpcSelectionResult M)

module _ {R K D M X F : Type 0} (real : RealSet R K D M X F) where
  -- The body of the loop of `rr_recv`.
  unless_closed : Result M X × K → (K → Result M RecvErrorRr × K) → Result M RecvErrorRr × K
  unless_closed (ok v, k) again = (ok v, k)
  unless_closed (err e, k) again =
      let later = again k in
      if real.channel_is_closed e then (err RecvErrorRr.disconnected, k) else later

  -- The loop of `rr_recv`.
  unfoldable pub recv_rounds : ℕ → K → Result M RecvErrorRr × K
  unfolding unless_closed
  recv_rounds zero k = (err RecvErrorRr.timeout, k)
  recv_rounds (suc n) k =
      unless_closed (real.try_recv k) (λ k'. recv_rounds n (real.sleep pause k'))

  unfoldable pub rr_recv : K → Result M RecvErrorRr × K
  rr_recv = recv_rounds attempts

-- What a replayed selection leaves: its answer, the buffer and the receiver.
abbrev pub Step : Type 0 → Type 0 → Type 0
Step K M = Result (IpcSelectionResult M) (Diverges M) × Buffer M × OpaqueIpcReceiver K

-- The arm of `ChannelClosed` in `replay_select_event`, after its `rr_recv`.
on_closed : {K M : Type 0} → ℕ → Result M RecvErrorRr → Buffer M → OpaqueIpcReceiver K → Step K M
on_closed index (err RecvErrorRr.disconnected) buffer receiver =
    (ok (channel_closed index), buffer, record receiver { closed = true })
on_closed index (err RecvErrorRr.timeout) buffer receiver =
    (err (DesyncError.timeout none, none), buffer, receiver)
on_closed index (ok val) buffer receiver =
    (err (channel_closed_expected, some (message_received index val)), buffer, receiver)

abbrev pub index_of : IpcSelectEvent → ℕ
index_of (IpcSelectEvent.message_received index _) = index
index_of (IpcSelectEvent.channel_closed index) = index

module _ {Q R K D M X F : Type 0} (real : RealSet R K D M X F) where
  -- `deserialize_id`, whose `expect` may panic.
  unfoldable pub deserialize_id : M → Call Q DetThreadId
  deserialize_id msg = expect (real.deserialize_id msg)

  -- A round of the loop of `do_replay_recv_for_entry`, after its `rr_recv`; `receiver` stands
  -- already behind what was received.
  unfoldable pub on_received :
      ℕ
      → DetThreadId
      → (Buffer M → OpaqueIpcReceiver K → Call Q (Step K M))
      → Result M RecvErrorRr
      → Buffer M
      → OpaqueIpcReceiver K
      → Call Q (Step K M)
  unfolding deserialize_id
  on_received index expected_sender again (err RecvErrorRr.disconnected) buffer receiver = pure (
    err (channel_closed_unexpected index, some (channel_closed index)),
    buffer,
    record receiver { closed = true },
  )
  on_received index expected_sender again (err RecvErrorRr.timeout) buffer receiver =
      pure (err (DesyncError.timeout none, none), buffer, receiver)
  on_received index expected_sender again (ok msg) buffer receiver = do
    det_id ← deserialize_id msg
    let later = again (push_entry buffer index det_id msg) receiver
    if det_id == expected_sender
        then pure (ok (message_received index msg), buffer, receiver)
        else later

  -- The loop of `do_replay_recv_for_entry`; a message kept for later takes one unit of fuel.
  unfoldable pub entry_loop :
      ℕ → ℕ → DetThreadId → Buffer M → OpaqueIpcReceiver K → Call Q (Step K M)
  unfolding on_received
  entry_loop zero index expected_sender buffer receiver = λ _. out_of_fuel
  entry_loop (suc fuel) index expected_sender buffer receiver =
      let (received, k) = rr_recv real receiver.opaque_receiver in
      on_received index expected_sender (entry_loop fuel index expected_sender) received buffer
        (record receiver { opaque_receiver = k })

  unfoldable pub do_replay_recv_for_entry :
      ℕ → ℕ → DetThreadId → Buffer M → OpaqueIpcReceiver K → Call Q (Step K M)
  do_replay_recv_for_entry fuel index expected_sender buffer receiver =
      elim (pop_entry buffer index expected_sender) [
        | some (entry, buffer') ↦ pure (ok (message_received index entry), buffer', receiver)
        | none ↦ entry_loop fuel index expected_sender buffer receiver
      ]

  replay_on : ℕ → IpcSelectEvent → Buffer M → OpaqueIpcReceiver K → Call Q (Step K M)
  unfolding on_closed
  replay_on fuel (IpcSelectEvent.message_received index expected_sender) buffer receiver =
      do_replay_recv_for_entry fuel index expected_sender buffer receiver
  replay_on fuel (IpcSelectEvent.channel_closed index) buffer receiver =
      let (received, k) = rr_recv real receiver.opaque_receiver in
      pure (on_closed index received buffer (record receiver { opaque_receiver = k }))

  -- `as usize` keeps all the bits of the index.
  unfoldable pub replay_select_event :
      ℕ
      → IpcSelectEvent
      → IpcReceiverSet R K D M
      → Call Q (Result (IpcSelectionResult M) (Diverges M) × IpcReceiverSet R K D M)
  unfolding replay_on
  replay_select_event fuel event rs =
      let index = index_of event in
      elim (get_elem? rs.receivers index) [
        | none ↦ pure (err (missing_receiver index, none), rs)
        | some receiver ↦ do
          (found, buffer, receiver') ← replay_on fuel event rs.buffer receiver
          pure (found, record rs { buffer = buffer; receivers = set rs.receivers index receiver' })
      ]
