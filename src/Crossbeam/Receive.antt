-- ===== src/Crossbeam/Receive.antt =====
-- crossbeam_channel.rs: the receive methods.
use rr_channel.Prelude.{
  ℕ, Bool, true, false, Option, none, some, [], ◌∷◌, Result, ok, err, Outcome, pure, panic, ◌>>=◌,
}
use rr_channel.Prelude.Map.Queues.{queue, push_back, pop_any}
use rr_channel.DetThread.Id.{DetThreadId, id_eq}
use rr_channel.DetThread.Tls.{get_det_id}
use rr_channel.Event.{
  TivoEvent, RecvError, TryRecvError, RecvTimeoutError, crossbeam_recv_succ, crossbeam_recv_err,
  crossbeam_try_recv_succ, crossbeam_try_recv_err, crossbeam_recv_timeout_succ,
  crossbeam_recv_timeout_err,
}
use rr_channel.Error.{DesyncError, RecvErrorRr, from_recv_timeout}
use rr_channel.RecordLog.{LogQueue}
use rr_channel.World.{Call}
use rr_channel.Desync.{DetMessage, Endpoint}
use rr_channel.Rr.{recv_expected_message}
use rr_channel.Channel.{RealReceiver, lift, Variants, Seen, impl_recvrr, recv_with}
use rr_channel.Crossbeam.{ChannelKind, after, bounded, never, unbounded, Receiver}

-- The arguments of the three uses of the two macros.
see_recv : TivoEvent → Seen RecvError
see_recv (crossbeam_recv_succ s) = Seen.succ s
see_recv (crossbeam_recv_err e) = Seen.error e
see_recv _ = Seen.other

see_try_recv : TivoEvent → Seen TryRecvError
see_try_recv (crossbeam_try_recv_succ s) = Seen.succ s
see_try_recv (crossbeam_try_recv_err e) = Seen.error e
see_try_recv _ = Seen.other

see_recv_timeout : TivoEvent → Seen RecvTimeoutError
see_recv_timeout (crossbeam_recv_timeout_succ s) = Seen.succ s
see_recv_timeout (crossbeam_recv_timeout_err e) = Seen.error e
see_recv_timeout _ = Seen.other

unfoldable pub recv_variants : Variants RecvError
unfolding see_recv
recv_variants = record {
  succ_event = crossbeam_recv_succ;
  err_event = crossbeam_recv_err;
  see = see_recv;
}

unfoldable pub try_recv_variants : Variants TryRecvError
unfolding see_try_recv
try_recv_variants = record {
  succ_event = crossbeam_try_recv_succ;
  err_event = crossbeam_try_recv_err;
  see = see_try_recv;
}

unfoldable pub recv_timeout_variants : Variants RecvTimeoutError
unfolding see_recv_timeout
recv_timeout_variants = record {
  succ_event = crossbeam_recv_timeout_succ;
  err_event = crossbeam_recv_timeout_err;
  see = see_recv_timeout;
}

-- One second, in milliseconds.
abbrev pub replay_timeout : ℕ
replay_timeout = 1000

-- `map_err(|e| e.into())`
as_recv_error :
    {C T : Type 0}
    → Result (DetMessage T) RecvTimeoutError × C
    → Result (DetMessage T) RecvErrorRr × C
as_recv_error (ok m, c) = (ok m, c)
as_recv_error (err e, c) = (err (from_recv_timeout e), c)

-- A value of `after` counts as sent by the receiving thread.
tag_own : {Q T E : Type 0} → Result T E → Call Q (Result (DetMessage T) E)
tag_own (ok msg) = do id ← get_det_id; pure (ok (id, msg))
tag_own (err e) = pure (err e)

module _ {Q A C T : Type 0} where
  -- One method of `ChannelKind`, given the method of the two real receivers.
  unfoldable pub on_kind :
      {E : Type 0}
      → (A → Outcome (Result T E × A))
      → (C → Outcome (Result (DetMessage T) E × C))
      → ChannelKind A C
      → Call Q (Result (DetMessage T) E × ChannelKind A C)
  unfolding tag_own
  on_kind f g (after receiver) = do
    (m, a) ← lift (f receiver)
    tagged ← tag_own m
    pure (tagged, after a)
  on_kind f g (bounded receiver) = do (m, c) ← lift (g receiver); pure (m, bounded c)
  on_kind f g (never receiver) = do (m, c) ← lift (g receiver); pure (m, never c)
  on_kind f g (unbounded receiver) = do (m, c) ← lift (g receiver); pure (m, unbounded c)

module _ {Q A C T : Type 0} (timer : RealReceiver A T) (real : RealReceiver C (DetMessage T)) where
  unfoldable pub kind_recv :
      ChannelKind A C → Call Q (Result (DetMessage T) RecvError × ChannelKind A C)
  unfolding on_kind
  kind_recv = on_kind timer.recv real.recv

  unfoldable pub kind_try_recv :
      ChannelKind A C → Call Q (Result (DetMessage T) TryRecvError × ChannelKind A C)
  unfolding on_kind
  kind_try_recv =
      on_kind (λ a. Outcome.returns (timer.try_recv a)) (λ c. Outcome.returns (real.try_recv c))

  unfoldable pub kind_recv_timeout :
      ℕ → ChannelKind A C → Call Q (Result (DetMessage T) RecvTimeoutError × ChannelKind A C)
  unfolding on_kind
  kind_recv_timeout duration =
      on_kind (λ a. Outcome.returns (timer.recv_timeout duration a))
        (λ c. Outcome.returns (real.recv_timeout duration c))

  -- The closure that `replay_recv` polls.
  unfoldable pub poll :
      ChannelKind A C → Call Q (Result (DetMessage T) RecvErrorRr × ChannelKind A C)
  unfolding as_recv_error
  poll c = do m ← kind_recv_timeout replay_timeout c; pure (as_recv_error m)

-- `fuel` bounds the messages that a replay takes off the channel in search of one.
module _ {Q A C T : Type 0} (timer : RealReceiver A T) (real : RealReceiver C (DetMessage T))
    (fuel : ℕ) where
  unfoldable pub replay_recv :
      DetThreadId
      → Endpoint (ChannelKind A C) T
      → Call Q (Result T DesyncError × Endpoint (ChannelKind A C) T)
  replay_recv sender r = recv_expected_message (poll timer real) fuel sender r

  poll_channel :
      DetThreadId → Endpoint (ChannelKind A C) T → Call Q (Bool × Endpoint (ChannelKind A C) T)
  poll_channel sender r = do
    (found, r') ← replay_recv sender r
    elim found [
      | ok msg ↦ pure (true, record r' { buffer = push_back r'.buffer sender msg })
      | err (DesyncError.timeout _) ↦ pure (false, r')
      | err _ ↦ panic
    ]

  -- The `panic` is the `unreachable!` of the last arm.
  unfoldable pub poll_entry :
      DetThreadId → Endpoint (ChannelKind A C) T → Call Q (Bool × Endpoint (ChannelKind A C) T)
  unfolding poll_channel
  poll_entry sender r = elim (queue r.buffer sender) [
    | [] ↦ poll_channel sender r
    | _ ∷ _ ↦ pure (true, r)
  ]

module _ {Q A C T : Type 0} ⦃q : LogQueue Q⦄ (timer : RealReceiver A T)
    (real : RealReceiver C (DetMessage T)) (fuel : ℕ) where
  abbrev method :
      {E : Type 0}
      → Variants E
      → (ChannelKind A C → Call Q (Result (DetMessage T) E × ChannelKind A C))
      → Receiver A C T
      → Call Q (Result T E × Receiver A C T)
  method v f r = do
    (received, endpoint) ←
        recv_with (impl_recvrr v (replay_recv timer real fuel)) r.mode r.metadata f r.endpoint
    pure (received, record r { endpoint = endpoint })

  unfoldable pub recv : Receiver A C T → Call Q (Result T RecvError × Receiver A C T)
  recv = method recv_variants (kind_recv timer real)

  unfoldable pub try_recv : Receiver A C T → Call Q (Result T TryRecvError × Receiver A C T)
  try_recv = method try_recv_variants (kind_try_recv timer real)

  unfoldable pub recv_timeout :
      ℕ → Receiver A C T → Call Q (Result T RecvTimeoutError × Receiver A C T)
  recv_timeout timeout = method recv_timeout_variants (kind_recv_timeout timer real timeout)

-- Any buffered message, whoever sent it.
unfoldable pub get_buffered_value : {C T : Type 0} → Endpoint C T → Option T × Endpoint C T
get_buffered_value r = elim (pop_any r.buffer) [
  | none ↦ (none, r)
  | some (v, buffer) ↦ (some v, record r { buffer = buffer })
]
