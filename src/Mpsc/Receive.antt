-- ===== src/Mpsc/Receive.antt =====
-- mpsc.rs: the receive methods.
use rr_channel.Prelude.{ℕ, Result, ok, err, Outcome, pure, ◌>>=◌}
use rr_channel.DetThread.Id.{DetThreadId}
use rr_channel.Event.{
  TivoEvent, RecvError, TryRecvError, RecvTimeoutError, mpsc_recv_succ, mpsc_recv_err,
  mpsc_try_recv_succ, mpsc_try_recv_err, mpsc_recv_timeout_succ, mpsc_recv_timeout_err,
}
use rr_channel.Error.{DesyncError, RecvErrorRr, from_recv_timeout}
use rr_channel.RecordLog.{LogQueue}
use rr_channel.World.{Call}
use rr_channel.Desync.{DetMessage, Endpoint}
use rr_channel.Rr.{RecvRecordReplay, recv_expected_message}
use rr_channel.Channel.{RealReceiver, lift, Variants, Seen, impl_recvrr, recv_with}
use rr_channel.Mpsc.{ReceiverKind, Receiver}

-- The arguments of the uses of the macros `impl_RR` and `ImplRecordEventChecker`.
see_recv : TivoEvent → Seen RecvError
see_recv (mpsc_recv_succ s) = Seen.succ s
see_recv (mpsc_recv_err e) = Seen.error e
see_recv _ = Seen.other

see_try_recv : TivoEvent → Seen TryRecvError
see_try_recv (mpsc_try_recv_succ s) = Seen.succ s
see_try_recv (mpsc_try_recv_err e) = Seen.error e
see_try_recv _ = Seen.other

see_recv_timeout : TivoEvent → Seen RecvTimeoutError
see_recv_timeout (mpsc_recv_timeout_succ s) = Seen.succ s
see_recv_timeout (mpsc_recv_timeout_err e) = Seen.error e
see_recv_timeout _ = Seen.other

unfoldable pub recv_variants : Variants RecvError
unfolding see_recv
recv_variants = record { succ_event = mpsc_recv_succ; err_event = mpsc_recv_err; see = see_recv }

unfoldable pub try_recv_variants : Variants TryRecvError
unfolding see_try_recv
try_recv_variants = record {
  succ_event = mpsc_try_recv_succ;
  err_event = mpsc_try_recv_err;
  see = see_try_recv;
}

unfoldable pub recv_timeout_variants : Variants RecvTimeoutError
unfolding see_recv_timeout
recv_timeout_variants = record {
  succ_event = mpsc_recv_timeout_succ;
  err_event = mpsc_recv_timeout_err;
  see = see_recv_timeout;
}

as_recv_error :
    {C T : Type 0}
    → Result (DetMessage T) RecvTimeoutError × ReceiverKind C
    → Result (DetMessage T) RecvErrorRr × ReceiverKind C
as_recv_error (ok m, c) = (ok m, c)
as_recv_error (err e, c) = (err (from_recv_timeout e), c)

module _ {Q C T : Type 0} (real : RealReceiver C (DetMessage T)) where
  -- `generate_receiver_method!`: the same call on either kind.
  on_kind :
      {E : Type 0}
      → (C → Outcome (Result (DetMessage T) E × C))
      → ReceiverKind C
      → Call Q (Result (DetMessage T) E × ReceiverKind C)
  on_kind f (ReceiverKind.bounded c) = do (m, c') ← lift (f c); pure (m, ReceiverKind.bounded c')
  on_kind f (ReceiverKind.unbounded c) = do
    (m, c') ← lift (f c)
    pure (m, ReceiverKind.unbounded c')

  unfoldable pub kind_recv :
      ReceiverKind C → Call Q (Result (DetMessage T) RecvError × ReceiverKind C)
  unfolding on_kind
  kind_recv = on_kind real.recv

  unfoldable pub kind_try_recv :
      ReceiverKind C → Call Q (Result (DetMessage T) TryRecvError × ReceiverKind C)
  unfolding on_kind
  kind_try_recv = on_kind (λ c. Outcome.returns (real.try_recv c))

  unfoldable pub kind_recv_timeout :
      ℕ → ReceiverKind C → Call Q (Result (DetMessage T) RecvTimeoutError × ReceiverKind C)
  unfolding on_kind
  kind_recv_timeout duration = on_kind (λ c. Outcome.returns (real.recv_timeout duration c))

  -- `rr_recv_timeout`, with a timeout of one second.
  unfoldable pub poll : ReceiverKind C → Call Q (Result (DetMessage T) RecvErrorRr × ReceiverKind C)
  unfolding as_recv_error
  poll c = do m ← kind_recv_timeout 1000 c; pure (as_recv_error m)

-- `fuel` bounds the messages that a replay takes off the channel in search of one.
module _ {Q C T : Type 0} (real : RealReceiver C (DetMessage T)) (fuel : ℕ) where
  unfoldable pub replay_recv :
      DetThreadId
      → Endpoint (ReceiverKind C) T
      → Call Q (Result T DesyncError × Endpoint (ReceiverKind C) T)
  replay_recv sender r = recv_expected_message (poll real) fuel sender r

  -- The macros `ImplRecordEventChecker` and `impl_RR`, which are those of crossbeam_channel.rs.
  abbrev impl_rr : {E : Type 0} → Variants E → RecvRecordReplay Q (Endpoint (ReceiverKind C) T) T E
  impl_rr v = impl_recvrr v replay_recv

  module _ ⦃q : LogQueue Q⦄ where
    abbrev method :
        {E : Type 0}
        → Variants E
        → (ReceiverKind C → Call Q (Result (DetMessage T) E × ReceiverKind C))
        → Receiver C T
        → Call Q (Result T E × Receiver C T)
    method v f r = do
      (received, endpoint) ← recv_with (impl_rr v) r.mode r.metadata f r.endpoint
      pure (received, record r { endpoint = endpoint })

    unfoldable pub recv : Receiver C T → Call Q (Result T RecvError × Receiver C T)
    recv = method recv_variants (kind_recv real)

    unfoldable pub try_recv : Receiver C T → Call Q (Result T TryRecvError × Receiver C T)
    try_recv = method try_recv_variants (kind_try_recv real)

    unfoldable pub recv_timeout :
        ℕ → Receiver C T → Call Q (Result T RecvTimeoutError × Receiver C T)
    recv_timeout timeout = method recv_timeout_variants (kind_recv_timeout real timeout)
