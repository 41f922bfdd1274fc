-- ===== src/Ipc/Retold.antt =====
-- ipc_channel/mod.rs: what a replay makes of a logged answer.
use rr_channel.Prelude.{
  String, ◌≤◌, ◌≡◌, refl, ap, false, ◌==◌, List, ◌∷◌, ◌++◌, Result, ok, err, length,
}
use rr_channel.Prelude.Map.Queues.{queue}
use rr_channel.DetThread.Id.{DetThreadId, id_eq}
use rr_channel.Desync.{DetMessage, Endpoint}
use rr_channel.Rr.Pending.{from}
use rr_channel.Channel.{Seen}
use rr_channel.Ipc.{IpcError, TryRecvError, RealReceiver}
use rr_channel.Ipc.Receive.{
  ipc_error_to_recorded_event, recorded_event_to_ipc_error, recv_variants, try_recv_variants,
}
use rr_channel.Ipc.Fifo.{IsPatient}

module _ {B I : Type 0} (bincode_error : String → B) (io_error : String → I) where
  -- An error that a replay makes of a recorded one: only its kind is kept.
  abbrev pub retold : IpcError B I → IpcError B I
  retold (IpcError.bincode _) = IpcError.bincode (bincode_error "Unknown IpcError::Bincode")
  retold (IpcError.io _) = IpcError.io (io_error "Unknown IpcError::IO")
  retold IpcError.disconnected = IpcError.disconnected

  retold_lem :
      (e : IpcError B I)
      → recorded_event_to_ipc_error bincode_error io_error (ipc_error_to_recorded_event e)
        ≡ retold e
  unfolding recorded_event_to_ipc_error ipc_error_to_recorded_event
  retold_lem (IpcError.bincode _) = refl
  retold_lem (IpcError.io _) = refl
  retold_lem IpcError.disconnected = refl

  abbrev pub retold_try : TryRecvError B I → TryRecvError B I
  retold_try TryRecvError.empty = TryRecvError.empty
  retold_try (TryRecvError.ipc_error e) = TryRecvError.ipc_error (retold e)

  pub see_recv_ok :
      (s : DetThreadId)
      → (recv_variants bincode_error io_error).see
          ((recv_variants bincode_error io_error).succ_event s)
        ≡ Seen.succ s
  unfolding recv_variants
  see_recv_ok s = refl

  pub see_recv_err :
      (e : IpcError B I)
      → (recv_variants bincode_error io_error).see
          ((recv_variants bincode_error io_error).err_event e)
        ≡ Seen.error (retold e)
  unfolding recv_variants
  see_recv_err e = ap (λ x. Seen.error x) (retold_lem e)

  pub see_try_recv_ok :
      (s : DetThreadId)
      → (try_recv_variants bincode_error io_error).see
          ((try_recv_variants bincode_error io_error).succ_event s)
        ≡ Seen.succ s
  unfolding try_recv_variants
  see_try_recv_ok s = refl

  pub see_try_recv_err :
      (e : TryRecvError B I)
      → (try_recv_variants bincode_error io_error).see
          ((try_recv_variants bincode_error io_error).err_event e)
        ≡ Seen.error (retold_try e)
  unfolding try_recv_variants
  see_try_recv_err TryRecvError.empty = refl
  see_try_recv_err (TryRecvError.ipc_error e) =
      ap (λ x. Seen.error (TryRecvError.ipc_error x)) (retold_lem e)

-- The answer of a replay to what the real channel answered.
abbrev pub replayed : {T E : Type 0} → (E → E) → Result (DetMessage T) E → Result T E
replayed retell (ok m) = ok m.1
replayed retell (err e) = err (retell e)

-- What a sender has sent and the receiver has not handed out yet.
abbrev pub waiting :
    {C T B I : Type 0} {real : RealReceiver C (DetMessage T) B I}
    → IsPatient real
    → Endpoint C T
    → DetThreadId
    → List T
waiting patient r i = queue r.buffer i ++ from i (patient.arrivals r.channel)

-- The replay has the message that the answer carries, as the oldest of its sender.
abbrev pub HasMessage :
    {C T B I E : Type 0} {real : RealReceiver C (DetMessage T) B I}
    → IsPatient real
    → Endpoint C T
    → Result (DetMessage T) E
    → Type 0
HasMessage {T = T} patient r (ok m) = (ms : List T) × (waiting patient r m.0 ≡ m.1 ∷ ms)
HasMessage patient r (err _) = Unit

-- What a replay that gives the answer does to its endpoint, from `r` to `r'`: the message of the
-- answer and no other is taken, and an error takes nothing.
abbrev pub Takes :
    {C T B I E : Type 0} {real : RealReceiver C (DetMessage T) B I}
    → IsPatient real
    → Result (DetMessage T) E
    → Endpoint C T
    → Endpoint C T
    → Type 0
Takes patient (ok m) r r' =
    (waiting patient r m.0 ≡ m.1 ∷ waiting patient r' m.0)
    × ((i : DetThreadId) → (m.0 == i) ≡ false → waiting patient r' i ≡ waiting patient r i)
    × (length (patient.arrivals r'.channel) ≤ length (patient.arrivals r.channel))
Takes patient (err _) r r' = r' ≡ r
