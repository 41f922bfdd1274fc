-- ===== src/Ipc/RoundTrip.antt =====
-- ipc_channel/mod.rs: a receive, recorded and replayed.
use rr_channel.Prelude.{
  ℕ, String, ◌<◌, ◌≡◌, refl, sym, ap, ◌∙◌, List, [], ◌∷◌, ◌++◌, Result, ok, err, returns, ◌>>=◌,
  length,
}
use rr_channel.DetThread.Id.{DetThreadId, id_eq}
use rr_channel.RecordLog.{RecordEntry, RecordMetadata, LogQueue}
use rr_channel.World.{World, Call, RrMode, record_mode, replay_mode}
use rr_channel.Recorder.{entry_of}
use rr_channel.Recorder.Laws.{rest, LogOpen, LogLeft}
use rr_channel.Desync.{DetMessage, Endpoint, message}
use rr_channel.Channel.{Variants, Seen, impl_recvrr, recv_with}
use rr_channel.Channel.Steps.{
  logged, recv_with-record, recv_with-replay_seen_ok, recv_with-replay_seen_err,
}
use rr_channel.Ipc.{IpcError, TryRecvError, RealReceiver, IpcReceiver}
use rr_channel.Ipc.Receive.{recv_variants, try_recv_variants, replay_recv, method, recv, try_recv}
use rr_channel.Ipc.Fifo.{IsPatient, try_recv_fifo}
use rr_channel.Ipc.Retold.{
  retold, retold_try, see_recv_ok, see_recv_err, see_try_recv_ok, see_try_recv_err, replayed,
  HasMessage, Takes,
}

abbrev pub receiver : {C T : Type 0} → RecordMetadata → RrMode → Endpoint C T → IpcReceiver C T
receiver md mode r = record { endpoint = r; metadata = md; mode = mode }

module _ {Q C T B I : Type 0} ⦃q : LogQueue Q⦄ (bincode_error : String → B) (io_error : String → I)
    (real : RealReceiver C (DetMessage T) B I) (patient : IsPatient real) (fuel : ℕ)
    (md : RecordMetadata) where
  -- A call of one method, recorded in `w`, with the answer `o` of a real channel that is `c'` after
  -- it, and replayed in `w₂`.
  abbrev pub Agrees :
      {E : Type 0}
      → Variants E
      → (E → E)
      → (IpcReceiver C T → Call Q (Result T E × IpcReceiver C T))
      → Result (DetMessage T) E
      → C
      → Endpoint C T
      → Endpoint C T
      → DetThreadId
      → World Q
      → World Q
      → List RecordEntry
      → List RecordEntry
      → Type 0
  Agrees v retell call o c' r r₂ id w w₂ written es =
      ((w' : World Q) × (call (receiver md record_mode r) w
          ≡ returns ((message o, receiver md record_mode (record r { channel = c' })), w'))
        × LogOpen id w' (written ++ entry_of (logged v o) md ∷ [])
        × (rest w' ≡ rest w))
      × ((r' : Endpoint C T) × (w' : World Q) × (call (receiver md replay_mode r₂) w₂
            ≡ returns ((replayed retell o, receiver md replay_mode r'), w'))
          × Takes patient o r₂ r'
          × LogLeft w' es
          × (rest w' ≡ rest w₂))

  replay_answer :
      {E : Type 0} (v : Variants E) (retell : E → E) (f : C → Call Q (Result (DetMessage T) E × C))
      (o : Result (DetMessage T) E) (r : Endpoint C T) (w : World Q) (es : List RecordEntry)
      → ((s : DetThreadId) → v.see (v.succ_event s) ≡ Seen.succ s)
      → ((e : E) → v.see (v.err_event e) ≡ Seen.error (retell e))
      → LogLeft w (entry_of (logged v o) md ∷ es)
      → length (patient.arrivals r.channel) < fuel
      → HasMessage patient r o
      → (r' : Endpoint C T) × (w' : World Q) × (recv_with
            (impl_recvrr v (replay_recv real fuel))
            replay_mode
            md
            f
            r
            w
          ≡ returns ((replayed retell o, r'), w'))
        × Takes patient o r r'
        × LogLeft w' es
        × (rest w' ≡ rest w)
  unfolding replay_recv try_recv_fifo
  replay_answer v retell f (ok (s, m)) r w es ok_seen err_seen left lt (ms, have) =
      let (r', w', e, l, same, _, n, mine, others) =
        recv_with-replay_seen_ok v (try_recv_fifo real patient) fuel md f r w (v.succ_event s) s m
          ms es (ok_seen s) left tt lt have in
      (r', w', e, (have ∙ ap (λ l. m ∷ l) (sym mine), others, n), l, same)
  replay_answer v retell f (err x) r w es ok_seen err_seen left lt have =
      let (w', e, l, same) =
        recv_with-replay_seen_err v (replay_recv real fuel) md f r w (v.err_event x) (retell x) es
          (err_seen x) left in
      (r, w', e, refl, l, same)

  method-Agrees :
      {E : Type 0} (v : Variants E) (retell : E → E) (f : C → Call Q (Result (DetMessage T) E × C))
      (o : Result (DetMessage T) E) (c' : C) (r r₂ : Endpoint C T) (id : DetThreadId)
      (w w₂ : World Q) (written es : List RecordEntry)
      → ((s : DetThreadId) → v.see (v.succ_event s) ≡ Seen.succ s)
      → ((e : E) → v.see (v.err_event e) ≡ Seen.error (retell e))
      → LogOpen id w written
      → f r.channel w ≡ returns ((o, c'), w)
      → LogLeft w₂ (entry_of (logged v o) md ∷ es)
      → length (patient.arrivals r₂.channel) < fuel
      → HasMessage patient r₂ o
      → Agrees v retell (method bincode_error io_error real fuel v f) o c' r r₂ id w w₂ written es
  method-Agrees v retell f o c' r r₂ id w w₂ written es ok_seen err_seen l p left lt have =
      let (w', e, l', same) =
        recv_with-record v (replay_recv real fuel) md f r id w written o c' l p in
      let (r', w₂', e₂, takes, l₂, same₂) =
        replay_answer v retell f o r₂ w₂ es ok_seen err_seen left lt have in
      ((w', rw (e, ◌>>=◌) refl, l', same), (r', w₂', rw (e₂, ◌>>=◌) refl, takes, l₂, same₂))

  -- A receive of an IPC channel, recorded while the log is open, returns the answer of the real
  -- channel, logs it and leaves the endpoint with the buffer as it was and the channel as the real
  -- call left it. Replayed on that entry, on a channel that delivers its arrivals in order, within
  -- the fuel, and that has the message of the answer next of its sender, it takes the entry and
  -- returns the same message, which it takes from the endpoint and no other, or it returns an error
  -- of the kind that was recorded, with a fixed text, and leaves the endpoint as it was. The same
  -- holds of a try_recv on other endpoints, an empty channel included.
  pub recv-Agrees :
      (o : Result (DetMessage T) (IpcError B I)) (c' : C) (r r₂ : Endpoint C T) (w w₂ : World Q)
      (written es : List RecordEntry) (p : Result (DetMessage T) (TryRecvError B I)) (d' : C)
      (s s₂ : Endpoint C T) (v v₂ : World Q) (written' es' : List RecordEntry) (id : DetThreadId)
      → LogOpen id w written
      → real.recv r.channel ≡ returns (o, c')
      → LogLeft w₂ (entry_of (logged (recv_variants bincode_error io_error) o) md ∷ es)
      → length (patient.arrivals r₂.channel) < fuel
      → HasMessage patient r₂ o
      → LogOpen id v written'
      → real.try_recv s.channel ≡ (p, d')
      → LogLeft v₂ (entry_of (logged (try_recv_variants bincode_error io_error) p) md ∷ es')
      → length (patient.arrivals s₂.channel) < fuel
      → HasMessage patient s₂ p
      → Agrees
          (recv_variants bincode_error io_error)
          (retold bincode_error io_error)
          (recv bincode_error io_error real fuel)
          o
          c'
          r
          r₂
          id
          w
          w₂
          written
          es
        × Agrees
            (try_recv_variants bincode_error io_error)
            (retold_try bincode_error io_error)
            (try_recv bincode_error io_error real fuel)
            p
            d'
            s
            s₂
            id
            v
            v₂
            written'
            es'
  unfolding recv try_recv
  recv-Agrees o c' r r₂ w w₂ written es p d' s s₂ v v₂ written' es' id l a left lt have l' a' left'
        lt' have' =
      (
        method-Agrees (recv_variants bincode_error io_error) (retold bincode_error io_error) _ o c'
            r r₂ id w w₂ written es (see_recv_ok bincode_error io_error)
            (see_recv_err bincode_error io_error) l (rw a refl) left lt have,
        method-Agrees (try_recv_variants bincode_error io_error) (retold_try bincode_error io_error)
            _ p d' s s₂ id v v₂ written' es' (see_try_recv_ok bincode_error io_error)
            (see_try_recv_err bincode_error io_error) l' (rw a' refl) left' lt' have',
      )
