-- ===== src/Ipc/Set/Fifo.antt =====
-- What a replayed receiver set uses of its real receivers: each delivers messages in order, within
-- the ten rounds of `rr_recv`.
use rr_channel.Prelude.{
  ℕ, zero, suc, ◌<◌, ◌≡◌, refl, some, false, List, [], ◌∷◌, arith, ok, err, inl, inr, Bool-cases,
  ◌>>=◌,
}
use rr_channel.Error.{RecvErrorRr}
use rr_channel.Desync.{DetMessage}
use rr_channel.Rr.Pending.{IsFifo}
use rr_channel.Ipc.Receive.{attempts, pause}
use rr_channel.Ipc.Set.{RealSet}
use rr_channel.Ipc.Set.Entry.{recv_rounds, rr_recv, deserialize_id}
use rr_channel.Ipc.Set.Refine.{set_poll}

-- The documented behaviour of `try_recv` on a receiver of the operating system: it never waits,
-- returns the messages in the order of their arrival, and an error while there is none. `arrivals`
-- are the messages that come before ten rounds are over, with their senders, and `delay` is how many
-- rounds of sleep the first of them takes.
pub record IsPatient {R K D M X F : Type 0} (real : RealSet R K D M X F) : Type 0 where
  pub arrivals : K → List (DetMessage M)
  pub delay : K → ℕ
  pub delay_bound : (k : K) → delay k < attempts
  pub on_ready :
      (k : K) (m : DetMessage M) (ms : List (DetMessage M))
      → arrivals k ≡ m ∷ ms
      → delay k ≡ 0
      → (k' : K) × (real.try_recv k ≡ (ok m.1, k'))
        × (real.deserialize_id m.1 ≡ some m.0)
        × (arrivals k' ≡ ms)
  pub on_delay :
      (k : K) (m : DetMessage M) (ms : List (DetMessage M)) (d : ℕ)
      → arrivals k ≡ m ∷ ms
      → delay k ≡ suc d
      → (e : X) × (k' : K) × (real.try_recv k ≡ (err e, k'))
        × (real.channel_is_closed e ≡ false)
        × (arrivals (real.sleep pause k') ≡ m ∷ ms)
        × (delay (real.sleep pause k') ≡ d)
  pub on_empty :
      (k : K)
      → arrivals k ≡ []
      → (e : X) × (k' : K) × (real.try_recv k ≡ (err e, k'))
        × (arrivals k' ≡ [])
        × (arrivals (real.sleep pause k') ≡ [])

module _ {R K D M X F : Type 0} (real : RealSet R K D M X F) (patient : IsPatient real) where
  pub recv_rounds-message :
      (n d : ℕ) (k : K) (m : DetMessage M) (ms : List (DetMessage M))
      → patient.arrivals k ≡ m ∷ ms
      → patient.delay k ≡ d
      → d < n
      → (k' : K) × (recv_rounds real n k ≡ (ok m.1, k'))
        × (real.deserialize_id m.1 ≡ some m.0)
        × (patient.arrivals k' ≡ ms)
  unfolding recv_rounds
  recv_rounds-message zero d k m ms a e lt = absurd (omega arith)
  recv_rounds-message (suc n) zero k m ms a e lt =
      let (k', p, id, b) = patient.on_ready k m ms a e in (k', rw p refl, id, b)
  recv_rounds-message (suc n) (suc d) k m ms a e lt =
      let (x, k', p, live, b, e') = patient.on_delay k m ms d a e in
      let (k'', q, id, b') =
        recv_rounds-message n d (real.sleep pause k') m ms b e' (omega arith) in
      (k'', rw p (rw live q), id, b')

  pub recv_rounds-empty :
      (n : ℕ) (k : K)
      → patient.arrivals k ≡ []
      → (e : RecvErrorRr) × (k' : K) × (recv_rounds real n k ≡ (err e, k'))
        × (patient.arrivals k' ≡ [])
  unfolding recv_rounds
  recv_rounds-empty zero k a = (RecvErrorRr.timeout, k, refl, a)
  recv_rounds-empty (suc n) k a =
      let (x, k', p, b, b') = patient.on_empty k a in
      elim (Bool-cases (real.channel_is_closed x)) [
        | inl h ↦ (RecvErrorRr.disconnected, k', rw p (rw h refl), b)
        | inr h ↦
            let (e, k'', q, b'') = recv_rounds-empty n (real.sleep pause k') b' in
            (e, k'', rw p (rw h q), b'')
      ]

  unfoldable pub set_poll_fifo : {Q : Type 0} → IsFifo {Q = Q} (set_poll real)
  unfolding set_poll rr_recv deserialize_id
  set_poll_fifo = record {
    IsReady = λ k. Unit;
    arrivals = patient.arrivals;
    on_message = λ k m ms _ a w.
        let (k', p, id, b) =
          recv_rounds-message attempts (patient.delay k) k m ms a refl (patient.delay_bound k) in
        (k', rw p (rw (id, ◌>>=◌) refl), tt, b);
    on_empty =
        λ k _ a w. let (e, k', p, b) = recv_rounds-empty attempts k a in (e, k', rw p refl, tt, b);
  }
