-- ===== src/Ipc/Fifo.antt =====
-- What a replay uses of a real IPC channel: it delivers messages in order, within the ten rounds of
-- `rr_try_recv`.
use rr_channel.Prelude.{ℕ, zero, suc, ◌<◌, ◌≡◌, refl, List, [], ◌∷◌, arith, ok, err}
use rr_channel.Error.{RecvErrorRr}
use rr_channel.Desync.{DetMessage}
use rr_channel.Rr.Pending.{IsFifo}
use rr_channel.Ipc.{RealReceiver, TryRecvError}
use rr_channel.Ipc.Receive.{attempts, pause, try_rounds, rr_try_recv}

-- The documented behaviour of `try_recv`: it never waits, returns the messages in the order of their
-- arrival, and an error while there is none. `arrivals` are the messages that come before ten rounds
-- are over, and `delay` is how many rounds of sleep the first of them takes.
pub record IsPatient {C T B I : Type 0} (real : RealReceiver C (DetMessage T) B I) : Type 0 where
  pub arrivals : C → List (DetMessage T)
  pub delay : C → ℕ
  pub delay_bound : (c : C) → delay c < attempts
  pub on_ready :
      (c : C) (m : DetMessage T) (ms : List (DetMessage T))
      → arrivals c ≡ m ∷ ms
      → delay c ≡ 0
      → (c' : C) × (real.try_recv c ≡ (ok m, c')) × (arrivals c' ≡ ms)
  pub on_delay :
      (c : C) (m : DetMessage T) (ms : List (DetMessage T)) (d : ℕ)
      → arrivals c ≡ m ∷ ms
      → delay c ≡ suc d
      → (e : TryRecvError B I) × (c' : C) × (real.try_recv c ≡ (err e, c'))
        × (arrivals (real.sleep pause c') ≡ m ∷ ms)
        × (delay (real.sleep pause c') ≡ d)
  pub on_empty :
      (c : C)
      → arrivals c ≡ []
      → (e : TryRecvError B I) × (c' : C) × (real.try_recv c ≡ (err e, c'))
        × (arrivals (real.sleep pause c') ≡ [])

module _ {C T B I : Type 0} (real : RealReceiver C (DetMessage T) B I)
    (patient : IsPatient real) where
  pub try_rounds-message :
      (n d : ℕ) (c : C) (m : DetMessage T) (ms : List (DetMessage T))
      → patient.arrivals c ≡ m ∷ ms
      → patient.delay c ≡ d
      → d < n
      → (c' : C) × (try_rounds real n c ≡ (ok m, c')) × (patient.arrivals c' ≡ ms)
  unfolding try_rounds
  try_rounds-message zero d c m ms a e lt = absurd (omega arith)
  try_rounds-message (suc n) zero c m ms a e lt =
      let (c', p, b) = patient.on_ready c m ms a e in (c', rw p refl, b)
  try_rounds-message (suc n) (suc d) c m ms a e lt =
      let (x, c', p, b, e') = patient.on_delay c m ms d a e in
      let (c'', q, b') = try_rounds-message n d (real.sleep pause c') m ms b e' (omega arith) in
      (c'', rw p q, b')

  pub try_rounds-empty :
      (n : ℕ) (c : C)
      → patient.arrivals c ≡ []
      → (c' : C) × (try_rounds real n c ≡ (err RecvErrorRr.timeout, c'))
        × (patient.arrivals c' ≡ [])
  unfolding try_rounds
  try_rounds-empty zero c a = (c, refl, a)
  try_rounds-empty (suc n) c a =
      let (x, c', p, b) = patient.on_empty c a in
      let (c'', q, b') = try_rounds-empty n (real.sleep pause c') b in (c'', rw p q, b')

  unfoldable pub try_recv_fifo : {Q : Type 0} → IsFifo {Q = Q} (rr_try_recv real)
  unfolding rr_try_recv
  try_recv_fifo = record {
    IsReady = λ c. Unit;
    arrivals = patient.arrivals;
    on_message = λ c m ms _ a w.
        let (c', p, b) =
          try_rounds-message attempts (patient.delay c) c m ms a refl (patient.delay_bound c) in
        (c', rw p refl, tt, b);
    on_empty = λ c _ a w.
        let (c', p, b) = try_rounds-empty attempts c a in
        (RecvErrorRr.timeout, c', rw p refl, tt, b);
  }
