-- ===== src/Rr/Searches.antt =====
-- rr.rs: what a search for a message does to the channel when it fails, and to the buffer when it
-- succeeds.
use rr_channel.Prelude.{
  ℕ, zero, suc, ◌<◌, ◌≡◌, refl, sym, subst, ap, ◌∙◌, inl, inr, List, [], ◌∷◌, arith, length, ok,
  err, returns, Bool-cases, ◌==◌, ◌>>=◌, Result,
}
use rr_channel.Prelude.Map.Queues.{queue, push_back, queue-push_back, pop_front-Pops}
use rr_channel.DetThread.Id.{DetThreadId, id_eq}
use rr_channel.Error.{DesyncError, RecvErrorRr, from_recv_rr}
use rr_channel.World.{World, Call}
use rr_channel.Desync.{DetMessage, Endpoint}
use rr_channel.Rr.{recv_loop, recv_expected_message}
use rr_channel.Rr.Pending.{IsFifo}

from_recv_rr_inj : (e f : RecvErrorRr) → from_recv_rr e ≡ from_recv_rr f → e ≡ f
from_recv_rr_inj RecvErrorRr.disconnected RecvErrorRr.disconnected p = refl
from_recv_rr_inj RecvErrorRr.disconnected RecvErrorRr.timeout p = cc p
from_recv_rr_inj RecvErrorRr.timeout RecvErrorRr.disconnected p = cc p
from_recv_rr_inj RecvErrorRr.timeout RecvErrorRr.timeout p = refl

module _ {Q C T : Type 0} {receive : C → Call Q (Result (DetMessage T) RecvErrorRr × C)}
    (fifo : IsFifo receive) where
  -- The search leaves the buffered queue of the expected sender as it was.
  recv_loop-queue :
      (fuel : ℕ) (s : DetThreadId) (r r' : Endpoint C T) (ms : List (DetMessage T)) (w : World Q)
      (v : T)
      → fifo.IsReady r.channel
      → fifo.arrivals r.channel ≡ ms
      → length ms < fuel
      → recv_loop receive fuel s r w ≡ returns ((ok v, r'), w)
      → queue r'.buffer s ≡ queue r.buffer s
  unfolding recv_loop
  recv_loop-queue zero s r r' ms w v d a lt h = absurd (omega arith)
  recv_loop-queue (suc fuel) s r r' [] w v d a lt h =
      let (e, c', p, d', b) = fifo.on_empty r.channel d a w in cc (rw (p, ◌>>=◌) at h)
  recv_loop-queue (suc fuel) s r r' ((j, m) ∷ ms) w v d a lt h =
      let (c', p, d', b) = fifo.on_message r.channel (j, m) ms d a w in
      elim (Bool-cases (j == s)) [
        | inl e ↦ let now = rw e at rw (p, ◌>>=◌) at h in ground arith
        | inr e ↦
            let r₁ : Endpoint C T = record { buffer = push_back r.buffer j m; channel = c' } in
            recv_loop-queue fuel s r₁ r' ms w v d' b (omega arith) (rw e at rw (p, ◌>>=◌) at h)
            ∙ queue-push_back r.buffer j s m
            ∙ rw e refl
      ]

  pub recv_expected_message-queue :
      (fuel : ℕ) (s : DetThreadId) (r r' : Endpoint C T) (w : World Q) (v : T)
      → fifo.IsReady r.channel
      → length (fifo.arrivals r.channel) < fuel
      → queue r.buffer s ≡ []
      → recv_expected_message receive fuel s r w ≡ returns ((ok v, r'), w)
      → queue r'.buffer s ≡ []
  unfolding recv_expected_message
  recv_expected_message-queue fuel s r r' w v d lt empty h = elim (pop_front-Pops r.buffer s) [
    | inl (_, p) ↦
        recv_loop-queue fuel s r r' _ w v d refl lt (rw (p, recv_expected_message) at h) ∙ empty
    | inr (v', buffer, p, q, f) ↦ cc (sym empty ∙ q)
  ]

  -- The real channel gives messages from `c` on, one after the other, and is then `c₀`.
  pub data Drains (w : World Q) : C → C → Type 0 where
    drained : (c : C) → Drains w c c
    next :
        (c c' c₀ : C) (m : DetMessage T)
        → receive c w ≡ returns ((ok m, c'), w)
        → Drains w c' c₀
        → Drains w c c₀

  -- Once it has given all its arrivals, the channel answers `e`, and is then `c'`.
  abbrev pub Ends : World Q → C → RecvErrorRr → C → Type 0
  Ends w c e c' =
      (c₀ : C) × Drains w c c₀ × (fifo.arrivals c₀ ≡ []) × (receive c₀ w ≡ returns ((err e, c'), w))

  -- A search that fails has emptied the channel and got its error.
  recv_loop-Ends :
      (fuel : ℕ) (s : DetThreadId) (r r' : Endpoint C T) (ms : List (DetMessage T)) (w : World Q)
      (x : DesyncError)
      → fifo.IsReady r.channel
      → fifo.arrivals r.channel ≡ ms
      → length ms < fuel
      → recv_loop receive fuel s r w ≡ returns ((err x, r'), w)
      → (e : RecvErrorRr) × (x ≡ from_recv_rr e) × Ends w r.channel e r'.channel
  unfolding recv_loop
  recv_loop-Ends zero s r r' ms w x d a lt h = absurd (omega arith)
  recv_loop-Ends (suc fuel) s r r' [] w x d a lt h =
      let (e, c', p, d', b) = fifo.on_empty r.channel d a w in
      let now = rw (p, ◌>>=◌) at h in
      let same : c' ≡ r'.channel = ground arith in
      (
        e,
        ground arith,
        (r.channel, drained r.channel, a, p ∙ ap (λ k. returns ((err e, k), w)) same),
      )
  recv_loop-Ends (suc fuel) s r r' ((j, m) ∷ ms) w x d a lt h =
      let (c', p, d', b) = fifo.on_message r.channel (j, m) ms d a w in
      elim (Bool-cases (j == s)) [
        | inl e ↦ let now = rw e at rw (p, ◌>>=◌) at h in ground arith
        | inr e ↦
            let r₁ : Endpoint C T = record { buffer = push_back r.buffer j m; channel = c' } in
            let (f, q, (c₀, more, none_left, z)) =
              recv_loop-Ends fuel s r₁ r' ms w x d' b (omega arith) (rw e at rw (p, ◌>>=◌) at h) in
            (f, q, (c₀, next r.channel c' c₀ (j, m) p more, none_left, z))
      ]

  pub recv_expected_message-Ends :
      (fuel : ℕ) (s : DetThreadId) (r r' : Endpoint C T) (w : World Q) (e : RecvErrorRr)
      → fifo.IsReady r.channel
      → length (fifo.arrivals r.channel) < fuel
      → queue r.buffer s ≡ []
      → recv_expected_message receive fuel s r w ≡ returns ((err (from_recv_rr e), r'), w)
      → Ends w r.channel e r'.channel
  unfolding recv_expected_message
  recv_expected_message-Ends fuel s r r' w e d lt empty h = elim (pop_front-Pops r.buffer s) [
    | inl (_, p) ↦
        let (f, q, ends) =
          recv_loop-Ends fuel s r r' _ w (from_recv_rr e) d refl lt
            (rw (p, recv_expected_message) at h) in
        subst (λ x. Ends w r.channel x r'.channel) (sym (from_recv_rr_inj e f q)) ends
    | inr (v', buffer, p, q, f) ↦ cc (sym empty ∙ q)
  ]
