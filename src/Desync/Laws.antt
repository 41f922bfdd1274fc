-- ===== src/Desync/Laws.antt =====
-- desync.rs: a thread that goes on after a desynchronisation.
use rr_channel.Prelude.{
  ◌≡◌, refl, ap, Bool, ◌⊎◌, inl, inr, true, false, ◌||◌, [], ◌∷◌, Result, ok, returns, hangs, ◌==◌,
  arith, if◌then◌else◌,
}
use rr_channel.Prelude.Map.{keys, IsDistinct}
use rr_channel.Prelude.Map.Queues.{queue, pop_any-PopsAny}
use rr_channel.DetThread.Id.{DetThreadId, id_eq, id_beq_iff}
use rr_channel.Error.{DesyncError}
use rr_channel.World.{World, Call, keep_going}
use rr_channel.Desync.{
  DetMessage, Endpoint, message, mark_program_as_desynced, sleep_until_desync, handle_desync,
  program_desynced,
}

-- The desynchronised program, with its sleeping threads woken up.
abbrev pub desynced : {Q : Type 0} → World Q → World Q
desynced w = record w { desync = true; parked_threads_started = true }

-- Threads have been woken up if and only if the program is marked.
abbrev pub IsAwake : {Q : Type 0} → World Q → Type 0
IsAwake w = w.parked_threads_started ≡ w.desync

pub program_desynced_lem :
    {Q : Type 0} (b : Bool) (w : World Q) → w.desync ≡ b → program_desynced w ≡ returns (b, w)
unfolding program_desynced
program_desynced_lem b w h = ap (λ c. returns (c, w)) h

pub already_marked :
    {Q : Type 0} (w : World Q) → w.desync ≡ true → mark_program_as_desynced w ≡ returns (tt, w)
unfolding mark_program_as_desynced
already_marked w h = rw h refl

module _ {Q : Type 0} where
  -- Marking wakes the sleepers up, and a second mark changes nothing.
  pub mark_program_as_desynced_lem :
      (w : World Q) → IsAwake w → mark_program_as_desynced w ≡ returns (tt, desynced w)
  unfolding mark_program_as_desynced
  mark_program_as_desynced_lem w h = ground arith

  -- A thread whose program is or will be marked wakes up in the desynchronised program.
  pub sleep_until_desync_wakes :
      (w : World Q)
      → IsAwake w
      → (w.desync || w.others_desync) ≡ true
      → sleep_until_desync w ≡ returns (tt, desynced w)
  unfolding sleep_until_desync
  sleep_until_desync_wakes w h some_desync = ground arith

  -- A thread sleeps for ever if the program is not marked and nobody will mark it.
  pub sleep_until_desync_hangs :
      (w : World Q)
      → IsAwake w
      → (w.desync || w.others_desync) ≡ false
      → sleep_until_desync w ≡ hangs
  unfolding sleep_until_desync
  sleep_until_desync_hangs w h no_desync = ground arith

module _ {C T E : Type 0} where
  -- What a receive gets without regard to the log: the oldest message of some buffered queue, which
  -- alone is taken, or, with nothing buffered, the answer `o` of the real channel.
  abbrev pub Salvages :
      Endpoint C T → Result (DetMessage T) E → C → Result T E → Endpoint C T → Type 0
  Salvages r o c' x r' =
      (((i : DetThreadId) → queue r.buffer i ≡ [])
        × (x ≡ message o)
        × (r' ≡ record r { channel = c' }))
      ⊎ ((k : DetThreadId) × (v : T) × (x ≡ ok v)
          × (r'.channel ≡ r.channel)
          × ((i : DetThreadId)
              → queue r.buffer i ≡ (if k == i then v ∷ queue r'.buffer i else queue r'.buffer i)))

module _ {Q C T E : Type 0} where
  -- Under KeepGoing, where the real channel answers, the program is marked and its sleepers are
  -- woken up; the receive gets the oldest message of some buffered queue, which alone is taken, and
  -- turns to the real channel only when nothing is buffered.
  pub handle_desync-keep_going :
      (e : DesyncError) (f : C → Call Q (Result (DetMessage T) E × C)) (r : Endpoint C T)
      (w : World Q) (o : Result (DetMessage T) E) (c' : C)
      → IsAwake w
      → w.desync_mode ≡ keep_going
      → IsDistinct (keys r.buffer)
      → f r.channel (desynced w) ≡ returns ((o, c'), desynced w)
      → (x : Result T E) × (r' : Endpoint C T) × (handle_desync e f r w
          ≡ returns ((x, r'), desynced w))
        × Salvages r o c' x r'
  unfolding handle_desync
  handle_desync-keep_going e f r w o c' awake mode distinct p =
      elim (pop_any-PopsAny r.buffer distinct) [
        | inl (empty, q) ↦ (
          message o,
          record r { channel = c' },
          ground (arith, mark_program_as_desynced_lem w awake, q, p),
          inl (empty, refl, refl),
        )
        | inr (k, v, buffer, q, head, others) ↦ (
          ok v,
          record r { buffer = buffer },
          ground (arith, mark_program_as_desynced_lem w awake, q),
          inr (k, v, refl, refl, λ i. ground (arith, id_beq_iff k i, head, others i)),
        )
      ]
