-- ===== src/System/Turns.antt =====
-- One replayed turn of a system, at a send or a receive that the log has next.
use rr_channel.Prelude.{
  ℕ, ◌+◌, ◌<◌, ◌≤◌, ◌≡◌, refl, sym, ap, ◌∙◌, inl, inr, false, some, List, [], ◌∷◌, ◌++◌, map, ok,
  Result, returns, length, arith, subst, ◌==◌, nat_eq, nat_beq_iff, if◌then◌else◌, Bool-cases,
  ◌>>=◌, length-append,
}
use rr_channel.Prelude.Map.Queues.{queue}
use mathlib.Core.List.{append_assoc, append-nil}
use rr_channel.DetThread.Id.{DetThreadId, id_eq}
use rr_channel.Event.{crossbeam_sender, RecvError}
use rr_channel.RecordLog.{RecordEntry, RecordMetadata, LogQueue}
use rr_channel.World.{World, replay_mode}
use rr_channel.Recorder.{entry_of}
use rr_channel.Recorder.Laws.{rest, LogLeft}
use rr_channel.Desync.{DetMessage, Endpoint}
use rr_channel.Rr.Pending.{from}
use rr_channel.Channel.{RealReceiver, RealSender}
use rr_channel.Channel.Sends.{send_with-replay}
use rr_channel.Channel.Steps.{recv_with-replay_ok}
use rr_channel.Crossbeam.{ChannelKind, send, send_impl, check_sender}
use rr_channel.Crossbeam.Fifo.{
  IsFifoChannel, IsMessages, kind_arrivals, poll_fifo, recv_variants-Recognises,
}
use rr_channel.Crossbeam.Receive.{recv, recv_variants, kind_recv, replay_recv}
use rr_channel.Crossbeam.Replay.{waiting}
use rr_channel.System.{Program, sending, receiving, System, update, world_of, after_call, take_turn}
use rr_channel.System.Machine.{Act, sends, receives, Machine, set_to_do, set_queued}
use rr_channel.System.Follows.{entry_for, IsLinked, Simulates, Simulates-after}

pub from-append :
    {T : Type 0} (s : DetThreadId) (l ms : List (DetMessage T))
    → from s (l ++ ms) ≡ from s l ++ from s ms
unfolding from
from-append s [] ms = refl
from-append s ((j, m) ∷ l) ms = elim (Bool-cases (j == s)) [
  | inl h ↦ rw h (ap (◌∷◌ m) (from-append s l ms))
  | inr h ↦ rw h (from-append s l ms)
]

module _ {A C T : Type 0} {real : RealReceiver C (DetMessage T)} (fifo : IsFifoChannel real)
    (ids : ℕ → DetThreadId) (distinct : (i j : ℕ) → (ids i == ids j) ≡ (i == j)) where
  -- The queues after a send of thread `i`.
  waiting-send :
      (r : Endpoint (ChannelKind A C) T) (k' : ChannelKind A C) (i j : ℕ) (v : T)
      → kind_arrivals fifo k' ≡ kind_arrivals fifo r.channel ++ (ids i, v) ∷ []
      → waiting fifo (record r { channel = k' }) (ids j)
        ≡ waiting fifo r (ids j) ++ (if i == j then v ∷ [] else [])
  unfolding from
  waiting-send r k' i j v a =
      rw (a, from-append (ids j) (kind_arrivals fifo r.channel) ((ids i, v) ∷ []), distinct i j)
        (sym
          (append_assoc (queue r.buffer (ids j)) (from (ids j) (kind_arrivals fifo r.channel)) _))

module _ {Q A C T : Type 0} ⦃q : LogQueue Q⦄ (timer : RealReceiver A T)
    (real : RealReceiver C (DetMessage T)) (real_send : RealSender (ChannelKind A C) (DetMessage T))
    (fifo : IsFifoChannel real) (linked : IsLinked fifo real_send) (fuel : ℕ)
    (ids : ℕ → DetThreadId) (md : ℕ → RecordMetadata)
    (distinct : (i j : ℕ) → (ids i == ids j) ≡ (i == j)) where
  -- A thread that has something to do has it in its log.
  left_to_do :
      (s : System Q A C T) (m : Machine T) (turns i : ℕ) (a : Act T) (acts : List (Act T))
      → Simulates fifo fuel ids md s m turns
      → m.to_do i ≡ a ∷ acts
      → LogLeft (world_of s i) (entry_for ids md a ∷ map (entry_for ids md) acts)
  left_to_do s m turns i a acts sim t = elim (sim.logs i) [
    | inl e ↦ cc (sym t ∙ e)
    | inr l ↦ subst (λ l. LogLeft (world_of s i) (map (entry_for ids md) l)) t l
  ]

  send-replayed :
      (s : System Q A C T) (i c : ℕ) (v : T) (es : List RecordEntry) (k' : ChannelKind A C)
      → s.shared.desync ≡ false
      → (s.threads i).det_id ≡ some (ids i)
      → LogLeft (world_of s i) (entry_of crossbeam_sender (md c) ∷ es)
      → real_send.send (ids i, v) (s.channels c).channel ≡ returns (ok tt, k')
      → (w' : World Q) × (send real_send v
            (record { sender = (s.channels c).channel; metadata = md c; mode = replay_mode })
            (world_of s i)
          ≡ returns ((ok tt, record { sender = k'; metadata = md c; mode = replay_mode }), w'))
        × LogLeft w' es
        × (rest w' ≡ rest (world_of s i))
  unfolding send send_impl check_sender
  send-replayed s i c v es k' synced named l p =
      let (w', e, l', same) =
        send_with-replay (send_impl real_send) (md c) v (s.channels c).channel k' (ok tt) (ids i)
          (world_of s i) es synced named (λ u. refl) l (λ u. rw (p, ◌>>=◌) refl) in
      (w', rw (e, ◌>>=◌) refl, l', same)

  pub turn-sends :
      (s : System Q A C T) (m : Machine T) (turns i c : ℕ) (v : T) (acts : List (Act T))
      (k : Result (Unit {0}) T → Program T)
      → Simulates fifo fuel ids md s m (turns + 1)
      → m.to_do i ≡ sends c v ∷ acts
      → (s' : System Q A C T) × (take_turn timer real real_send fuel md replay_mode i
            (sending c v k)
            s
          ≡ returns s')
        × Simulates fifo fuel ids md s'
            (record {
              to_do = set_to_do m.to_do i acts;
              queued = set_queued m.queued c i (m.queued c i ++ v ∷ []);
            })
            turns
        × (s'.programs ≡ update s.programs i (k (ok tt)))
  unfolding take_turn
  turn-sends s m turns i c v acts k sim t =
      let (k', p, carries, a) =
        linked.on_send (s.channels c).channel (ids i, v) (sim.carries_messages c) in
      let (w', e, l, same) =
        send-replayed s i c v (map (entry_for ids md) acts) k' sim.synced (sim.named i)
          (left_to_do s m (turns + 1) i (sends c v) acts sim t) p in
      let e' : Endpoint (ChannelKind A C) T = record (s.channels c) { channel = k' } in
      let queues : (j : ℕ)
          → waiting fifo e' (ids j) ≡ m.queued c j ++ (if i == j then v ∷ [] else []) =
        λ j.
          waiting-send fifo ids distinct (s.channels c) k' i j v a
          ∙ ap (λ l. l ++ (if i == j then v ∷ [] else [])) (sim.in_line c j) in
      (
        after_call s i c w' (k (ok tt)) e',
        rw (e, take_turn) refl,
        Simulates-after fifo fuel ids md distinct s m turns sim i acts w' same (inr l) c i _
            (k (ok tt)) e' carries
            (omega (
              arith,
              sim.within_fuel c,
              ap length a,
              length-append (kind_arrivals fifo (s.channels c).channel) ((ids i, v) ∷ []),
            ))
            (queues i ∙ rw ((nat_beq_iff i i).1 refl) refl)
            (λ j ne. queues j ∙ rw ne (append-nil (m.queued c j))),
        refl,
      )

  receive-replayed :
      (s : System Q A C T) (i c : ℕ) (sent_by : DetThreadId) (v : T) (l : List T)
      (es : List RecordEntry)
      → LogLeft (world_of s i) (entry_of (recv_variants.succ_event sent_by) (md c) ∷ es)
      → IsMessages (s.channels c).channel
      → length (kind_arrivals fifo (s.channels c).channel) < fuel
      → waiting fifo (s.channels c) sent_by ≡ v ∷ l
      → (r' : Endpoint (ChannelKind A C) T) × (w' : World Q) × (recv timer real fuel
            (record { endpoint = s.channels c; metadata = md c; mode = replay_mode })
            (world_of s i)
          ≡ returns ((ok v, record { endpoint = r'; metadata = md c; mode = replay_mode }), w'))
        × LogLeft w' es
        × (rest w' ≡ rest (world_of s i))
        × IsMessages r'.channel
        × (length (kind_arrivals fifo r'.channel)
            ≤ length (kind_arrivals fifo (s.channels c).channel))
        × (waiting fifo r' sent_by ≡ l)
        × ((j : DetThreadId)
            → (sent_by == j) ≡ false
            → waiting fifo r' j ≡ waiting fifo (s.channels c) j)
  unfolding recv replay_recv
  receive-replayed s i c sent_by v l es left carries lt have =
      let (r', w', e, left', same, carries', le, own, others) =
        recv_with-replay_ok recv_variants (poll_fifo timer real fifo) fuel (md c)
          (kind_recv timer real) (s.channels c) (world_of s i) sent_by v l es
          recv_variants-Recognises left carries lt have in
      (r', w', rw (e, ◌>>=◌) refl, left', same, carries', le, own, others)

  pub turn-receives :
      (s : System Q A C T) (m : Machine T) (turns i c x : ℕ) (v : T) (acts : List (Act T))
      (l : List T) (k : Result T RecvError → Program T)
      → Simulates fifo fuel ids md s m (turns + 1)
      → m.to_do i ≡ receives c x v ∷ acts
      → m.queued c x ≡ v ∷ l
      → (s' : System Q A C T) × (take_turn timer real real_send fuel md replay_mode i
            (receiving c k)
            s
          ≡ returns s')
        × Simulates fifo fuel ids md s'
            (record { to_do = set_to_do m.to_do i acts; queued = set_queued m.queued c x l })
            turns
        × (s'.programs ≡ update s.programs i (k (ok v)))
  unfolding take_turn
  turn-receives s m turns i c x v acts l k sim t have =
      let (r', w', e, left, same, carries, le, own, others) =
        receive-replayed s i c (ids x) v l (map (entry_for ids md) acts)
          (left_to_do s m (turns + 1) i (receives c x v) acts sim t) (sim.carries_messages c)
          (omega (arith, sim.within_fuel c)) (sim.in_line c x ∙ have) in
      (
        after_call s i c w' (k (ok v)) r',
        rw (e, take_turn) refl,
        Simulates-after fifo fuel ids md distinct s m turns sim i acts w' same (inr left) c x l
            (k (ok v)) r' carries (omega (arith, sim.within_fuel c)) own
            (λ j ne. others (ids j) (distinct x j ∙ ne) ∙ sim.in_line c j),
        refl,
      )
