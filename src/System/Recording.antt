-- ===== src/System/Recording.antt =====
-- A recording of a system, turn by turn: what each thread did, and what its log holds of it.
use rr_channel.Prelude.{
  ℕ, ◌≡◌, refl, false, List, [], ◌∷◌, ◌++◌, ok, Result, returns, hangs, nat_eq, ◌>>=◌, ap, ◌∙◌, inl,
  inr, subst, ◌==◌, nat_beq_iff, Bool-cases,
}
use rr_channel.DetThread.Id.{DetThreadId, id_eq}
use rr_channel.Event.{crossbeam_sender, RecvError}
use rr_channel.RecordLog.{RecordEntry, RecordMetadata, LogQueue}
use rr_channel.World.{World, record_mode}
use rr_channel.Recorder.{entry_of}
use rr_channel.Recorder.Laws.{rest, LogOpen, Rest}
use rr_channel.Desync.{DetMessage}
use rr_channel.Channel.{RealReceiver, RealSender, recv_with, impl_recvrr}
use rr_channel.Channel.Sends.{send_with-record, LogOpen-det_id}
use rr_channel.Channel.Steps.{recv_with-record}
use rr_channel.Rr.{record_replay_recv}
use rr_channel.Crossbeam.{ChannelKind, after, bounded, never, unbounded, send, send_impl}
use rr_channel.Crossbeam.Fifo.{IsFifoChannel, IsMessages, kind_arrivals}
use rr_channel.Crossbeam.Receive.{recv, recv_variants, kind_recv, replay_recv}
use rr_channel.System.{Program, stop, sending, receiving, System, world_of, update, after_call}
use rr_channel.System.Follows.{IsLinked}
use rr_channel.Recorder.Others.{LogOpen-kept}

-- Only the owner of a channel receives from it.
abbrev pub Owns : {T : Type 0} → (ℕ → ℕ) → ℕ → Program T → Type 0
Owns owner i stop = Unit
Owns owner i (sending c v k) = (sent : Result (Unit {0}) _) → Owns owner i (k sent)
Owns owner i (receiving c k) =
    (owner c ≡ i) × ((received : Result _ RecvError) → Owns owner i (k received))

-- Every message comes from a thread of the system.
abbrev pub AreNamed : {T : Type 0} → (ℕ → DetThreadId) → List (DetMessage T) → Type 0
AreNamed ids [] = Unit
AreNamed ids ((s, v) ∷ ms) = ((j : ℕ) × (s ≡ ids j)) × AreNamed ids ms

pub AreNamed-append :
    {T : Type 0} (ids : ℕ → DetThreadId) (ms : List (DetMessage T)) (i : ℕ) (v : T)
    → AreNamed ids ms
    → AreNamed ids (ms ++ (ids i, v) ∷ [])
AreNamed-append ids [] i v h = ((i, refl), tt)
AreNamed-append ids ((s, u) ∷ ms) i v (h, hs) = (h, AreNamed-append ids ms i v hs)

module _ {A C T : Type 0} {real : RealReceiver C (DetMessage T)} (fifo : IsFifoChannel real)
    {real_send : RealSender (ChannelKind A C) (DetMessage T)} (linked : IsLinked fifo real_send)
    (timer : RealReceiver A T) {Q : Type 0} where
  pub kind_recv-message :
      (k : ChannelKind A C) (m : DetMessage T) (ms : List (DetMessage T))
      → IsMessages k
      → kind_arrivals fifo k ≡ m ∷ ms
      → (k' : ChannelKind A C) × ((w : World Q)
          → kind_recv timer real k w ≡ returns ((ok m, k'), w))
        × IsMessages k'
        × (kind_arrivals fifo k' ≡ ms)
  unfolding kind_recv
  kind_recv-message (after _) m ms r a = absurd r
  kind_recv-message (bounded c) m ms r a =
      let (c', p, b) = linked.on_recv c m ms a in (bounded c', λ w. rw p, tt, b)
  kind_recv-message (never c) m ms r a =
      let (c', p, b) = linked.on_recv c m ms a in (never c', λ w. rw p, tt, b)
  kind_recv-message (unbounded c) m ms r a =
      let (c', p, b) = linked.on_recv c m ms a in (unbounded c', λ w. rw p, tt, b)

  pub kind_recv-hangs :
      (k : ChannelKind A C) (w : World Q)
      → IsMessages k
      → kind_arrivals fifo k ≡ []
      → kind_recv timer real k w ≡ hangs
  unfolding kind_recv
  kind_recv-hangs (after _) w r a = absurd r
  kind_recv-hangs (bounded c) w r a = rw (linked.on_wait c a)
  kind_recv-hangs (never c) w r a = rw (linked.on_wait c a)
  kind_recv-hangs (unbounded c) w r a = rw (linked.on_wait c a)

module _ {Q A C T : Type 0} ⦃q : LogQueue Q⦄ {real : RealReceiver C (DetMessage T)}
    (fifo : IsFifoChannel real) (ids : ℕ → DetThreadId) where
  -- The system records: each thread has its log open, with these entries.
  pub record Records (s : System Q A C T) (written : ℕ → List RecordEntry) : Type 0 where
    pub synced : s.shared.desync ≡ false
    pub logs : (i : ℕ) → LogOpen (ids i) (world_of s i) (written i)
    pub carries_messages : (c : ℕ) → IsMessages (s.channels c).channel
    pub from_threads : (c : ℕ) → AreNamed ids (kind_arrivals fifo (s.channels c).channel)

module _ {Q A C T : Type 0} ⦃q : LogQueue Q⦄ {real : RealReceiver C (DetMessage T)}
    (fifo : IsFifoChannel real) (ids : ℕ → DetThreadId)
    (distinct : (i j : ℕ) → (ids i == ids j) ≡ (i == j)) where
  -- The system after a recorded call of thread `i` on channel `c`, which logged an entry.
  pub Records-after :
      (s : System Q A C T) (written : ℕ → List RecordEntry) (i c : ℕ) (w' : World Q) (p : Program T)
      (k' : ChannelKind A C) (e : RecordEntry)
      → Records fifo ids s written
      → LogOpen (ids i) w' (written i ++ e ∷ [])
      → rest w' ≡ rest (world_of s i)
      → IsMessages k'
      → AreNamed ids (kind_arrivals fifo k')
      → Records fifo ids
          (after_call s i c w' p (record (s.channels c) { channel = k' }))
          (update written i (written i ++ e ∷ []))
  Records-after s written i c w' p k' e rec l same carries named = record {
    synced = ap (λ (r : Rest _). r.desync) same ∙ rec.synced;
    logs = λ j. elim (Bool-cases (i == j)) [
      | inl t ↦
          rw t (subst (λ j. LogOpen (ids j) w' (written i ++ e ∷ [])) ((nat_beq_iff i j).0 t) l)
      | inr f ↦ rw f (
          LogOpen-kept (ids i) (ids j) (world_of s i) w' (s.threads j) (LogOpen-det_id (rec.logs i))
            (distinct i j ∙ f) (LogOpen-det_id (rec.logs j)) same (written j) (written i ++ e ∷ [])
            l (rec.logs j))
    ];
    carries_messages = λ d. elim (Bool-cases (c == d)) [
      | inl t ↦ rw t carries
      | inr f ↦ rw f (rec.carries_messages d)
    ];
    from_threads =
        λ d. elim (Bool-cases (c == d)) [ inl t ↦ rw t named | inr f ↦ rw f (rec.from_threads d) ];
  }

module _ {Q A C T : Type 0} ⦃q : LogQueue Q⦄ (timer : RealReceiver A T)
    (real : RealReceiver C (DetMessage T)) (real_send : RealSender (ChannelKind A C) (DetMessage T))
    (fifo : IsFifoChannel real) (linked : IsLinked fifo real_send) (fuel : ℕ)
    (ids : ℕ → DetThreadId) (md : ℕ → RecordMetadata) where
  pub recv-hangs :
      (s : System Q A C T) (i c : ℕ)
      → kind_recv timer real (s.channels c).channel (world_of s i) ≡ hangs
      → recv timer real fuel
          (record { endpoint = s.channels c; metadata = md c; mode = record_mode })
          (world_of s i)
        ≡ hangs
  unfolding recv recv_with record_replay_recv impl_recvrr
  recv-hangs s i c p = rw (p, ◌>>=◌) refl

  pub send-recorded :
      (s : System Q A C T) (i c : ℕ) (v : T) (written : List RecordEntry) (k' : ChannelKind A C)
      → s.shared.desync ≡ false
      → LogOpen (ids i) (world_of s i) written
      → real_send.send (ids i, v) (s.channels c).channel ≡ returns (ok tt, k')
      → (w' : World Q) × (send real_send v
            (record { sender = (s.channels c).channel; metadata = md c; mode = record_mode })
            (world_of s i)
          ≡ returns ((ok tt, record { sender = k'; metadata = md c; mode = record_mode }), w'))
        × LogOpen (ids i) w' (written ++ entry_of crossbeam_sender (md c) ∷ [])
        × (rest w' ≡ rest (world_of s i))
  unfolding send send_impl
  send-recorded s i c v written k' synced l p =
      let (w', e, l', same) =
        send_with-record (send_impl real_send) (md c) v (s.channels c).channel k' (ok tt) (ids i)
          (world_of s i) written synced l (λ u. rw (p, ◌>>=◌) refl) in
      (w', rw (e, ◌>>=◌) refl, l', same)

  pub recv-recorded :
      (s : System Q A C T) (i c : ℕ) (m : DetMessage T) (written : List RecordEntry)
      (k' : ChannelKind A C)
      → LogOpen (ids i) (world_of s i) written
      → kind_recv timer real (s.channels c).channel (world_of s i)
        ≡ returns ((ok m, k'), world_of s i)
      → (w' : World Q) × (recv timer real fuel
            (record { endpoint = s.channels c; metadata = md c; mode = record_mode })
            (world_of s i)
          ≡ returns (
            (
              ok m.1,
              record {
                endpoint = record (s.channels c) { channel = k' };
                metadata = md c;
                mode = record_mode;
              },
            ),
            w',
          ))
        × LogOpen (ids i) w' (written ++ entry_of (recv_variants.succ_event m.0) (md c) ∷ [])
        × (rest w' ≡ rest (world_of s i))
  unfolding recv
  recv-recorded s i c m written k' l p =
      let (w', e, l', same) =
        recv_with-record recv_variants (replay_recv timer real fuel) (md c) (kind_recv timer real)
          (s.channels c) (ids i) (world_of s i) written (ok m) k' l p in
      (w', rw (e, ◌>>=◌) refl, l', same)
