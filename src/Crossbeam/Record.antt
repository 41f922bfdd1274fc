-- ===== src/Crossbeam/Record.antt =====
-- crossbeam_channel.rs: a recorded program of receives, and the log that it leaves.
use rr_channel.Prelude.{ℕ, ◌≡◌, refl, List, [], ◌∷◌, ◌++◌, map, Result, returns, ◌>>=◌}
use mathlib.Core.List.{append_assoc, append-nil}
use rr_channel.DetThread.Id.{DetThreadId}
use rr_channel.Event.{RecvError, TryRecvError, RecvTimeoutError}
use rr_channel.RecordLog.{RecordEntry, RecordMetadata, LogQueue}
use rr_channel.World.{World, RrMode, record_mode}
use rr_channel.Recorder.{entry_of}
use rr_channel.Recorder.Laws.{rest, LogOpen}
use rr_channel.Desync.{DetMessage, BufferedValues, Endpoint}
use rr_channel.Channel.{RealReceiver}
use rr_channel.Channel.Steps.{recv_with-record}
use rr_channel.Crossbeam.{ChannelKind, Receiver}
use rr_channel.Crossbeam.Receive.{
  recv, try_recv, recv_timeout, recv_variants, try_recv_variants, recv_timeout_variants, kind_recv,
  kind_try_recv, kind_recv_timeout, replay_recv,
}
use rr_channel.Crossbeam.Program.{
  Wrap, as_bounded, as_never, as_unbounded, as_kind, Answer, recv_answer, try_answer,
  timeout_answer, call, run, op_of, reply_of, event_of, entries_of, Answers, Delivers,
}

abbrev pub receiver :
    {A C T : Type 0} → RecordMetadata → RrMode → Endpoint (ChannelKind A C) T → Receiver A C T
receiver md mode r = record { endpoint = r; metadata = md; mode = mode }

abbrev pub endpoint_at :
    {A C T : Type 0} → Wrap → C → BufferedValues T → Endpoint (ChannelKind A C) T
endpoint_at k c buffer = record { buffer = buffer; channel = as_kind k c }

module _ {Q A C T : Type 0} ⦃q : LogQueue Q⦄ (timer : RealReceiver A T)
    (real : RealReceiver C (DetMessage T)) (fuel : ℕ) (md : RecordMetadata) where
  -- One method of a real receiver answers for the kind of channel around it.
  kind_recv-as_kind :
      (k : Wrap) (c c' : C) (o : Result (DetMessage T) RecvError) (w : World Q)
      → real.recv c ≡ returns (o, c')
      → kind_recv timer real (as_kind k c) w ≡ returns ((o, as_kind k c'), w)
  unfolding kind_recv
  kind_recv-as_kind as_bounded c c' o w p = rw p
  kind_recv-as_kind as_never c c' o w p = rw p
  kind_recv-as_kind as_unbounded c c' o w p = rw p

  kind_try_recv-as_kind :
      (k : Wrap) (c c' : C) (o : Result (DetMessage T) TryRecvError) (w : World Q)
      → real.try_recv c ≡ (o, c')
      → kind_try_recv timer real (as_kind k c) w ≡ returns ((o, as_kind k c'), w)
  unfolding kind_try_recv
  kind_try_recv-as_kind as_bounded c c' o w p = rw p
  kind_try_recv-as_kind as_never c c' o w p = rw p
  kind_try_recv-as_kind as_unbounded c c' o w p = rw p

  kind_recv_timeout-as_kind :
      (d : ℕ) (k : Wrap) (c c' : C) (o : Result (DetMessage T) RecvTimeoutError) (w : World Q)
      → real.recv_timeout d c ≡ (o, c')
      → kind_recv_timeout timer real d (as_kind k c) w ≡ returns ((o, as_kind k c'), w)
  unfolding kind_recv_timeout
  kind_recv_timeout-as_kind d as_bounded c c' o w p = rw p
  kind_recv_timeout-as_kind d as_never c c' o w p = rw p
  kind_recv_timeout-as_kind d as_unbounded c c' o w p = rw p

  call-record :
      (k : Wrap) (buffer : BufferedValues T) (c c' : C) (a : Answer T) (id : DetThreadId)
      (w : World Q) (written : List RecordEntry)
      → LogOpen id w written
      → Answers real c a c'
      → (w' : World Q) × (call timer real fuel
            (op_of a)
            (receiver md record_mode (endpoint_at k c buffer))
            w
          ≡ returns ((reply_of a, receiver md record_mode (endpoint_at k c' buffer)), w'))
        × LogOpen id w' (written ++ entry_of (event_of a) md ∷ [])
        × (rest w' ≡ rest w)
  unfolding call recv try_recv recv_timeout
  call-record k buffer c c' (recv_answer o) id w written l p =
      let (w', e, l', s) =
        recv_with-record recv_variants (replay_recv timer real fuel) md (kind_recv timer real)
          (endpoint_at k c buffer) id w written o (as_kind k c') l
          (kind_recv-as_kind k c c' o w p) in
      (w', rw (e, ◌>>=◌), l', s)
  call-record k buffer c c' (try_answer o) id w written l p =
      let (w', e, l', s) =
        recv_with-record try_recv_variants (replay_recv timer real fuel) md
          (kind_try_recv timer real) (endpoint_at k c buffer) id w written o (as_kind k c') l
          (kind_try_recv-as_kind k c c' o w p) in
      (w', rw (e, ◌>>=◌), l', s)
  call-record k buffer c c' (timeout_answer d o) id w written l p =
      let (w', e, l', s) =
        recv_with-record recv_timeout_variants (replay_recv timer real fuel) md
          (kind_recv_timeout timer real d) (endpoint_at k c buffer) id w written o (as_kind k c') l
          (kind_recv_timeout-as_kind d k c c' o w p) in
      (w', rw (e, ◌>>=◌), l', s)

  -- A recorded program of receives, in a thread whose log is open and while the real channel
  -- answers every call, gets these answers, and its log has one more entry for each call, in order.
  pub run-record :
      (k : Wrap) (buffer : BufferedValues T) (c : C) (answers : List (Answer T)) (id : DetThreadId)
      (w : World Q) (written : List RecordEntry)
      → LogOpen id w written
      → Delivers real c answers
      → (w' : World Q) × (c' : C) × (run timer real fuel
            (map op_of answers)
            (receiver md record_mode (endpoint_at k c buffer))
            w
          ≡ returns ((map reply_of answers, receiver md record_mode (endpoint_at k c' buffer)), w'))
        × LogOpen id w' (written ++ entries_of md answers)
  unfolding run
  run-record k buffer c [] id w written l _ = (w, c, refl, rw append-nil l)
  run-record k buffer c (a ∷ answers) id w written l (c₁, p, ps) =
      let (w₁, e, l₁, _) = call-record k buffer c c₁ a id w written l p in
      let (w', c', e', l') =
        run-record k buffer c₁ answers id w₁ (written ++ entry_of (event_of a) md ∷ []) l₁ ps in
      (w', c', rw (e, ◌>>=◌) (rw (e', ◌>>=◌)), rw append_assoc at l')
