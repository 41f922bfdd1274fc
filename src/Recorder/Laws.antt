-- ===== src/Recorder/Laws.antt =====
-- lib.rs: what a thread has written to its log, and what it still has to read.
use rr_channel.Prelude.{
  ◌≡◌, refl, sym, ap, ◌∙◌, Bool, false, Bool-cases, inl, inr, if◌then◌else◌, ◌==◌, Option, none,
  some, List, [], ◌∷◌, ◌++◌, arith, ok, err, returns,
}
use mathlib.Core.Path.{fun_ext}
use rr_channel.Prelude.Map.{get, insert, remove, get-insert, get-remove_other, insert-IsDistinct}
use rr_channel.DetThread.Id.{DetThreadId, id_eq, id_beq_iff}
use rr_channel.DetThread.Tls.{next_u32, get_det_id}
use rr_channel.Event.{TivoEvent}
use rr_channel.Error.{no_entry_in_log, cannot_write_event_to_log}
use rr_channel.RecordLog.{
  RecordEntry, RecordMetadata, LogQueue, GlobalRecorder, GlobalReplayer, add_receiver, take_entry,
}
use rr_channel.RecordLog.Laws.{IsRecorder}
use rr_channel.World.{World, RrMode, DesyncMode}
use rr_channel.Recorder.{get_log_entry, write_event_to_record, entry_of}

-- What a map holds under the keys of the other threads.
abbrev pub others :
    {V : Type 0} → Option DetThreadId → (DetThreadId → Option V) → DetThreadId → Option V
others none f i = f i
others (some id) f i = if id == i then none else f i

abbrev pub receiver_of : {Q : Type 0} → Option (GlobalRecorder Q) → DetThreadId → Option Q
receiver_of none i = none
receiver_of (some g) i = get g.recorder i

-- What a thread's calls see of the world beside its log, and the logs of the other threads.
pub record Rest (Q : Type 0) : Type 0 where
  pub desync : Bool
  pub parked_threads_started : Bool
  pub others_desync : Bool
  pub rr_mode : Option RrMode
  pub desync_mode : DesyncMode
  pub thread_initialized : Bool
  pub det_id : Option DetThreadId
  pub other_logs : DetThreadId → Option Q
  pub other_entries : DetThreadId → Option (List RecordEntry)

abbrev pub rest : {Q : Type 0} → World Q → Rest Q
rest w = record {
  desync = w.desync;
  parked_threads_started = w.parked_threads_started;
  others_desync = w.others_desync;
  rr_mode = w.rr_mode;
  desync_mode = w.desync_mode;
  thread_initialized = w.thread_initialized;
  det_id = w.det_id;
  other_logs = others w.det_id (receiver_of w.recorder);
  other_entries = others w.det_id (get w.replayer.replayer);
}

-- A thread that changes nothing but its own log changes nothing of the rest.
same_rest :
    {Q : Type 0} (w : World Q) (logs : DetThreadId → Option Q)
    (entries : DetThreadId → Option (List RecordEntry))
    → ((i : DetThreadId) → logs i ≡ (rest w).other_logs i)
    → ((i : DetThreadId) → entries i ≡ (rest w).other_entries i)
    → record (rest w) { other_logs = logs; other_entries = entries } ≡ rest w
same_rest w logs entries p q =
    let logs_same : logs ≡ (rest w).other_logs = fun_ext p in
    let entries_same : entries ≡ (rest w).other_entries = fun_ext q in
    rw (logs_same, entries_same) refl

others_cong :
    {V : Type 0} (own : Option DetThreadId) (id : DetThreadId) (f g : DetThreadId → Option V)
    → own ≡ some id
    → ((i : DetThreadId) → (id == i) ≡ false → f i ≡ g i)
    → (i : DetThreadId) → others own f i ≡ others own g i
others_cong own id f g d h i =
    rw d (elim (Bool-cases (id == i)) [ inl t ↦ rw t refl | inr ne ↦ rw ne (h i ne) ])

module _ {Q : Type 0} ⦃q : LogQueue Q⦄ where
  -- The log of the thread `id` is open, with these entries in it: either its sender is connected
  -- to a receiver that the recorder holds, or nothing was written yet and the first write will
  -- connect.
  pub data LogOpen (id : DetThreadId) (w : World Q) (written : List RecordEntry) : Type 0 where
    connected :
        (g : GlobalRecorder Q) (r : Q)
        → w.det_id ≡ some id
        → w.event_sender ≡ some id
        → w.recorder ≡ some g
        → IsRecorder g
        → get g.recorder id ≡ some r
        → q.try_iter r ≡ written
        → LogOpen id w written
    unconnected :
        (g : GlobalRecorder Q)
        → w.det_id ≡ some id
        → w.event_sender ≡ none
        → w.recorder ≡ some g
        → IsRecorder g
        → get g.recorder id ≡ none
        → written ≡ []
        → LogOpen id w written

  -- A write to the open log of a thread succeeds and goes in at its end, and changes nothing else
  -- that calls of the thread see.
  pub write_event_to_record_open :
      (id : DetThreadId) (w : World Q) (written : List RecordEntry) (event : TivoEvent)
      (m : RecordMetadata)
      → LogOpen id w written
      → (w' : World Q) × (write_event_to_record event m w ≡ returns (ok tt, w'))
        × LogOpen id w' (written ++ entry_of event m ∷ [])
        × (rest w' ≡ rest w)
  unfolding write_event_to_record
  write_event_to_record_open id w written event m (connected g r d s p n h t) =
      let r' : Q = q.send r (entry_of event m) in
      let g' : GlobalRecorder Q = record g { recorder = insert g.recorder id r' } in
      let w' : World Q = record w {
        recorder = some g';
        thread = record w.thread { event_number = next_u32 w.event_number };
      } in
      (
        w',
        ground arith,
        connected g' r' d s refl (insert-IsDistinct g.recorder id r' n)
            (ground (arith, get-insert g.recorder id id r', id_beq_iff id id))
            (q.try_iter-send r _ ∙ ap (λ es. es ++ entry_of event m ∷ []) t),
        same_rest w _ _
            (others_cong w.det_id id (receiver_of (some g')) (receiver_of w.recorder) d
              (λ i ne. rw (p, get-insert g.recorder id i r', ne) refl))
            (λ i. refl),
      )
  write_event_to_record_open id w written event m (unconnected g d s p n h t) =
      let r₁ : Q = q.send q.unbounded (entry_of event m) in
      let m₁ = insert g.recorder id q.unbounded in
      let g₁ : GlobalRecorder Q = record g { recorder = m₁ } in
      let g' : GlobalRecorder Q = record g { recorder = insert m₁ id r₁ } in
      let w' : World Q = record w {
        recorder = some g';
        thread = record w.thread { event_number = next_u32 w.event_number; event_sender = some id };
      } in
      let added : add_receiver id q.unbounded g ≡ some g₁ =
        unfold add_receiver in rw (h, add_receiver) in
      let there : get m₁ id ≡ some q.unbounded =
        ground (arith, get-insert g.recorder id id q.unbounded, id_beq_iff id id) in
      let now : get (insert m₁ id r₁) id ≡ some r₁ =
        ground (arith, get-insert m₁ id id r₁, id_beq_iff id id) in
      let drained : q.try_iter r₁ ≡ written ++ entry_of event m ∷ [] =
        q.try_iter-send q.unbounded _
        ∙ ap (λ es. es ++ entry_of event m ∷ []) (q.try_iter-unbounded ∙ sym t) in
      (
        w',
        unfold get_det_id in ground (arith, added, there),
        connected g' r₁ d refl refl
            (insert-IsDistinct m₁ id r₁ (insert-IsDistinct g.recorder id q.unbounded n)) now
            drained,
        same_rest w _ _
            (others_cong w.det_id id (receiver_of (some g')) (receiver_of w.recorder) d (λ i ne.
              rw (p, get-insert m₁ id i r₁, ne, get-insert g.recorder id i q.unbounded, ne) refl))
            (λ i. refl),
      )

  -- Once the recorder is taken, a connected thread's write fails and reports so.
  pub write_event_to_record_closed :
      (w : World Q) (id : DetThreadId) (event : TivoEvent) (m : RecordMetadata)
      → w.event_sender ≡ some id
      → w.recorder ≡ none
      → (w' : World Q) × (write_event_to_record event m w
          ≡ returns (err cannot_write_event_to_log, w'))
        × (rest w' ≡ rest w)
  unfolding write_event_to_record
  write_event_to_record_closed w id event m s p = (
    record w { thread = record w.thread { event_number = next_u32 w.event_number } },
    ground arith,
    refl,
  )

module _ {Q : Type 0} where
  -- The entries that the thread has still to replay: those it took from the replayer, or, before
  -- its first read, those that the replayer holds for it.
  pub data LogLeft (w : World Q) (left : List RecordEntry) : Type 0 where
    reading : w.event_receiver ≡ some left → LogLeft w left
    untouched :
        (id : DetThreadId)
        → w.event_receiver ≡ none
        → w.det_id ≡ some id
        → get w.replayer.replayer id ≡ some left
        → LogLeft w left

  -- A read of a thread that has entries left takes the next one, and changes nothing else that
  -- calls of the thread see.
  pub get_log_entry_some :
      (w : World Q) (e : RecordEntry) (es : List RecordEntry)
      → LogLeft w (e ∷ es)
      → (w' : World Q) × (get_log_entry w ≡ returns (ok e, w')) × LogLeft w' es × (rest w' ≡ rest w)
  unfolding get_log_entry
  get_log_entry_some w e es (reading p) = (
    record w {
      thread = record w.thread { event_number = next_u32 w.event_number; event_receiver = some es };
    },
    ground arith,
    reading refl,
    refl,
  )
  get_log_entry_some w e es (untouched id p d h) =
      let left : GlobalReplayer = record { replayer = remove w.replayer.replayer id } in
      let taken : take_entry w.replayer id ≡ some (e ∷ es, left) =
        unfold take_entry in rw (h, take_entry) in
      (
        record w {
          replayer = left;
          thread = record w.thread {
            event_number = next_u32 w.event_number;
            event_receiver = some es;
          };
        },
        unfold get_det_id in ground (arith, taken),
        reading refl,
        same_rest w _ _ (λ i. refl)
            (others_cong w.det_id id (get left.replayer) (get w.replayer.replayer) d
              (get-remove_other w.replayer.replayer id)),
      )

  -- At the end of the log a read says so, and changes nothing else.
  pub get_log_entry_none :
      (w : World Q)
      → LogLeft w []
      → (w' : World Q) × (get_log_entry w ≡ returns (err no_entry_in_log, w'))
        × LogLeft w' []
        × (rest w' ≡ rest w)
  unfolding get_log_entry
  get_log_entry_none w (reading p) = (
    record w {
      thread = record w.thread { event_number = next_u32 w.event_number; event_receiver = some [] };
    },
    ground arith,
    reading refl,
    refl,
  )
  get_log_entry_none w (untouched id p d h) =
      let left : GlobalReplayer = record { replayer = remove w.replayer.replayer id } in
      let taken : take_entry w.replayer id ≡ some ([], left) =
        unfold take_entry in rw (h, take_entry) in
      (
        record w {
          replayer = left;
          thread = record w.thread {
            event_number = next_u32 w.event_number;
            event_receiver = some [];
          };
        },
        unfold get_det_id in ground (arith, taken),
        reading refl,
        same_rest w _ _ (λ i. refl)
            (others_cong w.det_id id (get left.replayer) (get w.replayer.replayer) d
              (get-remove_other w.replayer.replayer id)),
      )
