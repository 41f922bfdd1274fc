-- ===== src/RecordLog/Laws.antt =====
-- recordlog.rs: what the recorder collects is what the replayer hands out.
use rr_channel.Prelude.{
  String, ap, subst, inl, inr, ◌≡◌, refl, ◌∙◌, Bool, true, false, Option, none, some, List, [], ◌∷◌,
  ok, arith, ◌==◌, Option-cases, if◌then◌else◌,
}
use mathlib.Core.Option
use rr_channel.Prelude.Map.{
  Map, keys, contains, IsDistinct, get, insert, remove, get-insert, get-remove, get_of_not-contains,
  insert-IsDistinct,
}
use rr_channel.DetThread.Id.{DetThreadId, id_eq, id_beq_iff}
use rr_channel.RecordLog.{
  RecordEntry, LogQueue, Entries, GlobalRecorder, GlobalReplayer, Ron, add_receiver,
  collect_entries, get_all_entries, write_entries, flush, open_log, take_entry,
}

module _ {Q : Type 0} where
  -- No thread has two receivers.
  abbrev pub IsRecorder : GlobalRecorder Q → Type 0
  IsRecorder g = IsDistinct (keys g.recorder)

  -- Where no thread has two receivers, adding one for a thread that has none changes the entry of
  -- that thread alone and leaves no thread with two; adding a second one for it panics.
  pub add_receiver_lem :
      (id : DetThreadId) (r : Q) (g g' : GlobalRecorder Q)
      → IsRecorder g
      → add_receiver id r g ≡ some g'
      → IsRecorder g'
        × (add_receiver id r g' ≡ none)
        × ((i : DetThreadId) → get g'.recorder i ≡ (if id == i then some r else get g.recorder i))
  unfolding add_receiver
  add_receiver_lem id r g g' d h = elim (Option-cases (get g.recorder id)) [
    | inl e ↦
        let same : insert g.recorder id r ≡ g'.recorder = ground arith in
        (
          subst (λ m. IsDistinct (keys m)) same (insert-IsDistinct g.recorder id r d),
          ground (arith, get-insert g.recorder id id r, id_beq_iff id id),
          λ i. ground (arith, get-insert g.recorder id i r),
        )
    | inr (_, e) ↦ cc (rw (e, add_receiver) at h)
  ]

module _ {Q : Type 0} ⦃q : LogQueue Q⦄ where
  abbrev overlay : Map DetThreadId Q → Entries → DetThreadId → Option (List RecordEntry)
  overlay m hm id = elim (get m id) [ none ↦ get hm id | some r ↦ some (q.try_iter r) ]

  overlay-cons :
      (k : DetThreadId) (r : Q) (m : Map DetThreadId Q) (hm : Entries) (i : DetThreadId)
      → contains k (keys m) ≡ false
      → overlay m (insert hm k (q.try_iter r)) i ≡ overlay ((k, r) ∷ m) hm i
  unfolding get
  overlay-cons k r m hm i d = ground (
    arith,
    id_beq_iff k i,
    get-insert hm k i (q.try_iter r),
    get_of_not-contains m k d,
    get_of_not-contains m i,
  )

  collect_entries_lem :
      (m : Map DetThreadId Q) (hm : Entries)
      → IsDistinct (keys m)
      → ((id : DetThreadId) → contains id (keys m) ≡ true → get hm id ≡ none)
      → (hm' : Entries) × (collect_entries m hm ≡ some hm')
        × ((id : DetThreadId) → get hm' id ≡ overlay m hm id)
  unfolding collect_entries
  collect_entries_lem [] hm d free = (hm, refl, λ id. unfold get in refl)
  collect_entries_lem ((k, r) ∷ m) hm d free =
      let here : get hm k ≡ none = free k (ground (arith, id_beq_iff k k)) in
      let below : (i : DetThreadId)
          → contains i (keys m) ≡ true
          → get (insert hm k (q.try_iter r)) i ≡ none =
        λ i c. ground (arith, id_beq_iff k i, get-insert hm k i (q.try_iter r), free i) in
      let (hm', p, f) = collect_entries_lem m (insert hm k (q.try_iter r)) d.1 below in
      (hm', rw (here, collect_entries) p, λ i. f i ∙ overlay-cons k r m hm i d.0)

  -- Where no thread has two receivers, the map that is written to the log file holds, under the id
  -- of each thread, what that thread sent, in order.
  pub get_all_entries_lem :
      (g : GlobalRecorder Q)
      → IsRecorder g
      → (hm : Entries) × (get_all_entries g ≡ some hm)
        × ((id : DetThreadId) → get hm id ≡ Option.map q.try_iter (get g.recorder id))
  unfolding get_all_entries
  get_all_entries_lem g d =
      let (hm, p, f) = collect_entries_lem g.recorder [] d (λ id _. unfold get in refl) in
      (hm, p, λ id. f id ∙ unfold get in ground arith)

  module _ (ron : Ron) (writable : String → String → Bool) where
    pub flush-eq-ok :
        (g : GlobalRecorder Q) (hm : Entries) {path text : String}
        → get_all_entries g ≡ some hm
        → flush ron writable g ≡ ok (path, text)
        → ron.to_string hm ≡ some text
    unfolding flush write_entries
    flush-eq-ok g hm {path} {text} e h =
        elim hm as (λ hm. get_all_entries g ≡ some hm → ron.to_string hm ≡ some text) [
          | [] ↦ λ e. ground arith
          | x ∷ m ↦ λ e. ground arith
        ]
          e

    -- Where no thread has two receivers, a log that was flushed without an error and is read back
    -- gives a thread with a receiver the entries that it sent, in order.
    pub flush_then_replay :
        (g : GlobalRecorder Q) (read : String → Option String) (path text : String)
        (id : DetThreadId) (r : Q)
        → IsRecorder g
        → flush ron writable g ≡ ok (path, text)
        → read path ≡ some text
        → get g.recorder id ≡ some r
        → (p : GlobalReplayer) × (rest : GlobalReplayer) × (open_log ron read path ≡ some p)
          × (take_entry p id ≡ some (q.try_iter r, rest))
    unfolding open_log take_entry
    flush_then_replay g read path text id r d h disk own =
        let (hm, e, f) = get_all_entries_lem g d in
        let (hm', back, same) = ron.from_str-to_string hm text (flush-eq-ok g hm e h) in
        let found : get hm' id ≡ some (q.try_iter r) =
          same id ∙ f id ∙ ap (Option.map q.try_iter) own in
        (
          record { replayer = hm' },
          record { replayer = remove hm' id },
          rw (disk, open_log) (rw (back, open_log)),
          rw (found, take_entry),
        )

-- Where no thread stands twice in the replayer, its entries are handed out once: asking again
-- panics, and those of the other threads stay.
pub take_entry_once :
    (p rest : GlobalReplayer) (id : DetThreadId) (es : List RecordEntry)
    → IsDistinct (keys p.replayer)
    → take_entry p id ≡ some (es, rest)
    → (take_entry rest id ≡ none)
      × ((i : DetThreadId) → get rest.replayer i ≡ (if id == i then none else get p.replayer i))
unfolding take_entry
take_entry_once p rest id es d h = elim (Option-cases (get p.replayer id)) [
  | inl e ↦ cc (rw (e, take_entry) at h)
  | inr (v, e) ↦
      let same : remove p.replayer id ≡ rest.replayer = ground arith in
      (
        ground (arith, get-remove p.replayer id id d, id_beq_iff id id),
        λ i. ground (arith, get-remove p.replayer id i d),
      )
]

pub get-take_entry :
    (p rest : GlobalReplayer) (id : DetThreadId) (es : List RecordEntry)
    → take_entry p id ≡ some (es, rest)
    → get p.replayer id ≡ some es
unfolding take_entry
get-take_entry p rest id es h = ground arith
