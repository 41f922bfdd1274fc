-- ===== src/Select/Desynced.antt =====
-- crossbeam_select.rs: selecting in a program that is desynchronised.
use rr_channel.Prelude.{
  ℕ, ◌≡◌, refl, sym, ap, ◌∙◌, ◌⊎◌, inl, inr, true, false, Option, none, some, [], ◌∷◌, ok, returns,
  arith, ◌>>=◌, ◌==◌, nat_eq, Bool-cases, if◌then◌else◌,
}
use rr_channel.Prelude.Map.{Map, get, keys, contains, IsDistinct, get_of_not-contains}
use rr_channel.Prelude.Map.Queues.{queue, any_entry, pop_any-PopsAny, any_entry-pop_any}
use rr_channel.DetThread.Id.{DetThreadId, id_eq, id_beq_iff}
use rr_channel.RecordLog.{LogQueue}
use rr_channel.World.{World, RrMode, keep_going}
use rr_channel.Desync.{DetMessage, Endpoint}
use rr_channel.Desync.Laws.{program_desynced_lem, already_marked}
use rr_channel.Channel.{RealReceiver}
use rr_channel.Crossbeam.{ChannelKind, Receiver}
use rr_channel.Crossbeam.Receive.{get_buffered_value}
use rr_channel.Select.{
  RealSelect, Receivers, assign, desync_buffer_entry, desync, buffered_value, find_buffered, select,
  rr_select, select_desynced,
}
use rr_channel.Select.Operation.{selected_index, rr_select_recv, recv_selected}
use rr_channel.Select.Rounds.{selecting, round}

-- Every receiver that was added has an empty buffer.
abbrev pub NothingBuffered : {A C T : Type 0} → Map ℕ ℕ → Receivers A C T → Type 0
NothingBuffered m rs = (i p : ℕ) → get m i ≡ some p → (j : DetThreadId) → queue (rs p).buffer j ≡ []

module _ {A C T : Type 0} where
  -- A receiver with a buffered message, if there is one.
  abbrev Finds : Map ℕ ℕ → Receivers A C T → Option ℕ → Type 0
  Finds m rs o =
      ((o ≡ none) × ((i p : ℕ) → get m i ≡ some p → buffered_value (rs p) ≡ false))
      ⊎ ((i : ℕ) × (p : ℕ) × (o ≡ some i) × (get m i ≡ some p) × (buffered_value (rs p) ≡ true))

  Finds-skip :
      (index r : ℕ) (m : Map ℕ ℕ) (rs : Receivers A C T) (o : Option ℕ)
      → contains index (keys m) ≡ false
      → buffered_value (rs r) ≡ false
      → Finds m rs o
      → Finds ((index, r) ∷ m) rs o
  unfolding get
  Finds-skip index r m rs o fresh e (inl (p, q)) = inl (p, λ i p' h. ground (arith, e, q i p'))
  Finds-skip index r m rs o fresh e (inr (i, p, q, g, b)) =
      inr (i, p, q, ground (arith, get_of_not-contains m index fresh), b)

  find_buffered-Finds :
      (m : Map ℕ ℕ) (rs : Receivers A C T) → IsDistinct (keys m) → Finds m rs (find_buffered m rs)
  unfolding find_buffered get
  find_buffered-Finds [] rs d = inl (refl, λ i p h. cc)
  find_buffered-Finds ((index, r) ∷ m) rs d = elim (Bool-cases (buffered_value (rs r))) [
    | inl h ↦ rw h (inr (index, r, refl, ground arith, h))
    | inr h ↦
        rw h (Finds-skip index r m rs (find_buffered m rs) d.0 h (find_buffered-Finds m rs d.1))
  ]

-- A buffered message is there to be taken.
get_buffered_value_lem :
    {C T : Type 0} (r : Endpoint C T)
    → IsDistinct (keys r.buffer)
    → any_entry r.buffer ≡ true
    → (k : DetThreadId) × (v : T) × (r' : Endpoint C T) × (get_buffered_value r ≡ (some v, r'))
      × (r'.channel ≡ r.channel)
      × ((j : DetThreadId)
          → queue r.buffer j ≡ (if k == j then v ∷ queue r'.buffer j else queue r'.buffer j))
unfolding get_buffered_value
get_buffered_value_lem r d h = elim (pop_any-PopsAny r.buffer d) [
  | inl (empty, p) ↦ cc (sym h ∙ (any_entry-pop_any r.buffer).1 p)
  | inr (k, v, buffer, p, head, others) ↦ (
    k,
    v,
    record r { buffer = buffer },
    rw (p, get_buffered_value) refl,
    refl,
    λ j. ground (arith, id_beq_iff k j, head, others j),
  )
]

nothing_buffered :
    {C T : Type 0} (r : Endpoint C T)
    → IsDistinct (keys r.buffer)
    → any_entry r.buffer ≡ false
    → (j : DetThreadId) → queue r.buffer j ≡ []
nothing_buffered r d h = elim (pop_any-PopsAny r.buffer d) [
  | inl (empty, p) ↦ empty
  | inr (k, v, buffer, p, head, others) ↦ cc (sym ((any_entry-pop_any r.buffer).0 h) ∙ p)
]

module _ {Q S O A C T : Type 0} ⦃q : LogQueue Q⦄ (timer : RealReceiver A T)
    (real : RealReceiver C (DetMessage T)) (real_select : RealSelect S O A C T) (fuel : ℕ)
    (mode : RrMode) (s : S) (m : Map ℕ ℕ) (rs : Receivers A C T) (w : World Q)
    (marked : w.desync ≡ true) (goes_on : w.desync_mode ≡ keep_going) where
  -- A round takes the oldest message of some buffered queue of some receiver, and no other.
  abbrev pub TakesBuffered : Type 0
  TakesBuffered =
      (i : ℕ) × (p : ℕ) × (k : DetThreadId) × (v : T) × (r : Receiver A C T) × (get m i ≡ some p)
      × (round timer real real_select fuel (selecting mode s m) rs w
          ≡ returns (((i, ok v), selecting mode s m, assign rs p r), w))
      × (r.channel ≡ (rs p).channel)
      × ((j : DetThreadId)
          → queue (rs p).buffer j ≡ (if k == j then v ∷ queue r.buffer j else queue r.buffer j))

  select-desynced :
      select timer real real_select fuel (selecting mode s m) rs w
      ≡ select_desynced timer real real_select fuel keep_going (selecting mode s m) rs w
  unfolding select rr_select
  select-desynced =
      rw (program_desynced_lem true w marked, ◌>>=◌)
        (ap (λ d. select_desynced timer real real_select fuel d (selecting mode s m) rs w) goes_on)

  select-buffered :
      (i : ℕ)
      → find_buffered m rs ≡ some i
      → select timer real real_select fuel (selecting mode s m) rs w
        ≡ returns ((desync_buffer_entry i, selecting mode s m, rs), w)
  unfolding select_desynced
  select-buffered i p = select-desynced ∙ rw (already_marked w marked, ◌>>=◌) (rw p refl)

  select-unbuffered :
      (o : O) (s' : S)
      → find_buffered m rs ≡ none
      → real_select.select s (λ i. (rs i).channel) ≡ returns (o, s')
      → select timer real real_select fuel (selecting mode s m) rs w
        ≡ returns ((desync o, selecting mode s' m, rs), w)
  unfolding select_desynced
  select-unbuffered o s' p e =
      select-desynced ∙ rw (already_marked w marked, ◌>>=◌) (rw p (rw e refl))

  rr_select_recv-buffered :
      (i : ℕ) (r : Receiver A C T) (v : T) (r' : Endpoint (ChannelKind A C) T)
      → get_buffered_value r.endpoint ≡ (some v, r')
      → rr_select_recv timer real real_select fuel (desync_buffer_entry i) r w
        ≡ returns ((ok (ok v), record r { endpoint = r' }), w)
  unfolding rr_select_recv
  rr_select_recv-buffered i r v r' e = rw e refl

  round-buffered :
      (i p : ℕ)
      → find_buffered m rs ≡ some i
      → get m i ≡ some p
      → buffered_value (rs p) ≡ true
      → IsDistinct (keys (rs p).buffer)
      → TakesBuffered
  unfolding round recv_selected selected_index buffered_value
  round-buffered i p found here b d =
      let (k, v, r', e, same, taken) = get_buffered_value_lem (rs p).endpoint d b in
      (
        i,
        p,
        k,
        v,
        record (rs p) { endpoint = r' },
        here,
        rw (select-buffered i found, ◌>>=◌)
            (rw here (rw (rr_select_recv-buffered i (rs p) v r' e, ◌>>=◌) refl)),
        same,
        taken,
      )

  -- Under KeepGoing, in a program that is desynchronised, where the real selector answers and no
  -- index or sender has two entries, a round of a Select takes the oldest message of some buffered
  -- queue of a receiver that was added, and nothing else; or no receiver that was added has
  -- anything buffered, and the selection is that of the real selector.
  pub round-desynced :
      (o : O) (s' : S)
      → IsDistinct (keys m)
      → ((p : ℕ) → IsDistinct (keys (rs p).buffer))
      → real_select.select s (λ i. (rs i).channel) ≡ returns (o, s')
      → TakesBuffered
        ⊎ (NothingBuffered m rs
            × (select timer real real_select fuel (selecting mode s m) rs w
                ≡ returns ((desync o, selecting mode s' m, rs), w)))
  unfolding buffered_value
  round-desynced o s' d ds e = elim (find_buffered-Finds m rs d) [
    | inl (p, none_buffered) ↦ inr (
      λ i r h. nothing_buffered (rs r).endpoint (ds r) (none_buffered i r h),
      select-unbuffered o s' p e,
    )
    | inr (i, r, p, g, b) ↦ inl (round-buffered i r p g b (ds r))
  ]
