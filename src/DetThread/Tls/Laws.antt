-- ===== src/DetThread/Tls/Laws.antt =====
-- detthread.rs: the ids of a thread's children, of its channels, and its own.
use rr_channel.Prelude.{
  ℕ, zero, suc, ◌+◌, ◌<◌, ◌^◌, ◌≡◌, refl, true, false, none, some, List, [], ◌∷◌, ◌++◌, arith,
  length, returns, panics, pure, ◌>>=◌, ap, subst, ◌∙◌,
}
use rr_channel.DetThread.Id.{DetThreadId, max_size}
use rr_channel.DetThread.Id.Paths.{Represents, extend_path-Represents}
use rr_channel.DetThread.Tls.{
  next_u32, get_det_id, generate_new_child_id, init_foreign_thread, initialize_new_thread,
  generate_new_unique_channel_id,
}
use rr_channel.Event.{DetChannelId}
use rr_channel.World.{World, Call, DetIdSpawner}

next_u32-suc : (n : ℕ) → n + 1 < 2 ^ 32 → next_u32 n ≡ n + 1
next_u32-suc n h = omega arith

-- The ids of the children of a path, from this number on.
abbrev pub AreChildren : List ℕ → ℕ → List DetThreadId → Type 0
AreChildren path k [] = Unit
AreChildren path k (id ∷ ids) = Represents id (path ++ k ∷ []) × AreChildren path (k + 1) ids

-- The ids of the channels of a thread, from this number on.
abbrev pub counted : DetThreadId → ℕ → ℕ → List DetChannelId
counted id c zero = []
counted id c (suc n) = record { det_thread_id = id; channel_id = c } ∷ counted id (c + 1) n

module _ {Q : Type 0} where
  -- The thread at this path gives this number to its next child.
  pub data SpawnsAt (w : World Q) (path : List ℕ) (k : ℕ) : Type 0 where
    spawned :
        (s : DetIdSpawner)
        → w.det_id_spawner ≡ some s
        → s.child_index ≡ k
        → Represents s.thread_id path
        → SpawnsAt w path k
    unspawned :
        (id : DetThreadId)
        → w.det_id_spawner ≡ none
        → w.det_id ≡ some id
        → k ≡ 1
        → Represents id path
        → SpawnsAt w path k

  abbrev pub with_spawner : DetIdSpawner → World Q → World Q
  with_spawner s w = record w { thread = record w.thread { det_id_spawner = some s } }

  -- A child above the maximal depth gets the path of its parent with the next number, and only the
  -- spawner of the parent changes.
  pub generate_new_child_id-Represents :
      (w : World Q) (path : List ℕ) (k : ℕ)
      → length path < max_size
      → SpawnsAt w path k
      → (id : DetThreadId) × (s : DetIdSpawner) × (generate_new_child_id w
          ≡ returns (id, with_spawner s w))
        × Represents id (path ++ k ∷ [])
        × SpawnsAt (with_spawner s w) path (next_u32 k)
  unfolding generate_new_child_id get_det_id
  generate_new_child_id-Represents w path k deep (spawned s p q r) =
      let (id, e, r') = extend_path-Represents s.thread_id path k r deep in
      (id, record s { child_index = next_u32 k }, ground arith, r', spawned _ refl refl r)
  generate_new_child_id-Represents w path k deep (unspawned i p d q r) =
      let (id, e, r') = extend_path-Represents i path k r deep in
      let s' : DetIdSpawner = record { child_index = next_u32 k; thread_id = i } in
      (id, s', ground arith, r', spawned s' refl refl r)

  -- A thread that makes `n` children, one after the other.
  pub children : ℕ → Call Q (List DetThreadId)
  children zero = pure []
  children (suc n) = do id ← generate_new_child_id; ids ← children n; pure (id ∷ ids)

  -- The children of a thread above the maximal depth get the path of the thread with the numbers
  -- from the next one on, as long as these fit into 32 bits.
  pub children-AreChildren :
      (n : ℕ) (w : World Q) (path : List ℕ) (k : ℕ)
      → length path < max_size
      → k + n < 2 ^ 32
      → SpawnsAt w path k
      → (ids : List DetThreadId) × (w' : World Q) × (children n w ≡ returns (ids, w'))
        × (length ids ≡ n)
        × AreChildren path k ids
        × SpawnsAt w' path (k + n)
  unfolding children
  children-AreChildren zero w path k deep fits at =
      ([], w, refl, refl, tt, subst (SpawnsAt w path) (omega arith) at)
  children-AreChildren (suc n) w path k deep fits at =
      let (id, s, e, r, at₁) = generate_new_child_id-Represents w path k deep at in
      let (ids, w', e', l, rs, at') =
        children-AreChildren n (with_spawner s w) path (k + 1) deep (omega arith)
          (subst (SpawnsAt (with_spawner s w) path) (next_u32-suc k (omega arith)) at₁) in
      (
        id ∷ ids,
        w',
        rw (e, ◌>>=◌) (rw (e', ◌>>=◌) refl),
        ap suc l,
        (r, rs),
        subst (SpawnsAt w' path) (omega arith) at',
      )

  -- A thread that makes `n` channels, one after the other.
  pub channel_ids : ℕ → Call Q (List DetChannelId)
  channel_ids zero = pure []
  channel_ids (suc n) = do id ← generate_new_unique_channel_id; ids ← channel_ids n; pure (id ∷ ids)

  new_channel_id :
      (w : World Q) (id : DetThreadId) (c : ℕ)
      → w.det_id ≡ some id
      → w.next_channel_id ≡ c
      → (w' : World Q) × (generate_new_unique_channel_id w
          ≡ returns (record { det_thread_id = id; channel_id = c }, w'))
        × (w'.det_id ≡ some id)
        × (w'.next_channel_id ≡ next_u32 c)
  unfolding generate_new_unique_channel_id get_det_id
  new_channel_id w id c own next = (
    record w { thread = record w.thread { next_channel_id = next_u32 c } },
    ground arith,
    own,
    refl,
  )

  -- The channels of a thread get its id and the numbers from the next one on, as long as these fit
  -- into 32 bits.
  pub channel_ids-counted :
      (n : ℕ) (w : World Q) (id : DetThreadId) (c : ℕ)
      → w.det_id ≡ some id
      → w.next_channel_id ≡ c
      → c + n < 2 ^ 32
      → (w' : World Q) × (channel_ids n w ≡ returns (counted id c n, w'))
        × (w'.det_id ≡ some id)
        × (w'.next_channel_id ≡ c + n)
  unfolding channel_ids
  channel_ids-counted zero w id c own next fits = (w, refl, own, next ∙ omega arith)
  channel_ids-counted (suc n) w id c own next fits =
      let (w₁, e, own₁, next₁) = new_channel_id w id c own next in
      let (w', e', own', next') =
        channel_ids-counted n w₁ id (c + 1) own₁ (next₁ ∙ next_u32-suc c (omega arith))
          (omega arith) in
      (w', rw (e, ◌>>=◌) (rw (e', ◌>>=◌) refl), own', next' ∙ omega arith)

  -- A foreign thread that is not initialised takes the id that it is given; a second initialisation
  -- panics.
  pub init_foreign_thread_lem :
      (w : World Q) (id other : DetThreadId)
      → w.thread_initialized ≡ false
      → (w' : World Q) × (init_foreign_thread id w ≡ returns (tt, w'))
        × (get_det_id w' ≡ returns (id, w'))
        × (init_foreign_thread other w' ≡ panics)
  unfolding init_foreign_thread initialize_new_thread get_det_id
  init_foreign_thread_lem w id other fresh = (
    record w { thread = record w.thread { thread_initialized = true; det_id = some id } },
    ground arith,
    refl,
    refl,
  )
