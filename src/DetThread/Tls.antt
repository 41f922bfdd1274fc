-- ===== src/DetThread/Tls.antt =====
-- detthread.rs: the thread-locals of a thread's identity, and rr.rs: the ids of its channels.
pub mod Laws
use rr_channel.Prelude.{
  ℕ, ◌+◌, ◌%◌, ◌^◌, true, false, Option, none, some, if◌then◌else◌, pure, panic, gets, modify,
  ◌>>=◌, ◌>>◌,
}
use rr_channel.DetThread.Id.{DetThreadId, zeroed, extend_path}
use rr_channel.Event.{DetChannelId}
use rr_channel.World.{Thread, Call, DetIdSpawner, expect}

-- `n + 1` on a `u32` that wraps.
abbrev pub next_u32 : ℕ → ℕ
next_u32 n = (n + 1) % 2 ^ 32

-- A thread that has just started: every thread-local has its initial value.
abbrev pub fresh_thread : Thread
fresh_thread = record {
  thread_initialized = false;
  det_id = none;
  det_id_spawner = none;
  next_channel_id = 1;
  event_number = 0;
  event_receiver = none;
  event_sender = none;
}

module _ {Q : Type 0} where
  -- `DetThreadId::new`
  unfoldable pub new_det_thread_id : Call Q DetThreadId
  new_det_thread_id w = if w.thread_initialized then pure zeroed w else panic w

  abbrev set_det_id : DetThreadId → Call Q (Unit {0})
  set_det_id id = modify λ w. record w { thread = record w.thread { det_id = some id } }

  abbrev set_spawner : DetIdSpawner → Call Q (Unit {0})
  set_spawner s = modify λ w. record w { thread = record w.thread { det_id_spawner = some s } }

  force_det_id : Option DetThreadId → Call Q DetThreadId
  force_det_id (some id) = pure id
  force_det_id none = do id ← new_det_thread_id; set_det_id id; pure id

  -- The first read of DET_ID initialises it with `DetThreadId::new`.
  unfoldable pub get_det_id : Call Q DetThreadId
  unfolding force_det_id new_det_thread_id
  get_det_id w = force_det_id w.det_id w

  -- `DetIdSpawner::starting`
  unfoldable pub starting : Call Q DetIdSpawner
  starting = do id ← get_det_id; pure (record { child_index = 1; thread_id = id })

  force_spawner : Option DetIdSpawner → Call Q DetIdSpawner
  force_spawner (some s) = pure s
  force_spawner none = do s ← starting; set_spawner s; pure s

  -- `DetIdSpawner::new_child_det_id`
  new_child_det_id : DetIdSpawner → Call Q DetThreadId
  new_child_det_id s = do
    new_thread_id ← expect (extend_path s.thread_id s.child_index)
    set_spawner (record s { child_index = next_u32 s.child_index })
    pure new_thread_id

  pub generate_new_child_id : Call Q DetThreadId
  unfolding force_spawner starting new_child_det_id get_det_id
  generate_new_child_id = do s ← (λ w. force_spawner w.det_id_spawner w); new_child_det_id s

  -- DET_ID is written whether or not it was read before: a first read initialises it, which cannot
  -- fail any more, and the value is then overwritten.
  pub initialize_new_thread : DetThreadId → Call Q (Unit {0})
  unfolding get_det_id
  initialize_new_thread new_id = do
    modify (λ w. record w { thread = record w.thread { thread_initialized = true } })
    get_det_id
    set_det_id new_id

  pub init_foreign_thread : DetThreadId → Call Q (Unit {0})
  init_foreign_thread child_id w =
      if w.thread_initialized then panic w else initialize_new_thread child_id w

  -- `DetChannelId::new`, which CHANNEL_ID counts.
  unfoldable pub generate_new_unique_channel_id : Call Q DetChannelId
  generate_new_unique_channel_id = do
    channel_id ← gets (λ w. w.next_channel_id)
    modify (λ w. record w { thread = record w.thread { next_channel_id = next_u32 channel_id } })
    det_thread_id ← get_det_id
    pure (record { det_thread_id = det_thread_id; channel_id = channel_id })

  -- `DetChannelId::fake`
  unfoldable pub fake_channel_id : Call Q DetChannelId
  fake_channel_id = do id ← new_det_thread_id; pure (record { det_thread_id = id; channel_id = 0 })
