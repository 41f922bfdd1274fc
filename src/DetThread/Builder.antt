-- ===== src/DetThread/Builder.antt =====
-- detthread.rs: Builder, a wrapper of the builder of std::thread.
use rr_channel.Prelude.{ℕ, String, Result, ok, err, pure, panic, ◌>>=◌}
use rr_channel.DetThread.Id.{DetThreadId}
use rr_channel.DetThread.Spawn.{spawn}
use rr_channel.RecordLog.{LogQueue}
use rr_channel.World.{Call}

-- The builder of std::thread, with handles `J`; its `spawn` is given the id that the new thread
-- initialises itself with.
pub record RealBuilder (Q B J : Type 0) : Type 0 where
  pub new : B
  pub name : String → B → B
  pub stack_size : ℕ → B → B
  pub real_spawn : B → DetThreadId → Call Q (Result J (Unit {0}))

pub record Builder (B : Type 0) : Type 0 where
  pub builder : B

module _ {Q B J : Type 0} (real : RealBuilder Q B J) where
  pub new_builder : Builder B
  new_builder = record { builder = real.new }

  unfoldable pub builder_name : String → Builder B → Builder B
  builder_name name b = record { builder = real.name name b.builder }

  unfoldable pub builder_stack_size : ℕ → Builder B → Builder B
  builder_stack_size size b = record { builder = real.stack_size size b.builder }

  module _ ⦃q : LogQueue Q⦄ where
    pub builder_spawn : Builder B → Call Q (Result J (Unit {0}))
    builder_spawn b = spawn (real.real_spawn b.builder)

    -- `detthread::spawn`; the `panic` is its `unwrap`.
    unfoldable pub spawn_thread : Call Q J
    unfolding new_builder builder_spawn
    spawn_thread = do
      handle ← builder_spawn new_builder
      elim handle [ ok h ↦ pure h | err _ ↦ panic ]
