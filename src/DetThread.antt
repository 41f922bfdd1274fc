-- ===== src/DetThread.antt =====
-- detthread.rs: deterministic thread ids, their assignment, and the spawning of threads.
pub mod Id
pub mod Tls
pub mod Spawn
pub mod Builder
