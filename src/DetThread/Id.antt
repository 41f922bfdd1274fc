-- ===== src/DetThread/Id.antt =====
-- detthread.rs: the deterministic thread id, a path in the tree of threads in a fixed array.
pub mod Paths
use rr_channel.Prelude.{
  ℕ, suc, ◌+◌, ◌≡◌, refl, ◌↔◌, Bool, true, ◌&&◌, Option, none, some, List, [], ◌∷◌, arith,
  PartialEq, ◌==◌, ltb, nat_beq_iff, nat_eq, if◌then◌else◌, set, take, replicate, list_beq,
  list_beq_iff,
}

-- `thread_id` is `[u32; MAX_SIZE]`.
pub record DetThreadId : Type 0 where
  pub thread_id : List ℕ
  pub size : ℕ

abbrev pub max_size : ℕ
max_size = 10

-- The value that `DetThreadId::new` returns, and that `from` starts from.
abbrev pub zeroed : DetThreadId
zeroed = record { thread_id = replicate max_size 0; size = 0 }

-- `none` is the panic "Thread tree too deep".
pub extend_path : DetThreadId → ℕ → Option DetThreadId
extend_path id node =
    if ltb id.size max_size
    then some (record { thread_id = set id.thread_id id.size node; size = id.size + 1 })
    else none

extend_all : DetThreadId → List ℕ → Option DetThreadId
extend_all id [] = some id
extend_all id (e ∷ es) = elim (extend_path id e) [ none ↦ none | some id' ↦ extend_all id' es ]

-- `impl From<&[u32]> for DetThreadId`; `none` is the panic of `extend_path`.
pub from_slice : List ℕ → Option DetThreadId
unfolding extend_all extend_path
from_slice slice = extend_all zeroed slice

pub as_slice : DetThreadId → List ℕ
as_slice id = take id.size id.thread_id

-- The derived `PartialEq`: the whole arrays are compared, and the sizes.
unfoldable pub id_beq : DetThreadId → DetThreadId → Bool
id_beq a b = list_beq a.thread_id b.thread_id && (a.size == b.size)

pub id_beq_iff : (a b : DetThreadId) → (id_beq a b ≡ true) ↔ (a ≡ b)
unfolding id_beq
id_beq_iff a b = ground (arith, list_beq_iff a.thread_id b.thread_id, nat_beq_iff a.size b.size)

instance abbrev pub id_eq : PartialEq DetThreadId
id_eq = record { test = id_beq; test_iff = id_beq_iff }
