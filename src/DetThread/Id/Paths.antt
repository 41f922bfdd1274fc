-- ===== src/DetThread/Id/Paths.antt =====
-- detthread.rs: a thread id stands for the path of child numbers from the root to the thread.
use rr_channel.Prelude.{
  ℕ, suc, ◌+◌, ◌-◌, ◌≤◌, ◌<◌, ◌≡◌, refl, sym, ap, ◌∙◌, subst, ◌↔◌, true, none, some, List, [], ◌∷◌,
  ◌++◌, arith, length, length-append, set, take, replicate, dec_lt,
}
use mathlib.Core.List.{append_assoc, append-nil}
use rr_channel.DetThread.Id.{
  DetThreadId, max_size, zeroed, extend_path, extend_all, from_slice, as_slice, id_beq, id_beq_iff,
}

-- The array holds the path and zeros behind it, and `size` is the path's length.
pub record Represents (id : DetThreadId) (path : List ℕ) : Type 0 where
  pub fits : length path ≤ max_size
  pub sized : id.size ≡ length path
  pub padded : id.thread_id ≡ path ++ replicate (max_size - length path) 0

set-append :
    (path : List ℕ) (node : ℕ) (rest : List ℕ)
    → set (path ++ 0 ∷ rest) (length path) node ≡ path ++ node ∷ rest
set-append [] node rest = refl
set-append (e ∷ path) node rest = ap (◌∷◌ e) (set-append path node rest)

take-append : (path rest : List ℕ) → take (length path) (path ++ rest) ≡ path
take-append [] rest = refl
take-append (e ∷ path) rest = ap (◌∷◌ e) (take-append path rest)

zeroed-Represents : Represents zeroed []
zeroed-Represents = record { fits = omega arith; sized = refl; padded = refl }

padding :
    (k : ℕ)
    → k < max_size
    → replicate {A = ℕ} (max_size - k) 0 ≡ 0 ∷ replicate (max_size - (k + 1)) 0
padding k h = let e : max_size - k ≡ suc (max_size - (k + 1)) = omega arith in rw e

-- An id whose path is shorter than ten is extended to the id of that path with the child number at
-- its end.
pub extend_path-Represents :
    (id : DetThreadId) (path : List ℕ) (node : ℕ)
    → Represents id path
    → length path < max_size
    → (id' : DetThreadId) × (extend_path id node ≡ some id') × Represents id' (path ++ node ∷ [])
unfolding extend_path
extend_path-Represents id path node r h = (
  record { thread_id = set id.thread_id id.size node; size = id.size + 1 },
  ground arith,
  record {
    fits = omega (arith, length-append path (node ∷ []));
    sized = omega (arith, length-append path (node ∷ []));
    padded =
        rw (r.padded, r.sized, padding (length path) h, length-append path (node ∷ []))
          (set-append path node _ ∙ sym (append_assoc path (node ∷ []) _));
  },
)

-- At the maximal depth the call panics.
pub extend_path_full :
    (id : DetThreadId) (path : List ℕ) (node : ℕ)
    → Represents id path
    → length path ≡ max_size
    → extend_path id node ≡ none
unfolding extend_path
extend_path_full id path node r h = ground arith

pub as_slice-Represents :
    (id : DetThreadId) (path : List ℕ) → Represents id path → as_slice id ≡ path
unfolding as_slice
as_slice-Represents id path r = rw (r.sized, r.padded) (take-append path _)

-- One path has one id, so the derived equality of ids is that of paths.
pub Represents-functional :
    (a b : DetThreadId) (path : List ℕ) → Represents a path → Represents b path → a ≡ b
Represents-functional a b path r s = ground (arith, r.padded, s.padded)

extend_all-Represents :
    (id : DetThreadId) (path es : List ℕ)
    → Represents id path
    → length path + length es ≤ max_size
    → (id' : DetThreadId) × (extend_all id es ≡ some id') × Represents id' (path ++ es)
unfolding extend_all
extend_all-Represents id path [] r h = (id, refl, rw append-nil r)
extend_all-Represents id path (e ∷ es) r h =
    let (id', p, r') = extend_path-Represents id path e r (omega arith) in
    let (id'', q, s) =
      extend_all-Represents id' (path ++ e ∷ []) es r'
        (omega (arith, length-append path (e ∷ []))) in
    (id'', rw (p, extend_all) q, rw (append_assoc path (e ∷ []) es) at s)

extend_all_full :
    (id : DetThreadId) (path es : List ℕ)
    → Represents id path
    → max_size < length path + length es
    → extend_all id es ≡ none
unfolding extend_all
extend_all_full id path [] r h = absurd (omega (arith, r.fits))
extend_all_full id path (e ∷ es) r h = elim (dec_lt (length path) max_size) [
  | yes lt ↦
      let (id', p, r') = extend_path-Represents id path e r lt in
      rw (p, extend_all)
        (extend_all_full id' (path ++ e ∷ []) es r' (omega (arith, length-append path (e ∷ []))))
  | no ge ↦
      let p : extend_path id e ≡ none = extend_path_full id path e r (omega (arith, r.fits)) in
      rw (p, extend_all)
]

-- From on a slice of at most ten numbers gives the id of the path that the slice is.
pub from_slice-Represents :
    (slice : List ℕ)
    → length slice ≤ max_size
    → (id : DetThreadId) × (from_slice slice ≡ some id) × Represents id slice
unfolding from_slice
from_slice-Represents slice h =
    extend_all-Represents zeroed [] slice zeroed-Represents (omega arith)

-- From on a slice of more than ten numbers panics.
pub from_slice_too_long : (slice : List ℕ) → max_size < length slice → from_slice slice ≡ none
unfolding from_slice
from_slice_too_long slice h = extend_all_full zeroed [] slice zeroed-Represents (omega arith)

-- The derived equality of two ids that stand for paths is the equality of the paths.
pub id_beq-Represents :
    (a b : DetThreadId) (p q : List ℕ)
    → Represents a p
    → Represents b q
    → (id_beq a b ≡ true) ↔ (p ≡ q)
id_beq-Represents a b p q r s = (
  λ h.
      sym (as_slice-Represents a p r)
      ∙ ap as_slice ((id_beq_iff a b).0 h)
      ∙ as_slice-Represents b q s,
  λ h. (id_beq_iff a b).1 (Represents-functional a b q (subst (Represents a) h r) s),
)
