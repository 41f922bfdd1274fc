-- ===== src/Prelude/Map.antt =====
-- A hash map as an association list in iteration order, and maps of queues.
pub mod Queues
use mathlib.Core.Path.{◌≡◌, refl}
use mathlib.Core.Bool.{Bool, true, false}
use mathlib.Core.List.{List, [], ◌∷◌, map}
use mathlib.Core.Option.{Option, none, some}
use native.Mathlib.Omega.{arith}
use rr_channel.Prelude.Tests.{PartialEq, ◌==◌, if◌then◌else◌}

abbrev pub Map {ℓ} : Type ℓ → Type ℓ → Type ℓ
Map K V = List (K × V)

abbrev pub keys {ℓ} : {K V : Type ℓ} → Map K V → List K
keys m = map (λ e. e.0) m

module _ {ℓ} {K : Type ℓ} ⦃e : PartialEq K⦄ where
  abbrev pub contains : K → List K → Bool
  contains k [] = false
  contains k (j ∷ js) = if j == k then true else contains k js

  -- No key stands twice.
  abbrev pub IsDistinct : List K → Type 0
  IsDistinct [] = Unit
  IsDistinct (j ∷ js) = (contains j js ≡ false) × IsDistinct js

module _ {ℓ} {K V : Type ℓ} ⦃e : PartialEq K⦄ where
  unfoldable pub get : Map K V → K → Option V
  get [] k = none
  get ((j, v) ∷ m) k = if j == k then some v else get m k

  -- The value of an old key is replaced where it stands.
  unfoldable pub insert : Map K V → K → V → Map K V
  insert [] k v = (k, v) ∷ []
  insert ((j, w) ∷ m) k v = if j == k then (j, v) ∷ m else (j, w) ∷ insert m k v

  unfoldable pub remove : Map K V → K → Map K V
  remove [] k = []
  remove ((j, w) ∷ m) k = if j == k then m else (j, w) ∷ remove m k

  pub get-insert :
      (m : Map K V) (k i : K) (v : V) → get (insert m k v) i ≡ (if k == i then some v else get m i)
  unfolding get insert
  get-insert [] k i v = refl
  get-insert ((j, w) ∷ m) k i v =
      ground (arith, e.test_iff j k, e.test_iff k i, e.test_iff j i, get-insert m k i v)

  pub contains-keys : (m : Map K V) (k : K) → get m k ≡ none → contains k (keys m) ≡ false
  unfolding get
  contains-keys [] k h = refl
  contains-keys ((j, w) ∷ m) k h = ground (arith, contains-keys m k)

  pub get_of_not-contains : (m : Map K V) (k : K) → contains k (keys m) ≡ false → get m k ≡ none
  unfolding get
  get_of_not-contains [] k h = refl
  get_of_not-contains ((j, w) ∷ m) k h = ground (arith, get_of_not-contains m k)

  pub get-remove :
      (m : Map K V) (k i : K)
      → IsDistinct (keys m)
      → get (remove m k) i ≡ (if k == i then none else get m i)
  unfolding get remove
  get-remove [] k i d = ground arith
  get-remove ((j, w) ∷ m) k i d = ground (
    arith,
    e.test_iff j k,
    e.test_iff k i,
    e.test_iff j i,
    get-remove m k i,
    get_of_not-contains m j,
  )

  pub get-remove_other : (m : Map K V) (k i : K) → (k == i) ≡ false → get (remove m k) i ≡ get m i
  unfolding get remove
  get-remove_other [] k i h = refl
  get-remove_other ((j, w) ∷ m) k i h =
      ground (arith, e.test_iff j k, e.test_iff k i, e.test_iff j i, get-remove_other m k i)

  contains-insert :
      (m : Map K V) (k i : K) (v : V)
      → (k == i) ≡ false
      → contains i (keys m) ≡ false
      → contains i (keys (insert m k v)) ≡ false
  unfolding insert
  contains-insert [] k i v h d = ground arith
  contains-insert ((j, w) ∷ m) k i v h d = ground (arith, contains-insert m k i v h)

  contains-remove :
      (m : Map K V) (k i : K) → contains i (keys m) ≡ false → contains i (keys (remove m k)) ≡ false
  unfolding remove
  contains-remove [] k i d = refl
  contains-remove ((j, w) ∷ m) k i d = ground (arith, contains-remove m k i)

  pub insert-IsDistinct :
      (m : Map K V) (k : K) (v : V) → IsDistinct (keys m) → IsDistinct (keys (insert m k v))
  unfolding insert
  insert-IsDistinct [] k v d = (refl, tt)
  insert-IsDistinct ((j, w) ∷ m) k v d =
      ground (
        arith,
        e.test_iff j k,
        e.test_iff k j,
        contains-insert m k j v,
        insert-IsDistinct m k v d.1,
      )

  pub remove-IsDistinct :
      (m : Map K V) (k : K) → IsDistinct (keys m) → IsDistinct (keys (remove m k))
  unfolding remove
  remove-IsDistinct [] k d = tt
  remove-IsDistinct ((j, w) ∷ m) k d =
      ground (arith, contains-remove m k j d.0, remove-IsDistinct m k d.1)
