-- ===== src/Prelude/Map/Queues.antt =====
-- Maps of queues, as the buffers of the channels are: `HashMap<K, VecDeque<T>>`.
use mathlib.Core.Path.{◌≡◌, refl, ap, subst}
use mathlib.Core.Logic.{◌↔◌, ◌⊎◌, inl, inr}
use mathlib.Core.Bool.{Bool, true, false}
use mathlib.Core.List.{List, [], ◌∷◌, ◌++◌}
use mathlib.Core.Option.{Option, none, some}
use native.Mathlib.Omega.{arith}
use rr_channel.Prelude.Tests.{PartialEq, ◌==◌, if◌then◌else◌, Bool-cases}
use rr_channel.Prelude.Map.{Map, keys, contains, IsDistinct}

module _ {ℓ} {K T : Type ℓ} ⦃e : PartialEq K⦄ where
  -- The messages under a key, oldest first; no entry counts as an empty queue.
  unfoldable pub queue : Map K (List T) → K → List T
  queue [] k = []
  queue ((j, q) ∷ m) k = if j == k then q else queue m k

  -- `m.entry(k).or_insert_with(VecDeque::new).push_back(v)`
  pub push_back : Map K (List T) → K → T → Map K (List T)
  push_back [] k v = (k, v ∷ []) ∷ []
  push_back ((j, q) ∷ m) k v = if j == k then (j, q ++ v ∷ []) ∷ m else (j, q) ∷ push_back m k v

  -- The result of `q.pop_front()`, put back in front of the entries after it.
  abbrev popped : K → List T → Map K (List T) → Option (T × Map K (List T))
  popped k [] m = none
  popped k (v ∷ q) m = some (v, (k, q) ∷ m)

  abbrev behind : K × List T → Option (T × Map K (List T)) → Option (T × Map K (List T))
  behind h none = none
  behind h (some (v, m)) = some (v, h ∷ m)

  -- `m.get_mut(k).and_then(|q| q.pop_front())`
  unfoldable pub pop_front : Map K (List T) → K → Option (T × Map K (List T))
  pop_front [] k = none
  pop_front ((j, q) ∷ m) k = if j == k then popped j q m else behind (j, q) (pop_front m k)

  -- `for q in m.values_mut() { if let Some(v) = q.pop_front() { return Some(v) } }`
  unfoldable pub pop_any : Map K (List T) → Option (T × Map K (List T))
  pop_any [] = none
  pop_any ((j, []) ∷ m) = behind (j, []) (pop_any m)
  pop_any ((j, v ∷ q) ∷ m) = some (v, (j, q) ∷ m)

  -- `for q in m.values() { if !q.is_empty() { return true } } false`
  pub any_entry : Map K (List T) → Bool
  any_entry [] = false
  any_entry ((j, []) ∷ m) = any_entry m
  any_entry ((j, v ∷ q) ∷ m) = true

  pub queue-push_back :
      (m : Map K (List T)) (k i : K) (v : T)
      → queue (push_back m k v) i ≡ (if k == i then queue m i ++ v ∷ [] else queue m i)
  unfolding queue push_back
  queue-push_back [] k i v = refl
  queue-push_back ((j, q) ∷ m) k i v =
      ground (arith, e.test_iff j k, e.test_iff k i, e.test_iff j i, queue-push_back m k i v)

  -- What popping a key does: nothing on an empty queue, else it takes the head of that queue alone.
  abbrev pub Pops : Map K (List T) → K → Option (T × Map K (List T)) → Type ℓ
  Pops m k r =
      ((queue m k ≡ []) × (r ≡ none))
      ⊎ ((v : T) × (m' : Map K (List T)) × (r ≡ some (v, m'))
          × (queue m k ≡ v ∷ queue m' k)
          × ((i : K) → (k == i) ≡ false → queue m' i ≡ queue m i))

  pop_front-hit :
      (j k : K) (q : List T) (m : Map K (List T))
      → (j == k) ≡ true
      → Pops ((j, q) ∷ m) k (popped j q m)
  unfolding queue
  pop_front-hit j k [] m h = inl (rw h, refl)
  pop_front-hit j k (v ∷ q) m h = inr (
    v,
    (j, q) ∷ m,
    refl,
    rw h,
    λ i ne. ground (arith, e.test_iff j k, e.test_iff k i, e.test_iff j i),
  )

  pop_front-miss :
      (j k : K) (q : List T) (m : Map K (List T)) (r : Option (T × Map K (List T)))
      → (j == k) ≡ false
      → Pops m k r
      → Pops ((j, q) ∷ m) k (behind (j, q) r)
  unfolding queue
  pop_front-miss j k q m r h (inl (a, b)) = inl (rw h a, rw b)
  pop_front-miss j k q m r h (inr (v, m', a, b, c)) =
      inr (v, (j, q) ∷ m', rw a, rw h b, λ i ne. ground (arith, c i ne))

  pub pop_front-Pops : (m : Map K (List T)) (k : K) → Pops m k (pop_front m k)
  unfolding pop_front
  pop_front-Pops [] k = inl (unfold queue in refl, refl)
  pop_front-Pops ((j, q) ∷ m) k = elim (Bool-cases (j == k)) [
    | inl h ↦ rw h (pop_front-hit j k q m h)
    | inr h ↦ rw h (pop_front-miss j k q m (pop_front m k) h (pop_front-Pops m k))
  ]

  queue_of_not-contains :
      (m : Map K (List T)) (k : K) → contains k (keys m) ≡ false → queue m k ≡ []
  unfolding queue
  queue_of_not-contains [] k h = refl
  queue_of_not-contains ((j, q) ∷ m) k h = ground (arith, queue_of_not-contains m k)

  -- What popping any queue does: nothing when all are empty, else it takes the head of one alone.
  abbrev pub PopsAny : Map K (List T) → Option (T × Map K (List T)) → Type ℓ
  PopsAny m r =
      (((i : K) → queue m i ≡ []) × (r ≡ none))
      ⊎ ((k : K) × (v : T) × (m' : Map K (List T)) × (r ≡ some (v, m'))
          × (queue m k ≡ v ∷ queue m' k)
          × ((i : K) → (k == i) ≡ false → queue m' i ≡ queue m i))

  pop_any-skip :
      (j : K) (m : Map K (List T)) (r : Option (T × Map K (List T)))
      → queue m j ≡ []
      → PopsAny m r
      → PopsAny ((j, []) ∷ m) (behind (j, []) r)
  unfolding queue
  pop_any-skip j m r d (inl (a, b)) = inl (λ i. ground (arith, a i), rw b)
  pop_any-skip j m r d (inr (k, v, m', a, b, c)) =
      inr (k, v, (j, []) ∷ m', rw a, ground (arith, e.test_iff j k), λ i ne. ground (arith, c i ne))

  pub pop_any-PopsAny : (m : Map K (List T)) → IsDistinct (keys m) → PopsAny m (pop_any m)
  unfolding pop_any
  pop_any-PopsAny [] d = inl (λ i. unfold queue in refl, refl)
  pop_any-PopsAny ((j, []) ∷ m) d =
      pop_any-skip j m (pop_any m) (queue_of_not-contains m j d.0) (pop_any-PopsAny m d.1)
  pop_any-PopsAny ((j, v ∷ q) ∷ m) d = inr (
    j,
    v,
    (j, q) ∷ m,
    refl,
    unfold queue in ground (arith, e.test_iff j j),
    λ i ne. unfold queue in ground arith,
  )

  contains-push_back :
      (m : Map K (List T)) (k i : K) (v : T)
      → (k == i) ≡ false
      → contains i (keys m) ≡ false
      → contains i (keys (push_back m k v)) ≡ false
  unfolding push_back
  contains-push_back [] k i v h d = ground arith
  contains-push_back ((j, q) ∷ m) k i v h d = ground (arith, contains-push_back m k i v h)

  pub push_back-IsDistinct :
      (m : Map K (List T)) (k : K) (v : T)
      → IsDistinct (keys m)
      → IsDistinct (keys (push_back m k v))
  unfolding push_back
  push_back-IsDistinct [] k v d = (refl, tt)
  push_back-IsDistinct ((j, q) ∷ m) k v d = ground (
    arith,
    e.test_iff j k,
    e.test_iff k j,
    contains-push_back m k j v,
    push_back-IsDistinct m k v d.1,
  )

  -- Popping leaves every key where it is.
  abbrev SameKeys : Map K (List T) → Option (T × Map K (List T)) → Type ℓ
  SameKeys m none = Unit
  SameKeys m (some (v, m')) = keys m' ≡ keys m

  popped-SameKeys : (k : K) (q : List T) (m : Map K (List T)) → SameKeys ((k, q) ∷ m) (popped k q m)
  popped-SameKeys k [] m = tt
  popped-SameKeys k (v ∷ q) m = refl

  behind-SameKeys :
      (h : K × List T) (m : Map K (List T)) (r : Option (T × Map K (List T)))
      → SameKeys m r
      → SameKeys (h ∷ m) (behind h r)
  behind-SameKeys h m none s = tt
  behind-SameKeys h m (some (v, m')) s = ap (◌∷◌ h.0) s

  pop_front-SameKeys : (m : Map K (List T)) (k : K) → SameKeys m (pop_front m k)
  unfolding pop_front
  pop_front-SameKeys [] k = tt
  pop_front-SameKeys ((j, q) ∷ m) k = elim (Bool-cases (j == k)) [
    | inl h ↦ rw h (popped-SameKeys j q m)
    | inr h ↦ rw h (behind-SameKeys (j, q) m (pop_front m k) (pop_front-SameKeys m k))
  ]

  pop_any-SameKeys : (m : Map K (List T)) → SameKeys m (pop_any m)
  unfolding pop_any
  pop_any-SameKeys [] = tt
  pop_any-SameKeys ((j, []) ∷ m) = behind-SameKeys (j, []) m (pop_any m) (pop_any-SameKeys m)
  pop_any-SameKeys ((j, v ∷ q) ∷ m) = refl

  pub pop_front-keys :
      (m m' : Map K (List T)) (k : K) (v : T) → pop_front m k ≡ some (v, m') → keys m' ≡ keys m
  pop_front-keys m m' k v h = subst (SameKeys m) h (pop_front-SameKeys m k)

  pub pop_any-keys : (m m' : Map K (List T)) (v : T) → pop_any m ≡ some (v, m') → keys m' ≡ keys m
  pop_any-keys m m' v h = subst (SameKeys m) h (pop_any-SameKeys m)

  behind-none :
      (h : K × List T) (m : Map K (List T)) (r : Option (T × Map K (List T)))
      → (r ≡ none)
      → behind h r ≡ none
  behind-none h m r e = rw e

  behind-some : (h : K × List T) (r : Option (T × Map K (List T))) → behind h r ≡ none → r ≡ none
  behind-some h none e = refl
  behind-some h (some (v, m)) e = cc

  -- There is a message exactly when one can be popped.
  pub any_entry-pop_any : (m : Map K (List T)) → (any_entry m ≡ false) ↔ (pop_any m ≡ none)
  unfolding any_entry pop_any
  any_entry-pop_any [] = (λ _. refl, λ _. refl)
  any_entry-pop_any ((j, []) ∷ m) = (
    λ h. behind-none (j, []) m (pop_any m) ((any_entry-pop_any m).0 h),
    λ h. (any_entry-pop_any m).1 (behind-some (j, []) (pop_any m) h),
  )
  any_entry-pop_any ((j, v ∷ q) ∷ m) = (λ h. cc, λ h. cc)
