-- ===== src/System/Commute.antt =====
-- The abstract view of a replay: turns of two threads, in either order, lead to the same machine.
use rr_channel.Prelude.{
  ℕ, ◌≡◌, ◌⊎◌, sym, ap, ap₂, ◌∙◌, false, some, List, [], ◌∷◌, ◌++◌, nat_eq, ◌==◌, nat_beq_iff,
  Bool-cases, inl, inr, arith, subst,
}
use mathlib.Core.Path.{fun_ext}
use mathlib.Core.Option.{some-injective}
use rr_channel.System.Machine.{Act, sends, receives, Machine, set_to_do, set_queued, turn, IsOwned}
use rr_channel.System.Effect.{channel_of, sender_of, effect, after_act, turn-Turns, turn-after_act}

-- Two different queues.
abbrev Differ : ℕ → ℕ → ℕ → ℕ → Type 0
Differ c k d h = ((c == d) ≡ false) ⊎ ((k == h) ≡ false)

sym_beq : (i j : ℕ) → (i == j) ≡ false → (j == i) ≡ false
sym_beq i j ne = ground arith

Differ-sym : (c k d h : ℕ) → Differ c k d h → Differ d h c k
Differ-sym c k d h (inl f) = inl (sym_beq c d f)
Differ-sym c k d h (inr f) = inr (sym_beq k h f)

module _ {T : Type 0} where
  set_to_do_comm :
      (f : ℕ → List (Act T)) (i j : ℕ) (x y : List (Act T))
      → (i == j) ≡ false
      → set_to_do (set_to_do f i x) j y ≡ set_to_do (set_to_do f j y) i x
  set_to_do_comm f i j x y ne = fun_ext (λ k. ground arith)

  set_queued_comm :
      (f : ℕ → ℕ → List T) (c k d h : ℕ) (x y : List T)
      → Differ c k d h
      → set_queued (set_queued f c k x) d h y ≡ set_queued (set_queued f d h y) c k x
  set_queued_comm f c k d h x y ne = fun_ext (λ e. fun_ext (λ l. ground arith))

  -- Of two writes to one queue, the later one stays.
  set_queued-overwrite :
      (f : ℕ → ℕ → List T) (c k d h : ℕ) (x y z : List T)
      → c ≡ d
      → k ≡ h
      → set_queued (set_queued f d h y) c k z ≡ set_queued (set_queued f c k x) d h z
  set_queued-overwrite f c k d h x y z sc sk = fun_ext (λ e. fun_ext (λ l. ground arith))

  set_queued_there :
      (f : ℕ → ℕ → List T) (c k d h : ℕ) (x : List T) → c ≡ d → k ≡ h → set_queued f c k x d h ≡ x
  set_queued_there f c k d h x sc sk = ground arith

  set_queued_elsewhere :
      (f : ℕ → ℕ → List T) (c k d h : ℕ) (x : List T)
      → Differ c k d h
      → set_queued f c k x d h ≡ f d h
  set_queued_elsewhere f c k d h x ne = ground arith

  -- Two acts of different threads at one queue: the effects commute.
  effects_comm :
      (owner : ℕ → ℕ) (i j : ℕ) (a b : Act T) (q qa qb : List T)
      → (i == j) ≡ false
      → IsOwned owner i (a ∷ [])
      → IsOwned owner j (b ∷ [])
      → channel_of a ≡ channel_of b
      → sender_of i a ≡ sender_of j b
      → effect a q ≡ some qa
      → effect b q ≡ some qb
      → (r : List T) × (effect b qa ≡ some r) × (effect a qb ≡ some r)
  effects_comm owner i j (sends c v) (sends d u) q qa qb ne oa ob sc ss ea eb =
      absurd (ground (arith, nat_beq_iff i j))
  effects_comm owner i j (receives c x v) (receives d y u) q qa qb ne (oa, _) (ob, _) sc ss ea eb =
      absurd (ground (arith, nat_beq_iff i j, ap owner sc))
  effects_comm owner i j (sends c v) (receives d y u) [] qa qb ne oa ob sc ss ea eb =
      absurd (ground arith)
  effects_comm owner i j (sends c v) (receives d y u) (z ∷ q) qa qb ne oa ob sc ss ea eb = (
    q ++ v ∷ [],
    ap (effect (receives d y u)) (sym (some-injective _ qa ea)),
    ap (effect (sends c v)) (sym (some-injective _ qb eb)),
  )
  effects_comm owner i j (receives c x v) (sends d u) [] qa qb ne oa ob sc ss ea eb =
      absurd (ground arith)
  effects_comm owner i j (receives c x v) (sends d u) (z ∷ q) qa qb ne oa ob sc ss ea eb = (
    q ++ u ∷ [],
    ap (effect (sends d u)) (sym (some-injective _ qa ea)),
    ap (effect (receives c x v)) (sym (some-injective _ qb eb)),
  )

  IsOwned-first :
      (owner : ℕ → ℕ) (i : ℕ) (a : Act T) (acts : List (Act T))
      → IsOwned owner i (a ∷ acts)
      → IsOwned owner i (a ∷ [])
  IsOwned-first owner i (sends c v) acts o = tt
  IsOwned-first owner i (receives c j v) acts (o, _) = (o, tt)

  module _ (owner : ℕ → ℕ) (m : Machine T) (i j : ℕ) (ne : (i == j) ≡ false) (a b : Act T)
      (la lb : List (Act T)) (qa qb : List T) (ha : m.to_do i ≡ a ∷ la) (hb : m.to_do j ≡ b ∷ lb)
      (ea : effect a (m.queued (channel_of a) (sender_of i a)) ≡ some qa)
      (eb : effect b (m.queued (channel_of b) (sender_of j b)) ≡ some qb) where
    abbrev first_i : Machine T
    first_i = after_act m i a la qa

    abbrev first_j : Machine T
    first_j = after_act m j b lb qb

    abbrev Joined : Type 0
    Joined = (m₃ : Machine T) × (turn j first_i ≡ some m₃) × (turn i first_j ≡ some m₃)

    apart : Differ (channel_of a) (sender_of i a) (channel_of b) (sender_of j b) → Joined
    apart n = (
      after_act first_i j b lb qb,
      turn-after_act first_i j b lb qb (rw ne hb)
          (ap (effect b) (set_queued_elsewhere m.queued _ _ _ _ qa n) ∙ eb),
      turn-after_act first_j i a la qa (rw (sym_beq i j ne) ha)
            (ap (effect a) (set_queued_elsewhere m.queued _ _ _ _ qb (Differ-sym _ _ _ _ n)) ∙ ea)
          ∙ ap₂ (λ x y. some (record { to_do = x; queued = y }))
              (sym (set_to_do_comm m.to_do i j la lb ne))
              (sym (set_queued_comm m.queued _ _ _ _ qa qb n)),
    )

    together :
        IsOwned owner i (m.to_do i)
        → IsOwned owner j (m.to_do j)
        → channel_of a ≡ channel_of b
        → sender_of i a ≡ sender_of j b
        → Joined
    together oa ob sc ss =
        let (r, e, e') =
          effects_comm owner i j a b (m.queued (channel_of a) (sender_of i a)) qa qb ne
            (IsOwned-first owner i a la (subst (IsOwned owner i) ha oa))
            (IsOwned-first owner j b lb (subst (IsOwned owner j) hb ob)) sc ss ea
            (ap (effect b) (ap₂ m.queued sc ss) ∙ eb) in
        (
          after_act first_i j b lb r,
          turn-after_act first_i j b lb r (rw ne hb)
              (ap (effect b) (set_queued_there m.queued _ _ _ _ qa sc ss) ∙ e),
          turn-after_act first_j i a la r (rw (sym_beq i j ne) ha)
                (ap (effect a) (set_queued_there m.queued _ _ _ _ qb (sym sc) (sym ss)) ∙ e')
              ∙ ap₂ (λ x y. some (record { to_do = x; queued = y }))
                  (sym (set_to_do_comm m.to_do i j la lb ne))
                  (set_queued-overwrite m.queued _ _ _ _ qa qb r sc ss),
        )

    joined : IsOwned owner i (m.to_do i) → IsOwned owner j (m.to_do j) → Joined
    joined oa ob = elim (Bool-cases (channel_of a == channel_of b)) [
      | inr f ↦ apart (inl f)
      | inl f ↦ elim (Bool-cases (sender_of i a == sender_of j b)) [
        | inr g ↦ apart (inr g)
        | inl g ↦ together oa ob ((nat_beq_iff _ _).0 f) ((nat_beq_iff _ _).0 g)
      ]
    ]

  -- Turns of two threads commute, where only the owner of a channel receives from it.
  pub turns_comm :
      (owner : ℕ → ℕ) (m m₁ m₂ : Machine T) (i j : ℕ)
      → ((k : ℕ) → IsOwned owner k (m.to_do k))
      → (i == j) ≡ false
      → turn i m ≡ some m₁
      → turn j m ≡ some m₂
      → (m₃ : Machine T) × (turn j m₁ ≡ some m₃) × (turn i m₂ ≡ some m₃)
  turns_comm owner m m₁ m₂ i j owned ne p p' =
      let x = turn-Turns m m₁ i p in
      let y = turn-Turns m m₂ j p' in
      let (m₃, e, e') =
        joined owner m i j ne x.act y.act x.acts y.acts x.queue y.queue x.has y.has x.changes
          y.changes (owned i) (owned j) in
      (m₃, ap (turn j) (sym x.leads) ∙ e, ap (turn i) (sym y.leads) ∙ e')
