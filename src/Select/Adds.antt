-- ===== src/Select/Adds.antt =====
-- crossbeam_select.rs: adding receivers to a `Select`, recorded and replayed.
use mathlib.Core.List.{append_assoc, append-nil}
use rr_channel.Prelude.{
  ℕ, suc, ◌<◌, ◌≡◌, refl, sym, subst, ◌∙◌, ap, none, some, List, [], ◌∷◌, ◌++◌, ok, returns, arith,
  ◌>>=◌, pure, ◌==◌, nat_eq, nat_beq_iff, Option-cases, inl, inr, Bool-cases,
}
use rr_channel.Prelude.Map.{Map, get, insert, get-insert}
use rr_channel.DetThread.Id.{DetThreadId}
use rr_channel.Event.{crossbeam_select_add}
use rr_channel.RecordLog.{RecordEntry, RecordMetadata, LogQueue}
use rr_channel.World.{World, Call, RrMode, record_mode, replay_mode}
use rr_channel.Checker.{check_event_mismatch}
use rr_channel.Recorder.{entry_of, check_events}
use rr_channel.Recorder.Laws.{
  rest, LogOpen, LogLeft, write_event_to_record_open, get_log_entry_some,
}
use rr_channel.Channel.Steps.{check_mismatch-entry_of}
use rr_channel.Select.{RealSelect, Select, Receivers, check_select_add, check_add, add_recv}
use rr_channel.Select.Rounds.{selecting}

-- What the documentation of the real selector promises of its indices: they count the operations.
pub record IsCounting {S O A C T : Type 0} (real_select : RealSelect S O A C T) : Type 0 where
  pub size : S → ℕ
  pub size-recv_0 : (r : ℕ) (s : S) → (real_select.recv r s).0 ≡ size s
  pub size-recv_1 : (r : ℕ) (s : S) → size (real_select.recv r s).1 ≡ suc (size s)

-- No receiver stands at an index that the selector has still to give.
abbrev pub IsNumbered : Map ℕ ℕ → ℕ → Type 0
IsNumbered m n = (i r : ℕ) → get m i ≡ some r → i < n

IsNumbered-none : (m : Map ℕ ℕ) (n : ℕ) → IsNumbered m n → get m n ≡ none
IsNumbered-none m n h = elim (Option-cases (get m n)) [
  | inl e ↦ e
  | inr (r, e) ↦ let lt : n < n = h n r e in absurd (omega arith)
]

IsNumbered-insert : (m : Map ℕ ℕ) (n r : ℕ) → IsNumbered m n → IsNumbered (insert m n r) (suc n)
IsNumbered-insert m n r h i r' e = elim (Bool-cases (n == i)) [
  | inl t ↦ omega (arith, (nat_beq_iff n i).0 t)
  | inr f ↦ let lt : i < n = h i r' (sym (get-insert m n i r ∙ rw f refl) ∙ e) in omega arith
]

-- The receivers that are added, at the indices from this one on.
abbrev pub added : Map ℕ ℕ → ℕ → List ℕ → Map ℕ ℕ
added m n [] = m
added m n (r ∷ refs) = added (insert m n r) (suc n) refs

abbrev pub counted : ℕ → List ℕ → List ℕ
counted n [] = []
counted n (r ∷ refs) = n ∷ counted (suc n) refs

-- The entries of adding these receivers.
abbrev pub add_entries : (ℕ → RecordMetadata) → ℕ → List ℕ → List RecordEntry
add_entries md n [] = []
add_entries md n (r ∷ refs) = entry_of (crossbeam_select_add n) (md r) ∷ add_entries md (suc n) refs

module _ {Q S O A C T : Type 0} ⦃q : LogQueue Q⦄ (real_select : RealSelect S O A C T) where
  -- A client that adds receivers one after the other.
  pub add_all : List ℕ → Receivers A C T → Select S → Call Q (List ℕ × Select S)
  add_all [] rs s = pure ([], s)
  add_all (r ∷ refs) rs s = do
    (index, s') ← add_recv real_select r rs s
    (indices, s'') ← add_all refs rs s'
    pure (index ∷ indices, s'')

  -- `n` is the index that the real selector gives.
  Adds : ℕ → ℕ → Receivers A C T → RrMode → S → Map ℕ ℕ → World Q → World Q → Type 0
  Adds n r rs mode s m w w' =
      get m n ≡ none
      → check_add mode n (rs r).metadata w ≡ returns (ok tt, w')
      → add_recv real_select r rs (selecting mode s m) w
        ≡ returns ((n, selecting mode (real_select.recv r s).1 (insert m n r)), w')

  at_index :
      (r : ℕ) (rs : Receivers A C T) (mode : RrMode) (s : S) (m : Map ℕ ℕ) (w w' : World Q)
      → Adds (real_select.recv r s).0 r rs mode s m w w'
  unfolding Adds add_recv check_events
  at_index r rs mode s m w w' free p = rw (free, add_recv) (rw (p, check_events) refl)

  add_recv_lem :
      (r n : ℕ) (rs : Receivers A C T) (mode : RrMode) (s : S) (m : Map ℕ ℕ) (w w' : World Q)
      → (real_select.recv r s).0 ≡ n
      → get m n ≡ none
      → check_add mode n (rs r).metadata w ≡ returns (ok tt, w')
      → add_recv real_select r rs (selecting mode s m) w
        ≡ returns ((n, selecting mode (real_select.recv r s).1 (insert m n r)), w')
  unfolding Adds
  add_recv_lem r n rs mode s m w w' i =
      subst (λ n. Adds n r rs mode s m w w') i (at_index r rs mode s m w w')

  check_add-record :
      (n : ℕ) (md : RecordMetadata) (id : DetThreadId) (w : World Q) (written : List RecordEntry)
      → LogOpen id w written
      → (w' : World Q) × (check_add record_mode n md w ≡ returns (ok tt, w'))
        × LogOpen id w' (written ++ entry_of (crossbeam_select_add n) md ∷ [])
        × (rest w' ≡ rest w)
  unfolding check_add
  check_add-record n md id w written l =
      write_event_to_record_open id w written (crossbeam_select_add n) md l

  check_add-replay :
      (n : ℕ) (md : RecordMetadata) (w : World Q) (es : List RecordEntry)
      → LogLeft w (entry_of (crossbeam_select_add n) md ∷ es)
      → (w' : World Q) × (check_add replay_mode n md w ≡ returns (ok tt, w'))
        × LogLeft w' es
        × (rest w' ≡ rest w)
  unfolding check_add check_event_mismatch check_select_add entry_of
  check_add-replay n md w es left =
      let (w', e, l, same) = get_log_entry_some w _ es left in
      (
        w',
        rw (e, ◌>>=◌)
            (rw ((nat_beq_iff n n).1 refl)
              (rw (check_mismatch-entry_of (crossbeam_select_add n) md) refl)),
        l,
        same,
      )

  module _ (counting : IsCounting real_select) where
    add_all-record :
        (refs : List ℕ) (n : ℕ) (md : ℕ → RecordMetadata) (rs : Receivers A C T) (s : S)
        (m : Map ℕ ℕ) (id : DetThreadId) (w : World Q) (written : List RecordEntry)
        → counting.size s ≡ n
        → IsNumbered m n
        → ((i : ℕ) → (rs i).metadata ≡ md i)
        → LogOpen id w written
        → (s' : S) × (w' : World Q) × (add_all refs rs (selecting record_mode s m) w
            ≡ returns ((counted n refs, selecting record_mode s' (added m n refs)), w'))
          × LogOpen id w' (written ++ add_entries md n refs)
          × (rest w' ≡ rest w)
    unfolding add_all
    add_all-record [] n md rs s m id w written size h named l = (s, w, refl, rw append-nil l, refl)
    add_all-record (r ∷ refs) n md rs s m id w written size h named l =
        let (w₁, p, l₁, same) = check_add-record n (rs r).metadata id w written l in
        let (s', w', p', l', same') =
          add_all-record refs (suc n) md rs (real_select.recv r s).1 (insert m n r) id w₁
            (written ++ entry_of (crossbeam_select_add n) (md r) ∷ [])
            (counting.size-recv_1 r s ∙ ap suc size) (IsNumbered-insert m n r h) named
            (subst (λ x. LogOpen id w₁ (written ++ entry_of (crossbeam_select_add n) x ∷ []))
              (named r) l₁) in
        (
          s',
          w',
          rw
              (
                add_recv_lem r n rs record_mode s m w w₁ (counting.size-recv_0 r s ∙ size)
                    (IsNumbered-none m n h) p,
                ◌>>=◌,
              )
              (rw (p', ◌>>=◌) refl),
          subst (LogOpen id w')
              (append_assoc written (entry_of (crossbeam_select_add n) (md r) ∷ []) _) l',
          same' ∙ same,
        )

    add_all-replay :
        (refs : List ℕ) (n : ℕ) (md : ℕ → RecordMetadata) (rs : Receivers A C T) (s : S)
        (m : Map ℕ ℕ) (w : World Q) (es : List RecordEntry)
        → counting.size s ≡ n
        → IsNumbered m n
        → ((i : ℕ) → (rs i).metadata ≡ md i)
        → LogLeft w (add_entries md n refs ++ es)
        → (s' : S) × (w' : World Q) × (add_all refs rs (selecting replay_mode s m) w
            ≡ returns ((counted n refs, selecting replay_mode s' (added m n refs)), w'))
          × LogLeft w' es
          × (rest w' ≡ rest w)
    unfolding add_all
    add_all-replay [] n md rs s m w es size h named l = (s, w, refl, l, refl)
    add_all-replay (r ∷ refs) n md rs s m w es size h named l =
        let (w₁, p, l₁, same) =
          check_add-replay n (rs r).metadata w (add_entries md (suc n) refs ++ es) (
            subst
              (λ x.
                LogLeft w (entry_of (crossbeam_select_add n) x ∷ add_entries md (suc n) refs ++ es))
              (sym (named r)) l) in
        let (s', w', p', l', same') =
          add_all-replay refs (suc n) md rs (real_select.recv r s).1 (insert m n r) w₁ es
            (counting.size-recv_1 r s ∙ ap suc size) (IsNumbered-insert m n r h) named l₁ in
        (
          s',
          w',
          rw
              (
                add_recv_lem r n rs replay_mode s m w w₁ (counting.size-recv_0 r s ∙ size)
                    (IsNumbered-none m n h) p,
                ◌>>=◌,
              )
              (rw (p', ◌>>=◌) refl),
          l',
          same' ∙ same,
        )

    -- Receivers that are added to a Select one after the other, where the real selector gives the
    -- indices from n on and nothing stands at these, get these indices while recording with the log
    -- open, one entry each, and get the same indices in a replay whose log has these entries next,
    -- which it takes.
    pub add_all-agrees :
        (refs : List ℕ) (n : ℕ) (md : ℕ → RecordMetadata) (rs rs₂ : Receivers A C T) (s s₂ : S)
        (m : Map ℕ ℕ) (id : DetThreadId) (w v : World Q) (written es : List RecordEntry)
        → counting.size s ≡ n
        → counting.size s₂ ≡ n
        → IsNumbered m n
        → ((i : ℕ) → (rs i).metadata ≡ md i)
        → ((i : ℕ) → (rs₂ i).metadata ≡ md i)
        → LogOpen id w written
        → LogLeft v (add_entries md n refs ++ es)
        → ((s' : S) × (w' : World Q) × (add_all refs rs (selecting record_mode s m) w
              ≡ returns ((counted n refs, selecting record_mode s' (added m n refs)), w'))
            × LogOpen id w' (written ++ add_entries md n refs)
            × (rest w' ≡ rest w))
          × ((s' : S) × (v' : World Q) × (add_all refs rs₂ (selecting replay_mode s₂ m) v
                ≡ returns ((counted n refs, selecting replay_mode s' (added m n refs)), v'))
              × LogLeft v' es
              × (rest v' ≡ rest v))
    add_all-agrees refs n md rs rs₂ s s₂ m id w v written es size size₂ h named named₂ l l₂ = (
      add_all-record refs n md rs s m id w written size h named l,
      add_all-replay refs n md rs₂ s₂ m v es size₂ h named₂ l₂,
    )
