-- ===== src/Router/Laws.antt =====
-- ipc_channel/router.rs: the messages that the router hands out, and how its thread ends.
use mathlib.Core.Option
use rr_channel.Prelude.{
  ℕ, suc, ◌≡◌, refl, sym, ◌∙◌, ap, subst, false, Option, none, some, List, [], ◌∷◌, ◌++◌, Result,
  ok, err, Outcome, returns, panics, ◌>>=◌, ◌==◌, nat_eq, nat_beq_iff, if◌then◌else◌, Bool-cases,
  inl, inr,
}
use rr_channel.Prelude.Map.{Map, get, insert, get-insert}
use rr_channel.RecordLog.{LogQueue}
use rr_channel.World.{World, Call}
use rr_channel.Desync.{DetMessage}
use rr_channel.Channel.{RealReceiver, RealSender}
use rr_channel.Crossbeam.{Sender, Receiver, send}
use rr_channel.Crossbeam.Receive.{recv}
use rr_channel.Ipc.Set.{
  IpcSelectionResult, message_received, channel_closed, RealSet, IpcReceiverSet,
}
use rr_channel.Ipc.Set.Select.{select}
use rr_channel.Router.{
  RouterMsg, shutdown, Router, on_result, on_results, run, on_wakeup, on_msg, on_message,
}

module _ {M H : Type 0} (step : M → H → H) where
  -- What becomes of the handler `i` by the messages among the results that are for it, in order.
  abbrev pub handed : ℕ → List (IpcSelectionResult M) → H → H
  handed i [] h = h
  handed i (message_received id m ∷ results) h = handed i results (if id == i then step m h else h)
  handed i (channel_closed id ∷ results) h = handed i results h

-- Every result is a message for a handler that is there.
abbrev pub AreRouted : {M H : Type 0} → ℕ → Map ℕ H → List (IpcSelectionResult M) → Type 0
AreRouted wakeup hs [] = Unit
AreRouted {H = H} wakeup hs (message_received id m ∷ results) =
    ((id == wakeup) ≡ false) × (h : H) × (get hs id ≡ some h) × AreRouted wakeup hs results
AreRouted wakeup hs (channel_closed id ∷ results) = ⊥

-- A handler that is there stays there.
AreRouted-insert :
    {M H : Type 0} (wakeup id : ℕ) (hs : Map ℕ H) (h : H) (results : List (IpcSelectionResult M))
    → AreRouted wakeup hs results
    → AreRouted wakeup (insert hs id h) results
AreRouted-insert wakeup id hs h [] a = tt
AreRouted-insert wakeup id hs h (message_received i m ∷ results) (ne, h', e, a) =
    elim (Bool-cases (id == i)) [
      | inl t ↦ (ne, h, get-insert hs id i h ∙ rw t refl, AreRouted-insert wakeup id hs h results a)
      | inr f ↦ (ne, h', get-insert hs id i h ∙ rw f e, AreRouted-insert wakeup id hs h results a)
    ]
AreRouted-insert wakeup id hs h (channel_closed i ∷ results) a = absurd a

map_same : {H : Type 0} (o : Option H) → o ≡ Option.map (λ h. h) o
map_same none = refl
map_same (some h) = refl

handed-insert :
    {M H : Type 0} (step : M → H → H) (id i : ℕ) (m : M) (h : H) (hs : Map ℕ H)
    (results : List (IpcSelectionResult M))
    → get hs id ≡ some h
    → Option.map (handed step i results) (get (insert hs id (step m h)) i)
      ≡ Option.map (handed step i (message_received id m ∷ results)) (get hs i)
handed-insert step id i m h hs results e = elim (Bool-cases (id == i)) [
  | inl t ↦
      let here : get hs i ≡ some h = subst (λ j. get hs j ≡ some h) ((nat_beq_iff id i).0 t) e in
      rw (get-insert hs id i (step m h), t, here)
        (ap (λ b. some (handed step i results (if b then step m h else h))) (sym t))
  | inr f ↦
      rw (get-insert hs id i (step m h), f)
        (ap (λ b. Option.map (λ h. handed step i results (if b then step m h else h)) (get hs i))
          (sym f))
]

-- How the thread ends once its shutdown is answered: a sender that is gone is a panic.
abbrev pub ended : {B : Type 0} → Result (Unit {0}) (Unit {0}) → B → Outcome B
ended (ok _) b = returns b
ended (err _) b = panics

module _ {Q M H : Type 0} (step : M → H → H) (touch : M → H → World Q → World Q) where
  -- The handlers and the state of the thread after the results, one handler after the other.
  abbrev pub after_handlers : List (IpcSelectionResult M) → Map ℕ H → World Q → Map ℕ H × World Q
  after_handlers [] hs w = (hs, w)
  after_handlers (message_received id m ∷ results) hs w = elim (get hs id) [
    | none ↦ (hs, w)
    | some h ↦ after_handlers results (insert hs id (step m h)) (touch m h w)
  ]
  after_handlers (channel_closed id ∷ results) hs w = (hs, w)

  get-after_handlers :
      (wakeup i : ℕ) (results : List (IpcSelectionResult M)) (hs : Map ℕ H) (w : World Q)
      → AreRouted wakeup hs results
      → get (after_handlers results hs w).0 i ≡ Option.map (handed step i results) (get hs i)
  get-after_handlers wakeup i [] hs w a = map_same (get hs i)
  get-after_handlers wakeup i (message_received id m ∷ results) hs w (ne, h, e, a) =
      rw (e, after_handlers)
        (get-after_handlers wakeup i results (insert hs id (step m h)) (touch m h w)
            (AreRouted-insert wakeup id hs (step m h) results a)
          ∙ handed-insert step id i m h hs results e)
  get-after_handlers wakeup i (channel_closed id ∷ results) hs w a = absurd a

module _ {Q A C R K D M X F H V : Type 0} ⦃q : LogQueue Q⦄ (real_set : RealSet R K D M X F)
    (timer : RealReceiver A (RouterMsg K H V))
    (real : RealReceiver C (DetMessage (RouterMsg K H V)))
    (real_ack : RealSender V (DetMessage (Unit {0}))) (handle : M → H → Call Q H) (fuel : ℕ)
    (step : M → H → H) (touch : M → H → World Q → World Q)
    (handles : (m : M) (h : H) (w : World Q) → handle m h w ≡ returns (step m h, touch m h w)) where
  on_results-routed :
      (before after : List (IpcSelectionResult M)) (r : Router A C R K D M H V) (w : World Q)
      → AreRouted r.msg_wakeup_id r.handlers before
      → let (hs, w') = after_handlers step touch before r.handlers w in
        on_results real_set timer real real_ack handle fuel (before ++ after) r w
        ≡ on_results real_set timer real real_ack handle fuel after (record r { handlers = hs }) w'
  unfolding on_results on_result on_message
  on_results-routed [] after r w a = refl
  on_results-routed (message_received id m ∷ before) after r w (ne, h, e, a) = rw ne (
      rw (e, on_message, after_handlers)
        (rw (handles m h w, ◌>>=◌)
          (on_results-routed before after (record r { handlers = insert r.handlers id (step m h) })
            (touch m h w) (AreRouted-insert r.msg_wakeup_id id r.handlers (step m h) before a))))
  on_results-routed (channel_closed id ∷ before) after r w a = absurd a

  -- What a wakeup does while a shutdown waits on the channel of messages.
  on_wakeup-shutdown :
      (sender sender' : Sender V) (msg_receiver : Receiver A C (RouterMsg K H V))
      (answer : Result (Unit {0}) (Unit {0})) (r : Router A C R K D M H V) (w w₁ w₂ : World Q)
      → recv timer real fuel r.msg_receiver w ≡ returns ((ok (shutdown sender), msg_receiver), w₁)
      → send real_ack tt sender w₁ ≡ returns ((answer, sender'), w₂)
      → on_wakeup real_set timer real real_ack handle fuel r w
        ≡ ended answer ((false, record r { msg_receiver = msg_receiver }), w₂)
  unfolding on_wakeup on_msg
  on_wakeup-shutdown sender sender' msg_receiver (ok _) r w w₁ w₂ p p' =
      rw (p, ◌>>=◌) (rw (p', ◌>>=◌) refl)
  on_wakeup-shutdown sender sender' msg_receiver (err _) r w w₁ w₂ p p' =
      rw (p, ◌>>=◌) (rw (p', ◌>>=◌) refl)

  on_results-wakeup :
      (answer : Result (Unit {0}) (Unit {0})) (after : List (IpcSelectionResult M)) (m : M)
      (r r' : Router A C R K D M H V) (w w₂ : World Q)
      → on_wakeup real_set timer real real_ack handle fuel r w ≡ ended answer ((false, r'), w₂)
      → on_results real_set timer real real_ack handle fuel
          (message_received r.msg_wakeup_id m ∷ after)
          r
          w
        ≡ ended answer ((false, r'), w₂)
  unfolding on_results on_result
  on_results-wakeup (ok _) after m r r' w w₂ p =
      rw ((nat_beq_iff r.msg_wakeup_id r.msg_wakeup_id).1 refl) (rw (p, ◌>>=◌) refl)
  on_results-wakeup (err _) after m r r' w w₂ p =
      rw ((nat_beq_iff r.msg_wakeup_id r.msg_wakeup_id).1 refl) (rw (p, ◌>>=◌) refl)

  run-ended :
      (rounds : ℕ) (answer : Result (Unit {0}) (Unit {0})) (results : List (IpcSelectionResult M))
      (r r' : Router A C R K D M H V) (set : IpcReceiverSet R K D M) (w w₁ w₂ : World Q)
      → select real_set fuel r.ipc_receiver_set w ≡ returns ((ok results, set), w₁)
      → on_results real_set timer real real_ack handle fuel results
          (record r { ipc_receiver_set = set })
          w₁
        ≡ ended answer ((false, r'), w₂)
      → run real_set timer real real_ack handle fuel (suc rounds) r w ≡ ended answer (r', w₂)
  unfolding run
  run-ended rounds (ok _) results r r' set w w₁ w₂ p p' = rw (p, ◌>>=◌) (rw (p', ◌>>=◌) refl)
  run-ended rounds (err _) results r r' set w w₁ w₂ p p' = rw (p, ◌>>=◌) (rw (p', ◌>>=◌) refl)

  -- When the handlers return, the real set answers with messages for handlers that are there and
  -- then a wakeup, and the channel of messages then gives a shutdown, the router sends the
  -- acknowledgement and its loop ends with this round: if that was sent, in the state of the thread
  -- that the sending left, and with a panic if it could not be sent. Each handler has been called
  -- on exactly its messages before the wakeup, in order, and the results behind it are not looked
  -- at.
  pub run-shutdown :
      (rounds : ℕ) (before after : List (IpcSelectionResult M)) (m : M) (r : Router A C R K D M H V)
      (set : IpcReceiverSet R K D M) (sender sender' : Sender V)
      (msg_receiver : Receiver A C (RouterMsg K H V)) (answer : Result (Unit {0}) (Unit {0}))
      (w w₁ u₁ u₂ : World Q)
      → select real_set fuel r.ipc_receiver_set w
        ≡ returns ((ok (before ++ message_received r.msg_wakeup_id m ∷ after), set), w₁)
      → AreRouted r.msg_wakeup_id r.handlers before
      → recv timer real fuel r.msg_receiver (after_handlers step touch before r.handlers w₁).1
        ≡ returns ((ok (shutdown sender), msg_receiver), u₁)
      → send real_ack tt sender u₁ ≡ returns ((answer, sender'), u₂)
      → let hs = (after_handlers step touch before r.handlers w₁).0 in
        (run real_set timer real real_ack handle fuel (suc rounds) r w
          ≡ ended answer
              (record r { ipc_receiver_set = set; handlers = hs; msg_receiver = msg_receiver }, u₂))
        × ((i : ℕ) → get hs i ≡ Option.map (handed step i before) (get r.handlers i))
  run-shutdown rounds before after m r set sender sender' msg_receiver answer w w₁ u₁ u₂ p routed a
        b =
      let r₁ : Router A C R K D M H V = record r { ipc_receiver_set = set } in
      let (hs, w₂) = after_handlers step touch before r.handlers w₁ in
      let r₂ : Router A C R K D M H V = record r₁ { handlers = hs } in
      (
        run-ended rounds answer (before ++ message_received r.msg_wakeup_id m ∷ after) r
            (record r₂ { msg_receiver = msg_receiver }) set w w₁ u₂ p
            (on_results-routed before (message_received r.msg_wakeup_id m ∷ after) r₁ w₁ routed
              ∙ on_results-wakeup answer after m r₂ (record r₂ { msg_receiver = msg_receiver }) w₂
                  u₂ (on_wakeup-shutdown sender sender' msg_receiver answer r₂ w₂ u₁ u₂ a b)),
        λ i. get-after_handlers step touch r.msg_wakeup_id i before r.handlers w₁ routed,
      )
