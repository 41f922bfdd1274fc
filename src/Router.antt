-- ===== src/Router.antt =====
-- ipc_channel/router.rs: the router's thread, which waits on a receiver set and calls the handlers.
pub mod Proxy
pub mod Laws
use rr_channel.Prelude.{
  ℕ, zero, suc, Bool, true, false, none, some, List, [], ◌∷◌, Result, ok, err, Outcome, out_of_fuel,
  pure, panic, ◌>>=◌, ◌>>◌, ◌==◌, nat_eq, if◌then◌else◌,
}
use rr_channel.Prelude.Map.{Map, get, insert, remove}
use rr_channel.RecordLog.{LogQueue}
use rr_channel.World.{Call}
use rr_channel.Desync.{DetMessage}
use rr_channel.Channel.{RealReceiver, RealSender}
use rr_channel.Crossbeam.{Sender, Receiver, send}
use rr_channel.Crossbeam.Receive.{recv}
use rr_channel.Ipc.{IpcReceiver, OpaqueIpcReceiver}
use rr_channel.Ipc.Set.{
  IpcSelectionResult, message_received, channel_closed, RealSet, IpcReceiverSet, new_set, add,
  do_add,
}
use rr_channel.Ipc.Set.Select.{select}

-- `V` is the crossbeam channel that the acknowledgement of a shutdown is sent on; `H` is the state
-- of a `RouterHandler`.
pub data RouterMsg (K H V : Type 0) : Type 0 where
  add_route : OpaqueIpcReceiver K → H → RouterMsg K H V
  shutdown : Sender V → RouterMsg K H V

-- `A` and `C` are the crossbeam channels that messages to the router come on; the set is as in
-- `IpcReceiverSet`.
pub record Router (A C R K D M H V : Type 0) : Type 0 where
  pub msg_receiver : Receiver A C (RouterMsg K H V)
  pub msg_wakeup_id : ℕ
  pub ipc_receiver_set : IpcReceiverSet R K D M
  pub handlers : Map ℕ H

-- `unwrap` or `expect` on a result.
abbrev pub unwrap_ok : {Q T E : Type 0} → Result T E → Call Q T
unwrap_ok (ok v) = pure v
unwrap_ok (err _) = panic

-- `Router::new`, given the real `to_opaque` of the wakeup receiver.
unfoldable pub new_router :
    {Q A C R K D M X F H V B T : Type 0} ⦃q : LogQueue Q⦄
    → RealSet R K D M X F
    → (B → K)
    → Receiver A C (RouterMsg K H V)
    → IpcReceiver B T
    → Call Q (Router A C R K D M H V)
new_router real real_to_opaque msg_receiver wakeup_receiver = do
  made ← new_set real
  ipc_receiver_set ← unwrap_ok made
  (added, ipc_receiver_set') ← add real real_to_opaque wakeup_receiver ipc_receiver_set
  msg_wakeup_id ← unwrap_ok added
  pure (record {
    msg_receiver = msg_receiver;
    msg_wakeup_id = msg_wakeup_id;
    ipc_receiver_set = ipc_receiver_set';
    handlers = [];
  })

-- `handle` calls a handler. `fuel` is that of one receive.
module _ {Q A C R K D M X F H V : Type 0} ⦃q : LogQueue Q⦄ (real_set : RealSet R K D M X F)
    (timer : RealReceiver A (RouterMsg K H V))
    (real : RealReceiver C (DetMessage (RouterMsg K H V)))
    (real_ack : RealSender V (DetMessage (Unit {0}))) (handle : M → H → Call Q H) (fuel : ℕ) where
  -- Whether the router goes on, and its state.
  abbrev pub Step : Type 0
  Step = Bool × Router A C R K D M H V

  on_msg : RouterMsg K H V → Router A C R K D M H V → Call Q Step
  on_msg (add_route receiver handler) r = do
    (added, set) ← do_add real_set receiver r.ipc_receiver_set
    new_receiver_id ← unwrap_ok added
    pure (
      true,
      record r { ipc_receiver_set = set; handlers = insert r.handlers new_receiver_id handler },
    )
  on_msg (shutdown sender) r = do
    (sent, _) ← send real_ack tt sender
    unwrap_ok sent
    pure (false, r)

  on_wakeup : Router A C R K D M H V → Call Q Step
  unfolding on_msg
  on_wakeup r = do
    (received, msg_receiver) ← recv timer real fuel r.msg_receiver
    msg ← unwrap_ok received
    on_msg msg (record r { msg_receiver = msg_receiver })

  on_message : ℕ → M → Router A C R K D M H V → Call Q Step
  on_message id message r = elim (get r.handlers id) [
    | none ↦ panic
    | some handler ↦ do
      handler' ← handle message handler
      pure (true, record r { handlers = insert r.handlers id handler' })
  ]

  -- The match of `run` on one result.
  pub on_result : IpcSelectionResult M → Router A C R K D M H V → Call Q Step
  unfolding on_wakeup on_message
  on_result (message_received id message) r =
      if id == r.msg_wakeup_id then on_wakeup r else on_message id message r
  on_result (channel_closed id) r = elim (get r.handlers id) [
    | none ↦ panic
    | some _ ↦ pure (true, record r { handlers = remove r.handlers id })
  ]

  -- `for result in results.into_iter()`
  pub on_results : List (IpcSelectionResult M) → Router A C R K D M H V → Call Q Step
  on_results [] r = pure (true, r)
  on_results (result ∷ results) r = do
    (goes_on, r') ← on_result result r
    elim goes_on [ true ↦ on_results results r' | false ↦ pure (false, r') ]

  -- `Router::run`; a round of its loop takes one unit of the first fuel. An error of the set ends it.
  unfoldable pub run : ℕ → Router A C R K D M H V → Call Q (Router A C R K D M H V)
  run zero r = λ _. out_of_fuel
  run (suc rounds) r = do
    (selected, set) ← select real_set fuel r.ipc_receiver_set
    let r' = record r { ipc_receiver_set = set }
    elim selected [
      | err _ ↦ pure r'
      | ok results ↦ do
        (goes_on, r'') ← on_results results r'
        elim goes_on [ true ↦ run rounds r'' | false ↦ pure r'' ]
    ]
