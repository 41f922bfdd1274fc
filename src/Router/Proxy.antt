-- ===== src/Router/Proxy.antt =====
-- ipc_channel/router.rs: `RouterProxy`, by which the other threads speak to the router.
use rr_channel.Prelude.{
  ℕ, String, Bool, true, false, Option, none, some, Result, ok, err, Outcome, pure, ◌>>=◌, ◌>>◌,
  if◌then◌else◌,
}
use rr_channel.DetThread.Id.{DetThreadId}
use rr_channel.DetThread.Spawn.{spawn}
use rr_channel.RecordLog.{LogQueue}
use rr_channel.World.{Call, expect}
use rr_channel.Desync.{DetMessage}
use rr_channel.Channel.{RealReceiver, RealSender, lift}
use rr_channel.Crossbeam.{Sender, Receiver, send}
use rr_channel.Crossbeam.Create.{create_unbounded}
use rr_channel.Crossbeam.Receive.{recv}
use rr_channel.Ipc
use rr_channel.Ipc.{IpcReceiver, IpcSender, to_opaque}
use rr_channel.Ipc.Create.{channel}
use rr_channel.Router.{RouterMsg, add_route, shutdown, unwrap_ok}

-- `RouterProxyComm`, behind its mutex: `P` is the crossbeam sender of messages, `W` the IPC sender
-- that wakes the router up, and `J` the handle of its thread.
pub record RouterProxy (P W J : Type 0) : Type 0 where
  pub msg_sender : Sender P
  pub wakeup_sender : IpcSender W
  pub is_shutdown : Bool
  pub handle : Option J

-- `RouterProxy::new`, given the ends of two real channels and the spawn of std::thread, which
-- starts the router on the receivers.
unfoldable pub new_proxy :
    {Q A C P W B J F K H V : Type 0} ⦃q : LogQueue Q⦄
    → P
    → C
    → Result (W × B) F
    → (Receiver A C (RouterMsg K H V) → IpcReceiver B (Unit {0}) → DetThreadId → Call Q J)
    → Call Q (RouterProxy P W J)
new_proxy msg_end msg_channel wakeup start = do
  (msg_sender, msg_receiver) ← create_unbounded "RouterMsg" msg_end msg_channel
  made ← channel "()" wakeup
  (wakeup_sender, wakeup_receiver) ← unwrap_ok made
  handle ← spawn (start msg_receiver wakeup_receiver)
  pure (record {
    msg_sender = msg_sender;
    wakeup_sender = wakeup_sender;
    is_shutdown = false;
    handle = some handle;
  })

module _ {Q P W J E K H V : Type 0} ⦃q : LogQueue Q⦄
    (real_msg : RealSender P (DetMessage (RouterMsg K H V)))
    (real_wakeup : Ipc.RealSender W (DetMessage (Unit {0})) E) where
  unfoldable pub wake_up : RouterProxy P W J → Call Q (RouterProxy P W J)
  wake_up p = do
    (sent, wakeup_sender) ← Ipc.send real_wakeup tt p.wakeup_sender
    unwrap_ok sent
    pure (record p { wakeup_sender = wakeup_sender })

  unfoldable pub send_msg : RouterMsg K H V → RouterProxy P W J → Call Q (RouterProxy P W J)
  send_msg msg p = do
    (sent, msg_sender) ← send real_msg msg p.msg_sender
    unwrap_ok sent
    pure (record p { msg_sender = msg_sender })

  -- `RouterProxy::add_route`, given the real `to_opaque` and the callback's handler: a message to
  -- the router, then its wakeup.
  unfoldable pub proxy_add_route :
      {B T : Type 0}
      → (B → K)
      → IpcReceiver B T
      → H
      → RouterProxy P W J
      → Call Q (RouterProxy P W J)
  proxy_add_route real_to_opaque receiver callback p = do
    p' ← send_msg (add_route (to_opaque real_to_opaque receiver) callback) p
    wake_up p'

  -- `RouterProxy::shutdown`, given the ends of a real channel for the acknowledgement and the join of
  -- the thread, whose result is in `Result (Unit {0}) X`: a wakeup, then the message.
  unfoldable pub proxy_shutdown :
      {A G X : Type 0}
      → RealReceiver A (Unit {0})
      → RealReceiver G (DetMessage (Unit {0}))
      → ℕ
      → V
      → G
      → (J → Outcome (Result (Unit {0}) X))
      → RouterProxy P W J
      → Call Q (Result (Unit {0}) X × RouterProxy P W J)
  proxy_shutdown {A = A} timer real fuel ack_end ack_channel join p =
      if p.is_shutdown then pure (ok tt, p) else do
        (ack_sender, ack_receiver) ← create_unbounded {A = A} "()" ack_end ack_channel
        p₁ ← wake_up (record p { is_shutdown = true })
        p₂ ← send_msg (shutdown ack_sender) p₁
        (ack, _) ← recv timer real fuel ack_receiver
        unwrap_ok ack
        h ← expect p₂.handle
        joined ← lift (join h)
        pure (joined, record p₂ { handle = none })

-- The `callback_wrapper` of `add_route`; `to` is the deserialisation of an opaque message, and
-- `callback` the user's.
unfoldable pub callback_wrapper :
    {Q M T E H : Type 0}
    → (M → Result (DetMessage T) E)
    → (Result T E → H → Call Q H)
    → M
    → H
    → Call Q H
callback_wrapper to callback msg = elim (to msg) [
  | ok (_, m) ↦ callback (ok m)
  | err e ↦ callback (err e)
]

-- The callback of `route_ipc_receiver_to_crossbeam_sender`.
unfoldable pub forward :
    {Q S T E : Type 0} ⦃q : LogQueue Q⦄
    → RealSender S (DetMessage T)
    → Result T E
    → Sender S
    → Call Q (Sender S)
forward real message s = do m ← unwrap_ok message; (_, s') ← send real m s; pure s'

module _ {Q P W J E K V S T B : Type 0} ⦃q : LogQueue Q⦄
    (real_msg : RealSender P (DetMessage (RouterMsg K (Sender S) V)))
    (real_wakeup : Ipc.RealSender W (DetMessage (Unit {0})) E) (real_to_opaque : B → K) where
  -- The handler of the route keeps the crossbeam sender, and is called by `forward`.
  unfoldable pub route_ipc_receiver_to_crossbeam_sender :
      IpcReceiver B T → Sender S → RouterProxy P W J → Call Q (RouterProxy P W J)
  route_ipc_receiver_to_crossbeam_sender ipc_receiver crossbeam_sender p =
      proxy_add_route real_msg real_wakeup real_to_opaque ipc_receiver crossbeam_sender p

  -- Given the ends of a real channel.
  unfoldable pub route_ipc_receiver_to_new_crossbeam_receiver :
      {A C : Type 0}
      → String
      → S
      → C
      → IpcReceiver B T
      → RouterProxy P W J
      → Call Q (Receiver A C T × RouterProxy P W J)
  route_ipc_receiver_to_new_crossbeam_receiver type_name s c ipc_receiver p = do
    (crossbeam_sender, crossbeam_receiver) ← create_unbounded type_name s c
    p' ← route_ipc_receiver_to_crossbeam_sender ipc_receiver crossbeam_sender p
    pure (crossbeam_receiver, p')
