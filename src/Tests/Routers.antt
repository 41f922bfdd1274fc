-- ===== src/Tests/Routers.antt =====
-- The router's thread.
use mathlib.Core.Option
use rr_channel.Prelude.{
  ℕ, nat_eq, ◌+◌, ◌≡◌, refl, false, some, List, [], ◌∷◌, ok, err, returns, hangs,
}
use rr_channel.Prelude.Map.{get, insert}
use rr_channel.DetThread.Id.{id_eq, id_beq}
use rr_channel.Event.{crossbeam_sender, TryRecvError, RecvTimeoutError}
use rr_channel.RecordLog.{RecordEntry, init, add_receiver}
use rr_channel.Recorder.{entry_of, write_event_to_record}
use rr_channel.DetThread.Tls.{get_det_id}
use rr_channel.World.{World, Call, record_mode, no_rr}
use rr_channel.Desync.{DetMessage, program_desynced}
use rr_channel.Channel.{RealReceiver, RealSender, recv_with, send_with}
use rr_channel.Rr.{record_replay_recv, record_replay_send}
use rr_channel.Crossbeam.{Sender, Receiver, unbounded, send, send_impl}
use rr_channel.Crossbeam.Receive.{recv, kind_recv, on_kind}
use rr_channel.Ipc.Set.{IpcSelectionResult, message_received, RealSet, IpcReceiverSet}
use rr_channel.Ipc.Set.Select.{do_select, rr_select, select}
use rr_channel.Router.{RouterMsg, shutdown, Router, run}
use rr_channel.Router.Laws.{handed, AreRouted, after_handlers, run-shutdown}
use rr_channel.Tests.Setup.{main_id, alice, log_list, metadata, recording}

abbrev Msg : Type 0
Msg = RouterMsg (Unit {0}) ℕ (Unit {0})

abbrev ack_sender : Sender (Unit {0})
ack_sender = record { sender = tt; metadata = metadata; mode = record_mode }

-- The real ends on which a shutdown waits and its acknowledgement goes out.
unfoldable shutting : RealReceiver (Unit {0}) (DetMessage Msg)
shutting = record {
  recv = λ c. returns (ok (alice, shutdown ack_sender), tt);
  try_recv = λ c. (err TryRecvError.empty, c);
  recv_timeout = λ n c. (err RecvTimeoutError.timeout, c);
}

unfoldable no_timer : RealReceiver (Unit {0}) Msg
no_timer = record {
  recv = λ c. hangs;
  try_recv = λ c. (err TryRecvError.empty, c);
  recv_timeout = λ n c. (err RecvTimeoutError.timeout, c);
}

unfoldable ack : RealSender (Unit {0}) (DetMessage (Unit {0}))
ack = record { send = λ m s. returns (ok tt, s) }

abbrev waiting : List (IpcSelectionResult ℕ)
waiting =
    message_received 1 5
    ∷ message_received 2 7
    ∷ message_received 1 6
    ∷ message_received 0 0
    ∷ message_received 2 9
    ∷ []

-- A real set with these messages in it.
unfoldable busy_set : RealSet (Unit {0}) (Unit {0}) (Unit {0}) ℕ (Unit {0}) (Unit {0})
busy_set = record {
  new = ok tt;
  add_opaque = λ k r. (ok 0, r);
  select = λ r. returns (ok waiting, r);
  try_recv = λ k. (err tt, k);
  channel_is_closed = λ x. false;
  sleep = λ n k. k;
  unit_channel = err tt;
  deserialize_id = λ m. some alice;
}

abbrev passing : World (List RecordEntry)
passing = record recording { rr_mode = some no_rr }

abbrev busy : IpcReceiverSet (Unit {0}) (Unit {0}) (Unit {0}) ℕ
busy = record {
  receiver_set = tt;
  mode = no_rr;
  index = 0;
  receivers = [];
  buffer = [];
  desynced = false;
  dummy_senders = [];
}

abbrev inbox : Receiver (Unit {0}) (Unit {0}) Msg
inbox = record {
  endpoint = record { buffer = []; channel = unbounded tt };
  metadata = metadata;
  mode = no_rr;
}

-- Handlers that add up what they are given.
abbrev router : Router (Unit {0}) (Unit {0}) (Unit {0}) (Unit {0}) (Unit {0}) ℕ ℕ (Unit {0})
router = record {
  msg_receiver = inbox;
  msg_wakeup_id = 0;
  ipc_receiver_set = busy;
  handlers = (1, 0) ∷ (2, 100) ∷ [];
}

abbrev add_up : ℕ → ℕ → ℕ
add_up m h = m + h

-- A handler that also creates a channel.
abbrev creating : ℕ → ℕ → World (List RecordEntry) → World (List RecordEntry)
creating m h w = record w { thread = record w.thread { next_channel_id = w.next_channel_id + 1 } }

abbrev handler : ℕ → ℕ → Call (List RecordEntry) ℕ
handler m h w = returns (m + h, creating m h w)

selected : select busy_set 9 busy passing ≡ returns ((ok waiting, busy), passing)
unfolding select rr_select do_select program_desynced busy_set
selected = refl

abbrev routed : List (IpcSelectionResult ℕ)
routed = message_received 1 5 ∷ message_received 2 7 ∷ message_received 1 6 ∷ []

from_third : AreRouted {M = ℕ} 0 router.handlers (message_received 1 6 ∷ [])
unfolding get
from_third = (refl, 0, refl, tt)

from_second : AreRouted {M = ℕ} 0 router.handlers (message_received 2 7 ∷ message_received 1 6 ∷ [])
unfolding get
from_second = (refl, 100, refl, from_third)

-- The thread when it reads the shutdown, and when it has recorded the acknowledgement.
abbrev handled : World (List RecordEntry)
handled = record passing { thread = record passing.thread { next_channel_id = 4 } }

abbrev acknowledged : World (List RecordEntry)
acknowledged = record handled {
  recorder = some (record {
    recorder = (main_id, entry_of crossbeam_sender metadata ∷ []) ∷ [];
    path = some "test.log";
  });
  thread = record handled.thread { event_number = 1; event_sender = some main_id };
}

heard_shutdown :
    recv no_timer shutting 9 inbox handled ≡ returns ((ok (shutdown ack_sender), inbox), handled)
unfolding recv recv_with record_replay_recv kind_recv on_kind shutting
heard_shutdown = refl

sent_ack : send ack tt ack_sender handled ≡ returns ((ok tt, ack_sender), acknowledged)
unfolding send send_with record_replay_send send_impl ack write_event_to_record get_det_id
    add_receiver get init insert id_beq program_desynced
sent_ack = refl

run-shutdown_example :
    (run busy_set no_timer shutting ack handler 9 1 router passing
      ≡ returns (record router { handlers = (1, 11) ∷ (2, 107) ∷ [] }, acknowledged))
    × ((i : ℕ)
        → get (after_handlers add_up creating routed router.handlers passing).0 i
          ≡ Option.map (handed add_up i routed) (get router.handlers i))
unfolding get insert
run-shutdown_example =
    run-shutdown busy_set no_timer shutting ack handler 9 add_up creating (λ m h w. refl) 0 routed
      (message_received 2 9 ∷ []) 0 router busy ack_sender ack_sender inbox (ok tt) passing passing
      handled acknowledged selected (refl, 0, refl, from_second) heard_shutdown sent_ack
