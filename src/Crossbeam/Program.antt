-- ===== src/Crossbeam/Program.antt =====
-- Programs that receive from one crossbeam channel, and what the real channel answers to them.
use rr_channel.Prelude.{ℕ, ◌≡◌, List, [], ◌∷◌, ◌++◌, Result, ok, err, returns, pure, ◌>>=◌}
use rr_channel.DetThread.Id.{id_eq}
use rr_channel.Event.{TivoEvent, RecvError, TryRecvError, RecvTimeoutError}
use rr_channel.RecordLog.{RecordEntry, RecordMetadata, LogQueue}
use rr_channel.World.{Call}
use rr_channel.Recorder.{entry_of}
use rr_channel.Desync.{DetMessage, message}
use rr_channel.Channel.{RealReceiver}
use rr_channel.Channel.Steps.{logged}
use rr_channel.Crossbeam.{ChannelKind, bounded, never, unbounded, Receiver}
use rr_channel.Crossbeam.Receive.{
  recv, try_recv, recv_timeout, recv_variants, try_recv_variants, recv_timeout_variants,
}

-- The channels that carry messages of other threads.
pub data Wrap : Type 0 where
  as_bounded as_never as_unbounded : Wrap

abbrev pub as_kind : {A C : Type 0} → Wrap → C → ChannelKind A C
as_kind as_bounded = bounded
as_kind as_never = never
as_kind as_unbounded = unbounded

pub data Op : Type 0 where
  recv_op try_recv_op : Op
  recv_timeout_op : ℕ → Op

pub data Reply (T : Type 0) : Type 0 where
  got : T → Reply T
  recv_failed : RecvError → Reply T
  try_failed : TryRecvError → Reply T
  timeout_failed : RecvTimeoutError → Reply T

abbrev pub reply_with : {T E : Type 0} → (E → Reply T) → Result T E → Reply T
reply_with f (ok m) = got m
reply_with f (err e) = f e

module _ {Q A C T : Type 0} ⦃q : LogQueue Q⦄ (timer : RealReceiver A T)
    (real : RealReceiver C (DetMessage T)) (fuel : ℕ) where
  unfoldable pub call : Op → Receiver A C T → Call Q (Reply T × Receiver A C T)
  call recv_op r = do (x, r') ← recv timer real fuel r; pure (reply_with recv_failed x, r')
  call try_recv_op r = do (x, r') ← try_recv timer real fuel r; pure (reply_with try_failed x, r')
  call (recv_timeout_op d) r = do
    (x, r') ← recv_timeout timer real fuel d r
    pure (reply_with timeout_failed x, r')

  -- A program: these calls, one after the other.
  unfoldable pub run : List Op → Receiver A C T → Call Q (List (Reply T) × Receiver A C T)
  run [] r = pure ([], r)
  run (o ∷ os) r = do (x, r') ← call o r; (xs, r'') ← run os r'; pure (x ∷ xs, r'')

-- A call and what the real channel answered to it.
pub data Answer (T : Type 0) : Type 0 where
  recv_answer : Result (DetMessage T) RecvError → Answer T
  try_answer : Result (DetMessage T) TryRecvError → Answer T
  timeout_answer : ℕ → Result (DetMessage T) RecvTimeoutError → Answer T

module _ {T : Type 0} where
  abbrev pub op_of : Answer T → Op
  op_of (recv_answer _) = recv_op
  op_of (try_answer _) = try_recv_op
  op_of (timeout_answer d _) = recv_timeout_op d

  -- What the caller sees of an answer: the message without its sender, or the error.
  abbrev pub reply_of : Answer T → Reply T
  reply_of (recv_answer o) = reply_with recv_failed (message o)
  reply_of (try_answer o) = reply_with try_failed (message o)
  reply_of (timeout_answer _ o) = reply_with timeout_failed (message o)

  abbrev pub event_of : Answer T → TivoEvent
  event_of (recv_answer o) = logged recv_variants o
  event_of (try_answer o) = logged try_recv_variants o
  event_of (timeout_answer _ o) = logged recv_timeout_variants o

  abbrev pub entries_of : RecordMetadata → List (Answer T) → List RecordEntry
  entries_of md [] = []
  entries_of md (a ∷ l) = entry_of (event_of a) md ∷ entries_of md l

  abbrev pub message_in : {E : Type 0} → Result (DetMessage T) E → List (DetMessage T)
  message_in (ok m) = m ∷ []
  message_in (err _) = []

  abbrev pub delivered_by : Answer T → List (DetMessage T)
  delivered_by (recv_answer o) = message_in o
  delivered_by (try_answer o) = message_in o
  delivered_by (timeout_answer _ o) = message_in o

  -- The messages that the answers delivered, in order.
  abbrev pub delivered : List (Answer T) → List (DetMessage T)
  delivered [] = []
  delivered (a ∷ l) = delivered_by a ++ delivered l

  module _ {C : Type 0} (real : RealReceiver C (DetMessage T)) where
    abbrev pub Answers : C → Answer T → C → Type 0
    Answers c (recv_answer o) c' = real.recv c ≡ returns (o, c')
    Answers c (try_answer o) c' = real.try_recv c ≡ (o, c')
    Answers c (timeout_answer d o) c' = real.recv_timeout d c ≡ (o, c')

    -- The real channel, called in this order from the state `c`, gives these answers.
    abbrev pub Delivers : C → List (Answer T) → Type 0
    Delivers c [] = Unit
    Delivers c (a ∷ l) = (c' : C) × Answers c a c' × Delivers c' l
