-- ===== src/Tests/Replays.antt =====
-- A replay of three threads that share a channel, in another order than the recording.
use rr_channel.Prelude.{
  ℕ, zero, suc, ◌+◌, ◌≤◌, ◌≡◌, refl, sym, ap, ap₂, ◌∙◌, some, none, List, [], ◌∷◌, ◌++◌, length, ok,
  returns, true, false, arith, nat_eq, ◌==◌, Bool-cases, inl, inr,
}
use mathlib.Core.Path.{fun_ext}
use rr_channel.Prelude.Map.{get, insert}
use rr_channel.Prelude.Map.Queues.{queue}
use rr_channel.DetThread.Id.{id_eq, id_beq}
use rr_channel.RecordLog.{
  RecordEntry, GlobalReplayer, flush, get_all_entries, collect_entries, write_entries, open_log,
  init,
}
use rr_channel.RecordLog.Laws.{IsRecorder}
use rr_channel.Recorder.Laws.{LogOpen, unconnected, connected}
use rr_channel.World.{replay_mode}
use rr_channel.Rr.Pending.{from}
use rr_channel.Crossbeam.Fifo.{kind_arrivals}
use rr_channel.System.{System, run_turns, world_of}
use rr_channel.System.Machine.{
  receives, Machine, set_to_do, set_queued, play, turn, turn_with, sent_to, received_of, IsOwned,
}
use rr_channel.System.Follows.{Follows}
use rr_channel.System.Views.{machine_of}
use rr_channel.System.Trace.{Recorded}
use rr_channel.System.RoundTrip.{
  IsRestarted, replay_reproduces, replay_goes_on, record_then_replay_system,
}
use rr_channel.Tests.Setup.{log_list, Wire, timer, replaying}
use rr_channel.Tests.LogFile.{ron_of, to_string_lem}
use rr_channel.Tests.Systems.{
  start-Records, owned, ran, line, line_send, line_fifo, line-IsLinked, ids, distinct, owner, md,
  programs, named, start, acts, entries, log, recorder, finished,
}

to_do_done :
    (j : ℕ)
    → set_to_do (set_to_do (set_to_do (set_to_do acts 1 []) 2 []) 0 (receives 0 2 8 ∷ [])) 0 [] j
      ≡ []
to_do_done zero = refl
to_do_done (suc zero) = refl
to_do_done (suc (suc zero)) = refl
to_do_done (suc (suc (suc j))) = ground arith

nothing_queued :
    (c j : ℕ)
    → set_queued
        (set_queued (set_queued (set_queued {T = ℕ} (λ c j. []) 0 1 (7 ∷ [])) 0 2 (8 ∷ [])) 0 1 [])
        0
        2
        []
        c
        j
      ≡ []
nothing_queued c j = ground arith

nothing_arrived :
    (c j : ℕ) → from (ids j) (kind_arrivals line_fifo (finished.channels c).channel) ≡ []
unfolding line_fifo from
nothing_arrived c j = elim (Bool-cases (0 == c)) [ inl t ↦ rw t refl | inr f ↦ rw f refl ]

recorded_plays :
    play (1 ∷ 2 ∷ 0 ∷ 0 ∷ []) (machine_of line_fifo ids start acts)
    ≡ some (machine_of line_fifo ids finished (λ _. []))
unfolding play turn turn_with from line_fifo
recorded_plays =
    ap₂ (λ x y. some (record { to_do = x; queued = y })) (fun_ext to_do_done)
      (fun_ext (λ c. fun_ext (λ j. nothing_queued c j ∙ sym (nothing_arrived c j))))

recorded-Follows : (i : ℕ) → Follows (programs i) (acts i) (finished.programs i)
recorded-Follows zero = (_, refl, (_, refl, refl))
recorded-Follows (suc zero) = (_, refl, refl)
recorded-Follows (suc (suc zero)) = (_, refl, refl)
recorded-Follows (suc (suc (suc i))) = ground arith

acts-IsOwned : (i : ℕ) → IsOwned owner i (acts i)
acts-IsOwned zero = (refl, (refl, tt))
acts-IsOwned (suc zero) = tt
acts-IsOwned (suc (suc zero)) = tt
acts-IsOwned (suc (suc (suc i))) = tt

conserved :
    (c j : ℕ)
    → sent_to c (acts j)
      ≡ received_of c j (acts 0)
        ++ from (ids j) (kind_arrivals line_fifo (finished.channels c).channel)
conserved c zero = rw (nothing_arrived c 0) (ground arith)
conserved c (suc zero) = rw (nothing_arrived c 1) (ground arith)
conserved c (suc (suc zero)) = rw (nothing_arrived c 2) (ground arith)
conserved c (suc (suc (suc j))) = rw (nothing_arrived c (suc (suc (suc j)))) (ground arith)

recorder-IsRecorder : IsRecorder recorder
unfolding id_beq
recorder-IsRecorder = (refl, (refl, (refl, tt)))

other_thread : (i : ℕ) → finished.threads (suc (suc (suc i))) ≡ named (suc (suc (suc i)))
other_thread i = ground arith

no_other_log : (i : ℕ) → get recorder.recorder (ids (suc (suc (suc i)))) ≡ none
unfolding get
no_other_log i =
    rw
      (
        distinct 1 (suc (suc (suc i))),
        distinct 2 (suc (suc (suc i))),
        distinct 0 (suc (suc (suc i))),
      )
      (ground arith)

logs_open : (i : ℕ) → LogOpen (ids i) (world_of finished i) (entries i)
unfolding get id_beq
logs_open zero = connected recorder _ refl refl refl recorder-IsRecorder refl refl
logs_open (suc zero) = connected recorder _ refl refl refl recorder-IsRecorder refl refl
logs_open (suc (suc zero)) = connected recorder _ refl refl refl recorder-IsRecorder refl refl
logs_open (suc (suc (suc i))) =
    unconnected recorder (ap (λ t. t.det_id) (other_thread i))
      (ap (λ t. t.event_sender) (other_thread i)) refl recorder-IsRecorder (no_other_log i) refl

abbrev recorded : Recorded line_fifo ids md distinct owner start finished (λ _. []) 4
unfolding from line_fifo
recorded = record {
  acts = acts;
  turns = 1 ∷ 2 ∷ 0 ∷ 0 ∷ [];
  within = omega arith;
  plays = recorded_plays;
  follows = recorded-Follows;
  fair = record { owned = acts-IsOwned; conserved = conserved };
  logs = logs_open;
}

abbrev loaded : GlobalReplayer
loaded = record { replayer = log }

-- The program, started again.
abbrev restarted : System (List RecordEntry) (Unit {0}) Wire ℕ
restarted = record start { shared = replaying loaded }

restarts : IsRestarted line_fifo 9 ids start loaded 4 restarted
unfolding line_fifo queue from
restarts = record {
  same_programs = λ i. refl;
  replaying = λ i. record { same_id = refl; log_untouched = refl; log_loaded = refl };
  synced = refl;
  carries_messages = λ _. tt;
  within_fuel = λ _. ground arith;
  same_messages = λ c j. refl;
}

written : write_entries (ron_of log) (λ _ _. true) "test.log" log ≡ ok ("test.log", "the log")
unfolding write_entries
written = rw (to_string_lem log, write_entries) refl

flushed : flush (ron_of log) (λ _ _. true) recorder ≡ ok ("test.log", "the log")
unfolding flush init get_all_entries collect_entries get insert id_beq
flushed = written

reopened : open_log (ron_of log) (λ _. some "the log") "test.log" ≡ some loaded
unfolding open_log ron_of
reopened = refl

-- The message of thread 2 comes first, and thread 0 still waits for that of thread 1.
abbrev one_sent : Machine ℕ
one_sent = record { to_do = set_to_do acts 2 []; queued = set_queued (λ c j. []) 0 2 (8 ∷ []) }

one_played : play (2 ∷ []) (machine_of line_fifo ids start recorded.acts) ≡ some one_sent
unfolding play turn turn_with from line_fifo recorded
one_played = refl

-- In this order thread 0 receives the messages as it did, though they are sent the other way round.
abbrev all_played : Machine ℕ
all_played = record {
  to_do = set_to_do (set_to_do (set_to_do one_sent.to_do 1 []) 0 (receives 0 2 8 ∷ [])) 0 [];
  queued = set_queued (set_queued (set_queued one_sent.queued 0 1 (7 ∷ [])) 0 1 []) 0 2 [];
}

played_otherwise :
    play (2 ∷ 1 ∷ 0 ∷ 0 ∷ []) (machine_of line_fifo ids start recorded.acts) ≡ some all_played
unfolding play turn turn_with from line_fifo recorded
played_otherwise = refl

replay_reproduces_example :
    (r' : System (List RecordEntry) (Unit {0}) Wire ℕ) × (run_turns timer line line_send 9 md
        replay_mode
        (2 ∷ 1 ∷ 0 ∷ 0 ∷ [])
        restarted
      ≡ returns r')
    × (r'.shared.desync ≡ false)
    × ((j : ℕ) → Follows (r'.programs j) (all_played.to_do j) (finished.programs j))
replay_reproduces_example =
    replay_reproduces (ron_of log) (λ _ _. true) (λ _. some "the log") timer line line_send
      line_fifo line-IsLinked 9 ids md distinct owner start finished restarted 4
      (2 ∷ 1 ∷ 0 ∷ 0 ∷ []) all_played recorder "test.log" "the log" loaded recorded refl flushed
      refl reopened restarts played_otherwise

replay_goes_on_example :
    (rest : List ℕ) × (r' : System (List RecordEntry) (Unit {0}) Wire ℕ) × (run_turns timer line
        line_send 9 md replay_mode
        (2 ∷ rest)
        restarted
      ≡ returns r')
    × (1 + length rest ≡ 4)
    × ((j : ℕ) → r'.programs j ≡ finished.programs j)
unfolding line_fifo recorded
replay_goes_on_example =
    replay_goes_on (ron_of log) (λ _ _. true) (λ _. some "the log") timer line line_send line_fifo
      line-IsLinked 9 ids md distinct owner start finished restarted 4 (2 ∷ []) one_sent recorder
      "test.log" "the log" loaded recorded refl flushed refl reopened restarts one_played

record_then_replay_system_example :
    (turns' : List ℕ) × (r' : System (List RecordEntry) (Unit {0}) Wire ℕ) × (run_turns timer line
        line_send 9 md replay_mode turns' restarted
      ≡ returns r')
    × (length turns' ≤ 4)
    × ((j : ℕ) → r'.programs j ≡ finished.programs j)
record_then_replay_system_example =
    record_then_replay_system (ron_of log) (λ _ _. true) (λ _. some "the log") timer line line_send
      line_fifo line-IsLinked 9 ids md distinct owner (1 ∷ 2 ∷ 0 ∷ 0 ∷ []) start finished restarted
      recorder "test.log" "the log" loaded start-Records owned ran refl flushed refl reopened
      restarts
