-- ===== src/System/RoundTrip.antt =====
-- From a recorded system over the log file to a replayed one.
use rr_channel.Prelude.{
  ℕ, String, ◌+◌, ◌<◌, ◌≤◌, ◌≡◌, refl, sym, ap, ◌∙◌, inl, inr, false, Bool, Option, some, List, [],
  length, length-append, ◌++◌, ok, returns, arith, subst, List-cases, ◌==◌, nat_eq, map,
}
use rr_channel.DetThread.Id.{DetThreadId, id_eq}
use rr_channel.RecordLog.{
  RecordMetadata, LogQueue, GlobalRecorder, GlobalReplayer, Ron, flush, open_log,
}
use rr_channel.World.{record_mode, replay_mode}
use rr_channel.Desync.{DetMessage}
use rr_channel.Rr.Pending.{from}
use rr_channel.Channel.{RealReceiver, RealSender}
use rr_channel.Crossbeam.{ChannelKind}
use rr_channel.Crossbeam.Fifo.{IsFifoChannel, IsMessages, kind_arrivals}
use rr_channel.Crossbeam.Replay.{waiting}
use rr_channel.Crossbeam.RoundTrip.{IsReplaying, LogOpen-LogLeft}
use rr_channel.System.{System, world_of, run_turns}
use rr_channel.System.Machine.{Machine, play}
use rr_channel.System.Follows.{Follows, HasLeft, IsLinked, Simulates, entry_for}
use rr_channel.System.Views.{machine_of}
use rr_channel.System.Recording.{Owns, Records}
use rr_channel.System.Trace.{Recorded}
use rr_channel.System.Record.{run_turns-Recorded}
use rr_channel.System.Replay.{play-replays}
use rr_channel.System.Progress.{play_on, play-append}

module _ {Q A C T : Type 0} {real : RealReceiver C (DetMessage T)} (fifo : IsFifoChannel real)
    (fuel : ℕ) (ids : ℕ → DetThreadId) where
  -- The program of `s`, started again to replay the log `p`. Its channels hold what those of `s` held,
  -- sender by sender, and the fuel is enough for `turns` more messages in any of them.
  pub record IsRestarted (s : System Q A C T) (p : GlobalReplayer) (turns : ℕ) (r : System Q A C T)
      : Type 0 where
    pub same_programs : (i : ℕ) → s.programs i ≡ r.programs i
    pub replaying : (i : ℕ) → IsReplaying (ids i) p (world_of r i)
    pub synced : r.shared.desync ≡ false
    pub carries_messages : (c : ℕ) → IsMessages (r.channels c).channel
    pub within_fuel : (c : ℕ) → length (kind_arrivals fifo (r.channels c).channel) + turns < fuel
    pub same_messages :
        (c j : ℕ)
        → waiting fifo (r.channels c) (ids j)
          ≡ from (ids j) (kind_arrivals fifo (s.channels c).channel)

module _ {Q A C T : Type 0} ⦃q : LogQueue Q⦄ (ron : Ron) (writable : String → String → Bool)
    (read : String → Option String) (timer : RealReceiver A T)
    (real : RealReceiver C (DetMessage T)) (real_send : RealSender (ChannelKind A C) (DetMessage T))
    (fifo : IsFifoChannel real) (linked : IsLinked fifo real_send) (fuel : ℕ)
    (ids : ℕ → DetThreadId) (md : ℕ → RecordMetadata)
    (distinct : (i j : ℕ) → (ids i == ids j) ≡ (i == j)) (owner : ℕ → ℕ) where
  -- The log that a thread left is what it has to replay.
  has_left :
      (s s₁ r : System Q A C T) (turns n : ℕ) (g : GlobalRecorder Q) (path text : String)
      (p : GlobalReplayer) (rec : Recorded fifo ids md distinct owner s s₁ (λ _. []) n)
      → s₁.shared.recorder ≡ some g
      → flush ron writable g ≡ ok (path, text)
      → read path ≡ some text
      → open_log ron read path ≡ some p
      → IsRestarted fifo fuel ids s p turns r
      → (i : ℕ) → HasLeft ids md (world_of r i) (rec.acts i)
  has_left s s₁ r turns n g path text p rec eg fl rd op start i = elim (List-cases (rec.acts i)) [
    | inl e ↦ inl e
    | inr (a, l, e) ↦ inr (
        LogOpen-LogLeft ron writable read (ids i) (world_of s₁ i) (world_of r i)
          (map (entry_for ids md) (rec.acts i)) g path text p (rec.logs i)
          (λ x. ground (arith, sym (ap (map (entry_for ids md)) e) ∙ x)) eg fl rd op
          (start.replaying i))
  ]

  -- A system that was recorded from empty logs, whose log file was flushed and read back, is
  -- started again with channels that hold the same messages of each sender, and with fuel for one
  -- message more in each channel for each turn. Under any order of turns in which no thread
  -- receives a message that was not sent yet, or goes beyond its recording, the replay returns
  -- without a desynchronisation, and every thread is at a point of its recording from which the
  -- rest of its recorded acts leads to where the recording ended.
  pub replay_reproduces :
      (s s₁ r : System Q A C T) (n : ℕ) (turns : List ℕ) (m' : Machine T) (g : GlobalRecorder Q)
      (path text : String) (p : GlobalReplayer)
      (rec : Recorded fifo ids md distinct owner s s₁ (λ _. []) n)
      → s₁.shared.recorder ≡ some g
      → flush ron writable g ≡ ok (path, text)
      → read path ≡ some text
      → open_log ron read path ≡ some p
      → IsRestarted fifo fuel ids s p (length turns) r
      → play turns (machine_of fifo ids s rec.acts) ≡ some m'
      → (r' : System Q A C T) × (run_turns timer real real_send fuel md replay_mode turns r
          ≡ returns r')
        × (r'.shared.desync ≡ false)
        × ((j : ℕ) → Follows (r'.programs j) (m'.to_do j) (s₁.programs j))
  replay_reproduces s s₁ r n turns m' g path text p rec eg fl rd op start played =
      let sim : Simulates fifo fuel ids md r (machine_of fifo ids s rec.acts) (length turns) =
        record {
          synced = start.synced;
          named = λ i. (start.replaying i).same_id;
          logs = has_left s s₁ r (length turns) n g path text p rec eg fl rd op start;
          carries_messages = start.carries_messages;
          within_fuel = start.within_fuel;
          in_line = start.same_messages;
        } in
      let follows : (j : ℕ) → Follows (r.programs j) (rec.acts j) (s₁.programs j) = λ j.
        subst (λ x. Follows x (rec.acts j) (s₁.programs j)) (start.same_programs j)
          (rec.follows j) in
      let (r', e, sim', follows', _) =
        play-replays timer real real_send fifo linked fuel ids md distinct owner
          (machine_of fifo ids s₁ (λ _. [])).queued s₁.programs turns r
          (machine_of fifo ids s rec.acts) m' sim follows rec.fair played in
      (r', e, sim'.synced, follows')

  -- A replay of a recorded system as in replay_reproduces, with fuel for as many turns as the
  -- recorded acts took, that has taken any turns in which no thread receives a message that was not
  -- sent yet, or goes beyond its recording, can go on: there are further turns, as many as the
  -- recorded acts leave, after which the replay returns with every thread where the recording
  -- ended.
  pub replay_goes_on :
      (s s₁ r : System Q A C T) (n : ℕ) (taken : List ℕ) (m' : Machine T) (g : GlobalRecorder Q)
      (path text : String) (p : GlobalReplayer)
      (rec : Recorded fifo ids md distinct owner s s₁ (λ _. []) n)
      → s₁.shared.recorder ≡ some g
      → flush ron writable g ≡ ok (path, text)
      → read path ≡ some text
      → open_log ron read path ≡ some p
      → IsRestarted fifo fuel ids s p (length rec.turns) r
      → play taken (machine_of fifo ids s rec.acts) ≡ some m'
      → (rest : List ℕ) × (r' : System Q A C T) × (run_turns timer real real_send fuel md
            replay_mode
            (taken ++ rest)
            r
          ≡ returns r')
        × (length taken + length rest ≡ length rec.turns)
        × ((j : ℕ) → r'.programs j ≡ s₁.programs j)
  replay_goes_on s s₁ r n taken m' g path text p rec eg fl rd op start played =
      let m = machine_of fifo ids s rec.acts in
      let done = machine_of fifo ids s₁ (λ _. []) in
      let (rest, goes_on, l) =
        play_on owner taken rec.turns m m' done rec.fair.owned (λ _. refl) rec.plays played in
      let as_long : length rec.turns ≡ length (taken ++ rest) =
        sym l ∙ sym (length-append taken rest) in
      let (r', e, _, same) =
        replay_reproduces s s₁ r n (taken ++ rest) done g path text p rec eg fl rd op
          (subst (λ n. IsRestarted fifo fuel ids s p n r) as_long start)
          (play-append owner taken rest m m' done played goes_on) in
      (rest, r', e, l, same)

  shorter :
      (s r : System Q A C T) (p : GlobalReplayer) (k n : ℕ)
      → k ≤ n
      → IsRestarted fifo fuel ids s p n r
      → IsRestarted fifo fuel ids s p k r
  shorter s r p k n le start = record {
    same_programs = start.same_programs;
    replaying = start.replaying;
    synced = start.synced;
    carries_messages = start.carries_messages;
    within_fuel = λ c. omega (arith, start.within_fuel c);
    same_messages = start.same_messages;
  }

  -- A system whose threads have empty open logs and share crossbeam channels, each received from by
  -- its owner only, is recorded under any order of turns; its log file is flushed and read back,
  -- and it is started again with channels that hold the same messages of each sender and fuel for
  -- one message more in each channel for each turn. If the recorded run returns, there are turns,
  -- no more than those, in which the replay returns with every thread at the same point of its
  -- program as at the end of the recording.
  pub record_then_replay_system :
      (turns : List ℕ) (s s₁ r : System Q A C T) (g : GlobalRecorder Q) (path text : String)
      (p : GlobalReplayer)
      → Records fifo ids s (λ _. [])
      → ((j : ℕ) → Owns owner j (s.programs j))
      → run_turns timer real real_send fuel md record_mode turns s ≡ returns s₁
      → s₁.shared.recorder ≡ some g
      → flush ron writable g ≡ ok (path, text)
      → read path ≡ some text
      → open_log ron read path ≡ some p
      → IsRestarted fifo fuel ids s p (length turns) r
      → (turns' : List ℕ) × (r' : System Q A C T) × (run_turns timer real real_send fuel md
            replay_mode turns' r
          ≡ returns r')
        × (length turns' ≤ length turns)
        × ((j : ℕ) → r'.programs j ≡ s₁.programs j)
  record_then_replay_system turns s s₁ r g path text p records owns ran eg fl rd op start =
      let rec =
        run_turns-Recorded timer real real_send fifo linked fuel ids md distinct owner turns s s₁
          (λ _. []) records owns ran in
      let (r', e, _, same) =
        replay_reproduces s s₁ r (length turns) rec.turns (machine_of fifo ids s₁ (λ _. [])) g path
          text p rec eg fl rd op (shorter s r p (length rec.turns) (length turns) rec.within start)
          rec.plays in
      (rec.turns, r', e, rec.within, same)
