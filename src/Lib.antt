-- ===== src/Lib.antt =====
-- rr_channel: a library that records the order in which the channels of a multi-threaded program
-- deliver messages, and replays that order.
--
-- The parts. Every thread has a deterministic id, its path in the tree of threads
-- (src/detthread.rs). A wrapped channel (src/crossbeam_channel.rs, src/mpsc.rs) sends each message
-- with the id of its sender. While recording, a receive logs who sent what it got, or the error;
-- each thread sends its entries to a recorder, which writes all of them to one file at the end
-- (src/recordlog.rs, src/lib.rs). While replaying, a receive reads the next entry of its thread and
-- waits for a message of the logged sender; messages of others are kept in a buffer (src/rr.rs). A
-- replay that does not fit its log is desynchronised and panics or goes on (src/desync.rs). A
-- Select waits for one of several receivers; its log has the index and the sender
-- (src/crossbeam_select.rs). Channels between processes come alone or in a receiver set, whose log
-- has one event for each result (src/ipc_channel/mod.rs), and the router is a thread that waits on
-- such a set and calls handlers (src/ipc_channel/router.rs).
--
-- The files. Prelude has the shared helpers: tests and equality, lists, calls with their outcomes,
-- hash maps, and maps of queues, the buffers. DetThread/Id is DetThreadId, DetThread/Tls the
-- thread-locals of src/detthread.rs and the ids of channels of src/rr.rs, DetThread/Spawn the
-- spawning of threads. Session is the start and the end of an execution, of src/lib.rs. Event and
-- Error are the data of src/recordlog.rs and src/error.rs. RecordLog is the recorder, the log file
-- and the replayer. World is the state that a call reads and writes: the statics of the process and
-- the thread-locals of one thread. Recorder is EventRecorder of src/lib.rs with the lazy
-- thread-locals of src/recordlog.rs, and the creation events of channels. Checker and Rr are the
-- traits and the search of src/rr.rs. Desync is src/desync.rs. Channel has what
-- src/crossbeam_channel.rs and src/mpsc.rs both write out: the two macros and the methods around
-- record and replay. Crossbeam and Mpsc are the channels themselves, with one function for each
-- method. Select has Select, Select/Operation what is done with a selected operation. Ipc has the
-- IPC sender and receiver, with Ipc/Create and Ipc/Receive; Ipc/Set is IpcReceiverSet, with the
-- search for one recorded event in Ipc/Set/Entry and its select in Ipc/Set/Select. Router is the
-- loop of the router's thread, Router/Proxy is RouterProxy. System is a whole program: threads that
-- take turns, in the order of a list, at sends and receives on crossbeam channels that they share;
-- System/Machine is the abstract view of such a program, what each thread has still to do and which
-- messages of each sender wait in each channel, and System/Views and System/Trace relate a
-- recording to it, System/Turns and System/Replay a replay. A function keeps the name of the source
-- in the spelling of this language; the modules below a component state what holds of it. TestState
-- is the log in memory of src/recordlog.rs and src/test.rs, ParseRecordlog is
-- src/parse_recordlog.rs, DetThread/Builder the builder of threads. Tests has concrete instances.
--
-- Calls. A call takes the world to an outcome: it returns a value and a new world, panics, hangs,
-- or runs out of fuel. A panic or a hang loses the state of the thread. Rust results are values.
-- The receiving end of a channel is passed in and handed back, for the buffer and the real channel
-- change behind a shared reference; a Select is given numbers for the references to its receivers,
-- and a function from these to the receivers.
--
-- Numbers. The u32 counters of events, channels and children wrap, as in a release build; a build
-- with overflow checks would panic. Thread ids hold ten numbers at most, and a deeper tree panics.
--
-- Fuel. The loop of recv_expected_message takes one unit for each message that it keeps for later;
-- more fuel than the messages that arrive before the real channel times out is enough. So does the
-- search of a receiver set. A replayed system has enough where the messages that wait in a channel
-- and the turns together are fewer. The loop of the router takes one unit of a fuel of its own for
-- each round. The ten attempts of a try_recv on an IPC channel are the source's.
--
-- Not in this repository, and so parameters: the real channels (RealReceiver, RealSender, with
-- IsFifoChannel and IsPatient for what a replay uses of them, and IsLinked for the two ends of one
-- channel, which is never closed and never full), the real Select (RealSelect, with IsCounting: it
-- numbers its operations in the order of their adding), the real receiver set (RealSet, with
-- IsAppending, the same for receivers, and Ipc/Set/Fifo's IsPatient), the deserialisation of
-- messages, sleeping, the log channel (LogQueue), ron (Ron), reading and writing files, the spawn
-- of std::thread, and the environment variables. Hash maps are lists in iteration order. Whether
-- another thread marks the program as desynchronised while this one sleeps is a choice of the
-- environment. The two crates' error types of receives have the same constructors and are one type.
-- In a replay the log file is taken as loaded when the first thread reads from it.
--
-- Not modelled: tracing output, poisoned locks, the test programs and the traits that they share,
-- Debug output, the names that src/ipc_channel only re-exports or passes on, receivers of different
-- message types in one Select, turns of a system at anything but a send or a blocking receive,
-- turns that overlap, and the moment between the store of the mark and the wake-up in
-- mark_program_as_desynced. The macros of src/crossbeam_select_macro.rs are a copy of another
-- crate's.
mod Prelude
pub mod DetThread
pub mod Event
pub mod Error
pub mod RecordLog
pub mod World
pub mod Checker
pub mod Recorder
pub mod Desync
pub mod Rr
pub mod Channel
pub mod Crossbeam
pub mod Mpsc
pub mod Select
pub mod Ipc
pub mod Router
pub mod Session
pub mod System
pub mod TestState
pub mod ParseRecordlog
mod Tests
