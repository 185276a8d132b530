-- ===== src/Lib.antt =====
-- Verification library of the Sovereign Event Bus: its human gateway, its artifact universe, its
-- reasoning protocol and its inference over ticks, of the Rust crates seb/human_touch, seb/universe
-- and seb/reasoning and of seb/runtime/shrewd.
--
-- The gateway (seb/human_touch/src) takes changes from agents, asks a human for a decision, keeps an
-- audit trail, and writes approved commits.
--   * HumanTouch/AuditLog: audit_log.rs. The file is a record `Disk` (does it exist, what text does
--     it hold); `append_entry`, `log_submitted`, `log_approval`, `log_rejection`, `log_commit`,
--     `read_entries` and `generate_summary` carry the names of the source. An `IoOutcome` says how a
--     write ends, torn writes included, also those that stop inside a character. Torn, Reading and
--     Summary hold the proofs.
--   * HumanTouch/ReviewQueue: review_queue.rs. `State` is the queue, the trail and what was printed;
--     `handle_incoming_change`, `approve_change`, `reject_change`, `mark_committed`, `status`,
--     `check_pending_reviews` and `process_queue` take and return it, and return an error where the
--     source does. Runs has sequences of operations; Capacity, Approval, Decisions, Status and Format
--     hold the proofs.
--   * HumanTouch/Interactive: the command loop of main.rs, which calls the queue.
--   * HumanTouch/Processor: the two tasks of `main` in main.rs and the mutex they share, as a step
--     relation; Starvation has the proof on it.
--   * HumanTouch/Startup: the arguments, the set-up and the end of `main` in main.rs, with the steps of
--     Processor in each of its stages; Endings, Reached and Deciders hold the proofs.
--   * HumanTouch/CommitGateway: commit_gateway.rs over an interface `Git` of what it calls of
--     libgit2; RoundTrip, Checks and Certificates hold the proofs.
-- The universe (seb/universe/src) registers artifacts, sends them through a gate and searches them.
--   * Universe/Manifest: manifest.rs. Laws has the proofs on codes and names.
--   * Universe/CvmGate: compile_verify_merge.rs. `process` is written step by step as in the source,
--     one function for the rest of the body from each step on, with its readings of the clock.
--     Verdicts, Promotion and Durations hold the proofs.
--   * Universe/Repository and Universe/Search: search_substrate.rs. `Repository` is what the file
--     holds. Indexes, Loading, File and Stale hold the proofs.
-- The reasoning protocol (seb/reasoning/src) carries the traces of agents over the bus.
--   * Reasoning/A2aProtocol: a2a_protocol.rs, with the payloads as JSON values. Partitions and
--     Emissions hold the proofs.
--   * Reasoning/Trace: trace.rs. `has_cycles_internal` has one level of recursion more than there are
--     traces as its fuel, which Cycles shows to be enough; Ancestors has what the search excludes,
--     Addresses the proofs on steps and signatures; Views has the printed forms and the symbols, on
--     which Symbols has the proofs.
--   * Reasoning/Mermaid, Reasoning/Timeline and Reasoning/Streaming: streaming.rs, its diagrams, its
--     timelines and its manager, which buffers the events of the protocol by their partitions and
--     stores traces. Actors, Durations and Bars, and Events, Diagrams and Order hold the proofs.
--   * Reasoning/Integration, Reasoning/Knowledge and Reasoning/Nif: integration.rs. The hooks of the
--     layers L1 and L3 make a trace and emit one event through a protocol handler; the layer L5
--     stores traces in a stream manager and finds them by their symbols; Nif has the functions for
--     Erlang. Hooks, Logs, Matching, Related and Knowledge/Order hold the proofs.
-- The inference (seb/runtime/shrewd/shrewd_rtx.rs) is Shrewd: a window of ticks becomes a matrix of
-- features, a prediction and a command. Features, Tallies, Predictions, ShortWindows and Turns hold
-- the proofs. `f32` and `f64` are an interface, Base/Float, with the laws of IEEE 754 that a proof
-- needs as its hypotheses: monotone operations, and quotients of numbers up to 4096 kept apart;
-- Base/Float/Exact shows with fractions that they can be met.
-- Base has what they share: tests on numbers, lists, their orders, results, maps, JSON values and, under
-- Base/Text, the string methods that the code calls, on texts as lists of Unicode scalar values.
--
-- A clock is an argument: the instant of a call, or the function of the readings of one call. Times
-- are in nanoseconds and differences are rounded as the source rounds them. The counters of the
-- source are bounded by memory and stand as natural numbers; the milliseconds of the gate keep the
-- wrap-around of u64, the counts of verdicts that of u32. A hash map stands in the order of first
-- insertion. The source leaves the order of a walk open: the walks of Universe/Search are arguments
-- of the functions that make them, and for the reasoning protocol the two modules Order look at what
-- does not depend on it. All loops are structural recursions over the inputs or the entries, so that
-- no fuel is needed, but in the search for cycles and in the decimal form of a number, whose fuel is
-- the number itself. The loop over ticks has no end; it is modelled by its first turns.
--
-- Parameters: serde_json, chrono's printing of times, blake3, libgit2, the file system and Unicode's
-- lower case, the files and variables of the host, and the bus that commands are published on. Not
-- modelled: clap and the tracing output of main.rs, which decide nothing; the examples, which print;
-- the parts of the repository in other languages.
pub mod Base
pub mod HumanTouch
pub mod Universe
pub mod Reasoning
pub mod Shrewd
