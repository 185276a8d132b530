-- ===== src/HumanTouch/Startup.antt =====
-- seb/human_touch/src/main.rs: the arguments of the program, what `main` sets up, and how it ends.
-- clap reads the arguments; tracing leaves no mark.
pub mod Endings
pub mod Reached
pub mod Deciders
pub mod Tests
use sovereign_event_bus.Base.{
  ℕ, nat_eq, ◌==◌, ◌≡◌, ◌≢◌, ◌⊎◌, Option, none, some, Bool, true, false, List, [], ◌∷◌, ◌++◌,
  Result, ok, err, if◌then◌else◌,
}
use mathlib.Core.Option
use sovereign_event_bus.Base.Text.{Text, codes}
use sovereign_event_bus.HumanTouch.AuditLog.{Codec, Disk, IoError, IoOutcome, Io}
use sovereign_event_bus.HumanTouch.AuditLog
use sovereign_event_bus.HumanTouch.ReviewQueue.{State, Call}
use sovereign_event_bus.HumanTouch.ReviewQueue
use sovereign_event_bus.HumanTouch.CommitGateway.{CommitGateway}
use sovereign_event_bus.HumanTouch.CommitGateway
use sovereign_event_bus.HumanTouch.Interactive.{Input, goes_on, run_input}
use sovereign_event_bus.HumanTouch.Processor.{
  Phase, starting, stopped, mutex_is_free, takes_mutex, Step, lock_queue, wakes, gives_up, command,
  free_command,
}

pub record Args : Type 0 where
  pub repo_path : Text
  pub audit_log : Text
  pub max_pending : ℕ
  pub approval_timeout_secs : ℕ
  pub verbose : Bool
  pub reviewer : Option Text
  pub daemon : Bool
  pub webhook_port : ℕ

-- The arguments where none is given.
abbrev pub default_args : Args
default_args = record {
  repo_path = codes ".";
  audit_log = codes "HUMAN_REVIEW_LOG.json";
  max_pending = 100;
  approval_timeout_secs = 3600;
  verbose = false;
  reviewer = none;
  daemon = false;
  webhook_port = 8080;
}

unfoldable pub reviewer_name : Args → Text
reviewer_name args = Option.get_or args.reviewer (codes "human")

-- What `main` does behind the set-up: it serves until a signal, or reads commands, or waits for the
-- spawned task, or has returned.
pub data Stage : Type 0 where
  serving interactive waiting ended : Stage

unfoldable pub first_stage : Args → Stage
first_stage args = if args.daemon then serving else interactive

-- A panic, an error that `main` returns, or the two tasks at their beginning.
pub data Start : Type 0 where
  panics : Start
  fails : IoError → Start
  runs : CommitGateway → Stage → State → Start

unfoldable pub start_tasks : Args → Io → Start
start_tasks args (err e, d) = fails e
start_tasks args (ok _, d) =
    runs (CommitGateway.new args.repo_path args.approval_timeout_secs) (first_stage args) (record {
      queue = ReviewQueue.new args.repo_path args.audit_log args.max_pending;
      log = d;
      screen = [];
      notices = [];
    })

-- A channel without room panics. The trail is opened last.
unfoldable pub start : Codec → (now : ℕ) (directory : Bool) → IoOutcome → Args → Disk → Start
start x now directory io args d =
    let started = start_tasks args (AuditLog.new x now directory io d) in
    if args.max_pending == 0 then panics else started

module _ (show_io : IoError → Text) (x : Codec) (format_time : ℕ → Text) (reviewer : Text) where
  -- A step of the spawned task.
  abbrev pub is_spawned :
      {p q : Phase} {s t : State} → Step show_io x format_time reviewer p s q t → Bool
  is_spawned lock_queue = true
  is_spawned (wakes call w made) = true
  is_spawned (gives_up call w e made) = true
  is_spawned (command call input free made) = false
  is_spawned (free_command call input free made) = false

  -- One step of the program. The spawned task acts until `main` returns. The interactive task reads
  -- commands, those that take the mutex where it is free; `exit`, and an input that cannot be read,
  -- end its loop.
  pub data Turn : Stage → Phase → State → Stage → Phase → State → Type 0 where
    spawned :
        {g : Stage} {p q : Phase} {s t : State} (made : Step show_io x format_time reviewer p s q t)
        → is_spawned made ≡ true
        → g ≢ ended
        → Turn g p s g q t
    reads :
        {p : Phase} {s t : State} (call : Call) (input : Input)
        → (mutex_is_free p ≡ true) ⊎ (takes_mutex input ≡ false)
        → (run_input show_io x reviewer call input s).0 ≡ goes_on
        → (run_input show_io x reviewer call input s).1 ≡ t
        → Turn interactive p s interactive p t
    leaves :
        {p : Phase} {s t : State} (call : Call) (input : Input)
        → (run_input show_io x reviewer call input s).0 ≢ goes_on
        → (run_input show_io x reviewer call input s).1 ≡ t
        → Turn interactive p s waiting p t
    joins : {s : State} → Turn waiting stopped s ended stopped s
    signal : {p : Phase} {s : State} → Turn serving p s ended p s

  pub data Run (s : State) : Stage → Stage → Phase → State → Type 0 where
    begins : {g : Stage} → Run s g g starting s
    then_turns :
        {g h i : Stage} {p q : Phase} {t u : State}
        → Run s g h p t
        → Turn h p t i q u
        → Run s g i q u
