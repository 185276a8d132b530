-- ===== src/HumanTouch/Processor.antt =====
-- seb/human_touch/src/main.rs: the two tasks of `main`. The spawned task takes the mutex of the
-- review queue, calls `process_queue` and gives the mutex back when that returns, which it does at
-- the first failed write to the audit trail only. The interactive task takes the mutex for each
-- `approve`, `reject` and `status`.
pub mod Starvation
pub mod Tests
use sovereign_event_bus.Base.{
  ℕ, ◌≡◌, Option, none, some, Bool, true, false, List, [], ◌∷◌, Result, ok, err, ◌==◌,
  if◌then◌else◌, is_empty, not, ◌&&◌, ◌||◌,
}
use sovereign_event_bus.Base.Text.{Text, codes, text_eq}
use sovereign_event_bus.Base.Text.Trim.{trim}
use sovereign_event_bus.Base.Text.Words.{split_whitespace}
use sovereign_event_bus.HumanTouch.AuditLog.{Codec, IoError}
use sovereign_event_bus.HumanTouch.ReviewQueue.{State, Call, Wake, QueueError, handle_wake}
use sovereign_event_bus.HumanTouch.Interactive.{Input, typed, end_of_input, read_fails, run_input}

-- The spawned task: it has not taken the mutex yet, it holds it, or it has returned.
pub data Phase : Type 0 where
  starting running stopped : Phase

abbrev pub mutex_is_free : Phase → Bool
mutex_is_free starting = true
mutex_is_free running = false
mutex_is_free stopped = true

-- The commands that call `review_queue.lock().await`.
unfoldable pub locks : List Text → Bool
locks [] = false
locks (verb ∷ args) =
    ((verb == codes "approve" || verb == codes "reject") && not (is_empty args))
    || verb == codes "status"

unfoldable pub takes_mutex : Input → Bool
unfolding locks
takes_mutex (typed line) = locks (split_whitespace (trim line))
takes_mutex end_of_input = false
takes_mutex read_fails = false

module _ (show_io : IoError → Text) (x : Codec) (format_time : ℕ → Text) (reviewer : Text) where
  -- One step of one of the tasks.
  pub data Step : Phase → State → Phase → State → Type 0 where
    lock_queue : {s : State} → Step starting s running s
    wakes :
        {s t : State} (call : Call) (w : Wake)
        → handle_wake x format_time call w s ≡ (ok tt, t)
        → Step running s running t
    gives_up :
        {s t : State} (call : Call) (w : Wake) (e : QueueError)
        → handle_wake x format_time call w s ≡ (err e, t)
        → Step running s stopped t
    command :
        {p : Phase} {s t : State} (call : Call) (input : Input)
        → mutex_is_free p ≡ true
        → (run_input show_io x reviewer call input s).1 ≡ t
        → Step p s p t
    free_command :
        {p : Phase} {s t : State} (call : Call) (input : Input)
        → takes_mutex input ≡ false
        → (run_input show_io x reviewer call input s).1 ≡ t
        → Step p s p t

  pub data Reach (p : Phase) (s : State) : Phase → State → Type 0 where
    here : Reach p s p s
    there : {q r : Phase} {t u : State} → Reach p s q t → Step q t r u → Reach p s r u
