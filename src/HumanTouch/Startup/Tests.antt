-- ===== src/HumanTouch/Startup/Tests.antt =====
-- Runs and witnesses for the set-up and the end of main.rs.
use sovereign_event_bus.Base.{ℕ, ◌≡◌, refl, true, Option, some, [], inl}
use mathlib.Core.Option
use sovereign_event_bus.Base.Map
use sovereign_event_bus.HumanTouch.AuditLog
use sovereign_event_bus.HumanTouch.ReviewQueue
use sovereign_event_bus.HumanTouch.CommitGateway
use sovereign_event_bus.HumanTouch.ReviewQueue.Capacity.{IsSound}
use sovereign_event_bus.HumanTouch.Startup.Deciders.{DecidedBy, start-DecidedBy}
use sovereign_event_bus.Base.Text.{Text, codes, text_eq}
use sovereign_event_bus.Base.Text.Trim.{trim}
use sovereign_event_bus.Base.Text.Words.{split_whitespace}
use sovereign_event_bus.HumanTouch.AuditLog.{
  PendingChange, IoError, log_submitted, log_approval, append_entry, done,
}
use sovereign_event_bus.HumanTouch.ReviewQueue.{
  ChangeStatus, ChangeRecord, approved, State, received, handle_wake, handle_incoming_change,
  after_audit, show_request, approve_change, update_change,
}
use sovereign_event_bus.HumanTouch.Interactive.{
  typed, run_input, run_line, run_command, run_approve, report, print,
}
use sovereign_event_bus.HumanTouch.Processor.{stopped, lock_queue, wakes, gives_up}
use sovereign_event_bus.HumanTouch.Startup.{
  Args, default_args, reviewer_name, first_stage, panics, start_tasks, start, interactive, ended,
  spawned, reads, leaves, joins, Run, begins, then_turns,
}
use sovereign_event_bus.HumanTouch.Startup.Endings.{failed_wakes, failed_wakes-ended}
use sovereign_event_bus.HumanTouch.Samples.{
  sample_change, sample_codec, empty_log, empty_state, good_call, bad_call,
}

abbrev show_io : IoError → Text
show_io e = codes "io"

abbrev show_time : ℕ → Text
show_time n = codes "t"

-- A channel of no room panics.
start_no_room :
    start sample_codec 0 true done (record default_args { max_pending = 0 }) empty_state.log
    ≡ panics
unfolding start
start_no_room = refl

abbrev second_change : PendingChange
second_change = record sample_change { id = codes "c2" }

abbrev failed_state : State
failed_state = (handle_wake sample_codec show_time bad_call (received sample_change) empty_state).1

abbrev left_state : State
left_state =
    (run_input show_io sample_codec (codes "ann") good_call (typed (codes "exit\n")) failed_state).1

failing :
    Run show_io sample_codec show_time
      (codes "ann")
      empty_state
      interactive
      ended
      stopped
      left_state
unfolding handle_wake handle_incoming_change log_submitted append_entry after_audit show_request
    run_input run_line run_command print trim split_whitespace
failing =
    then_turns
      (then_turns
        (then_turns (then_turns begins (spawned lock_queue refl (λ e. cc)))
          (spawned (gives_up bad_call (received sample_change) _ refl) refl (λ e. cc)))
        (leaves good_call (typed (codes "exit\n")) (λ e. cc) refl))
      joins

failed_wakes-ended_example : failed_wakes show_io sample_codec show_time (codes "ann") failing ≡ 1
failed_wakes-ended_example = failed_wakes-ended show_io sample_codec show_time (codes "ann") failing

abbrev ann_args : Args
ann_args = record default_args { reviewer = some (codes "ann") }

abbrev begun : State
begun = record {
  queue = ReviewQueue.new (codes ".") (codes "HUMAN_REVIEW_LOG.json") 100;
  log = empty_log;
  screen = [];
  notices = [];
}

-- A change arrives, the next one cannot be written to the trail, and the first one is approved.
abbrev held : State
held = (handle_wake sample_codec show_time good_call (received sample_change) begun).1

abbrev freed : State
freed = (handle_wake sample_codec show_time bad_call (received second_change) held).1

abbrev decided : State
decided =
    (run_input show_io sample_codec (codes "ann") good_call (typed (codes "approve c1\n")) freed).1

deciding :
    Run show_io sample_codec show_time (codes "ann") begun interactive interactive stopped decided
unfolding handle_wake handle_incoming_change log_submitted append_entry after_audit show_request
    run_input run_line run_command run_approve print report approve_change update_change
    log_approval trim split_whitespace ReviewQueue.new Map.insert Map.get Map.modify
    ReviewQueue.approve_record
deciding =
    then_turns
      (then_turns
        (then_turns (then_turns begins (spawned lock_queue refl (λ e. cc)))
          (spawned (wakes good_call (received sample_change) refl) refl (λ e. cc)))
        (spawned (gives_up bad_call (received second_change) _ refl) refl (λ e. cc)))
      (reads good_call (typed (codes "approve c1\n")) (inl refl) refl refl)

decided_status :
    Option.map {B = ChangeStatus × Option Text}
      (λ (r : ChangeRecord). (r.status, r.reviewed_by))
      (Map.get (codes "c1") decided.queue.changes)
    ≡ some (approved, some (codes "ann"))
unfolding handle_wake handle_incoming_change log_submitted append_entry after_audit show_request
    run_input run_line run_command run_approve print report approve_change update_change
    log_approval trim split_whitespace ReviewQueue.new Map.insert Map.get Map.modify
    ReviewQueue.approve_record
decided_status = refl

start-DecidedBy_example :
    IsSound decided
    × ((k : Text) (r : ChangeRecord)
        → Map.get k decided.queue.changes ≡ some r
        → DecidedBy (codes "ann") r.reviewed_by r.status)
unfolding start start_tasks AuditLog.new ReviewQueue.new CommitGateway.new reviewer_name first_stage
start-DecidedBy_example =
    start-DecidedBy show_io sample_codec show_time 0 true done ann_args empty_log _ _ _ _ begun
      decided refl deciding
