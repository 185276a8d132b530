-- ===== src/HumanTouch/Processor/Tests.antt =====
-- A witness for the two tasks of main.rs.
use sovereign_event_bus.Base.{ℕ, refl}
use sovereign_event_bus.Base.Text.{Text, codes}
use sovereign_event_bus.HumanTouch.AuditLog.{IoError, log_submitted, append_entry}
use sovereign_event_bus.HumanTouch.ReviewQueue.{
  State, received, handle_wake, handle_incoming_change, after_audit, show_request,
}
use sovereign_event_bus.HumanTouch.Processor.{running, Reach, here, there, wakes}
use sovereign_event_bus.HumanTouch.Processor.Starvation.{Undecided, running-Undecided}
use sovereign_event_bus.HumanTouch.Samples.{sample_change, sample_codec, empty_state, good_call}

abbrev show_io : IoError → Text
show_io e = codes "io"

abbrev show_time : ℕ → Text
show_time n = codes "t"

abbrev received_state : State
received_state =
    (handle_wake sample_codec show_time good_call (received sample_change) empty_state).1

one_wake :
    Reach show_io sample_codec show_time (codes "ann") running empty_state running received_state
unfolding handle_wake handle_incoming_change log_submitted append_entry after_audit show_request
one_wake = there here (wakes good_call (received sample_change) refl)

running-Undecided_example : Undecided empty_state.queue.changes received_state.queue.changes
running-Undecided_example = running-Undecided show_io sample_codec show_time (codes "ann") one_wake
