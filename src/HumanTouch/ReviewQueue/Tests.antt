-- ===== src/HumanTouch/ReviewQueue/Tests.antt =====
-- Runs and witnesses for review_queue.rs.
use sovereign_event_bus.Base.{
  none, ℕ, ◌+◌, ◌≡◌, refl, inl, some, true, List, [], ◌∷◌, length, keep, any, arith,
}
use sovereign_event_bus.Base.Text.{Text, codes, contains, text_eq}
use sovereign_event_bus.Base.Text.Lines.{lines}
use sovereign_event_bus.Base.Text.Trim.{trim}
use sovereign_event_bus.Base.Map
use sovereign_event_bus.HumanTouch.AuditLog.{
  append_entry, log_submitted, log_approval, is_header, parse_lines, read_entries,
}
use sovereign_event_bus.HumanTouch.ReviewQueue.{
  rejected, committed, ChangeRecord, Call, received, new_record, approve_record, reject_record,
  commit_record, approve_change, reject_change, mark_committed, status, check_pending_reviews,
  update_change, after_audit, handle_wake, handle_incoming_change, show_request,
}
use sovereign_event_bus.HumanTouch.ReviewQueue.Runs.{Op, wake, approve, step, after}
use sovereign_event_bus.HumanTouch.ReviewQueue.Capacity.{
  SameChanges, IsSound, after-IsSound, after_full,
}
use sovereign_event_bus.HumanTouch.ReviewQueue.Status.{
  is_warning, is_ready, is_overdue, is_settled, status_counts, check_pending_reviews_counts,
  is_open, number_of,
}
use sovereign_event_bus.HumanTouch.ReviewQueue.Approval.{approves, after-Justified}
use sovereign_event_bus.HumanTouch.ReviewQueue.Decisions.{
  HasTrail, decided, Recorded, Unrecorded, decision-Recorded, decision-Unrecorded,
}
use sovereign_event_bus.HumanTouch.Samples.{
  sample_change, sample_codec, sample_approval, sample_rejection, sample_commit, empty_log,
  sample_queue, sample_state, empty_state, good_call, bad_call,
}

abbrev show_time : ℕ → Text
show_time n = codes "t"

-- A change comes in and is approved; the last operation stands first.
abbrev history : List (Call × Op)
history =
    (good_call, approve (codes "c1") (codes "ann"))
    ∷ (good_call, wake (received sample_change))
    ∷ []

abbrev approved_record : ChangeRecord
approved_record = unfold approve_record in approve_record (codes "ann") 7 (new_record sample_change)

sample-found : Map.get (codes "c1") sample_state.queue.changes ≡ some (new_record sample_change)
unfolding Map.get
sample-found = refl

empty_log-trail : HasTrail sample_codec empty_log []
unfolding read_entries parse_lines lines
empty_log-trail = record { closed = inl refl; reads = refl }

empty-IsSound : IsSound empty_state
unfolding Map.get
empty-IsSound = record { fits = omega arith; distinct = tt; filed = λ k r e. cc }

after-IsSound_example : IsSound (after sample_codec show_time history empty_state)
after-IsSound_example = after-IsSound sample_codec show_time history empty_state empty-IsSound

after_full_example :
    (Map.keys (after sample_codec show_time history sample_state).queue.changes
      ≡ Map.keys sample_state.queue.changes)
    × (length (after sample_codec show_time history sample_state).queue.changes
        ≡ length sample_state.queue.changes)
    × SameChanges sample_state.queue.changes
        (after sample_codec show_time history sample_state).queue.changes
after_full_example = after_full sample_codec show_time history sample_state (omega arith)

status_counts_example :
    ((status sample_queue).pending_count ≡ number_of is_open (Map.values sample_queue.changes))
    × ((status sample_queue).approved_count ≡ 0)
    × ((status sample_queue).rejected_count ≡ 0)
    × ((status sample_queue).committed_count ≡ 0)
    × ((status sample_queue).pending_count
          + (status sample_queue).approved_count
          + (status sample_queue).rejected_count
          + (status sample_queue).committed_count
        ≡ (status sample_queue).total)
    × ((status sample_queue).total ≡ length sample_queue.changes)
    × ((status sample_queue).capacity ≡ sample_queue.max_pending)
status_counts_example = status_counts sample_queue

run-found :
    Map.get (codes "c1") (after sample_codec show_time history empty_state).queue.changes
    ≡ some approved_record
unfolding after step handle_wake handle_incoming_change log_submitted append_entry approve_change
    log_approval after_audit show_request update_change Map.get Map.insert Map.modify approve_record
run-found = refl

after-Justified_example :
    (who : Text) × (some (codes "ann") ≡ some who)
    × (any (λ o. approves (codes "c1") who o.1) history ≡ true)
unfolding approve_record
after-Justified_example =
    after-Justified sample_codec show_time history empty_state refl (codes "c1") approved_record
      run-found

abbrev late : Map.Map Text ChangeRecord
late = (codes "c1", new_record sample_change) ∷ []

check_pending_reviews_counts_example :
    (length (keep is_warning (check_pending_reviews 3601000000000 late))
      ≡ length (keep (is_overdue 3601000000000) (Map.values late)))
    × (length (keep is_ready (check_pending_reviews 3601000000000 late))
        ≡ length (keep (is_settled 3601000000000) (Map.values late)))
check_pending_reviews_counts_example = check_pending_reviews_counts 3601000000000 late

decision-Recorded_example :
    Recorded sample_codec
      (codes "c1")
      approved_record
      (sample_approval ∷ [])
      (approve_change sample_codec good_call (codes "c1") (codes "ann") sample_state)
    × Recorded sample_codec
        (codes "c1")
        (decided rejected
          (some (codes "ann"))
          (some 7)
          (some (codes "no"))
          none
          (new_record sample_change))
        (sample_rejection ∷ [])
        (reject_change sample_codec good_call (codes "c1") (codes "ann") (codes "no") sample_state)
    × Recorded sample_codec
        (codes "c1")
        (decided committed none none none (some (codes "abc")) (new_record sample_change))
        (sample_commit ∷ [])
        (mark_committed sample_codec good_call (codes "c1") (codes "abc") sample_state)
unfolding approve_record trim is_header contains
decision-Recorded_example =
    decision-Recorded sample_codec good_call (codes "c1") sample_state (new_record sample_change)
      sample-found [] empty_log-trail refl (codes "ann") (codes "no") (codes "abc")
      (record { round_trip = refl; one_line = refl; not_blank = refl }, refl)
      (record { round_trip = refl; one_line = refl; not_blank = refl }, refl)
      (record { round_trip = refl; one_line = refl; not_blank = refl }, refl)

decision-Unrecorded_example :
    Unrecorded
      (codes "c1")
      (approve_record (codes "ann") 7 (new_record sample_change))
      (approve_change sample_codec bad_call (codes "c1") (codes "ann") sample_state)
    × Unrecorded
        (codes "c1")
        (reject_record (codes "ann") (codes "no") 7 (new_record sample_change))
        (reject_change sample_codec bad_call (codes "c1") (codes "ann") (codes "no") sample_state)
    × Unrecorded
        (codes "c1")
        (commit_record (codes "abc") (new_record sample_change))
        (mark_committed sample_codec bad_call (codes "c1") (codes "abc") sample_state)
decision-Unrecorded_example =
    decision-Unrecorded sample_codec bad_call (codes "c1") sample_state (new_record sample_change)
      sample-found (codes "ann") (codes "no") (codes "abc") λ e. cc
