-- ===== src/HumanTouch/ReviewQueue/Runs.antt =====
-- Sequences of the operations of review_queue.rs, and what one operation does to the changes. The
-- map of changes moves in the same way whether or not the audit trail can be written.
use sovereign_event_bus.Base.{
  ℕ, ◌≡◌, refl, ◌∙◌, List, [], ◌∷◌, ok, err, if◌then◌else◌, leb, length, inl, inr, Option-cases,
  Bool-cases,
}
use sovereign_event_bus.Base.Text.{Text, text_eq}
use sovereign_event_bus.Base.Map
use sovereign_event_bus.Base.Map.{Map}
use sovereign_event_bus.Base.Map.Laws.{modify_missing}
use sovereign_event_bus.HumanTouch.AuditLog.{PendingChange, Codec, Io}
use sovereign_event_bus.HumanTouch.ReviewQueue.{
  ChangeRecord, State, Outcome, Call, Wake, received, timer, after_audit, new_record, show_request,
  update_change, approve_record, reject_record, commit_record, handle_incoming_change,
  approve_change, reject_change, mark_committed, handle_wake,
}

pub data Op : Type 0 where
  wake : Wake → Op
  approve : Text → Text → Op
  reject : Text → Text → Text → Op
  commit : Text → Text → Op

-- The changes after an operation that sees the time `now`.
unfoldable pub next : ℕ → ℕ → Op → Map Text ChangeRecord → Map Text ChangeRecord
next max_pending now (wake (received change)) m =
    if leb max_pending (length m) then m else Map.insert change.id (new_record change) m
next max_pending now (wake timer) m = m
next max_pending now (approve id reviewer) m = Map.modify id (approve_record reviewer now) m
next max_pending now (reject id reviewer reason) m =
    Map.modify id (reject_record reviewer reason now) m
next max_pending now (commit id commit_hash) m = Map.modify id (commit_record commit_hash) m

queue-after_audit : (io : Io) (s : State) → (after_audit io s).1.queue ≡ s.queue
unfolding after_audit
queue-after_audit (ok _, d) s = refl
queue-after_audit (err e, d) s = refl

queue-show_request : (t : Text) (o : Outcome) → (show_request t o).1.queue ≡ o.1.queue
unfolding show_request
queue-show_request t (ok _, s) = refl
queue-show_request t (err e, s) = refl

module _ (x : Codec) (format_time : ℕ → Text) where
  unfoldable pub step : Call → Op → State → Outcome
  step call (wake w) s = handle_wake x format_time call w s
  step call (approve id reviewer) s = approve_change x call id reviewer s
  step call (reject id reviewer reason) s = reject_change x call id reviewer reason s
  step call (commit id commit_hash) s = mark_committed x call id commit_hash s

  -- The state after some operations, of which the last one stands first. An operation that fails
  -- is reported and the next one goes on from the state that it left.
  unfoldable pub after : List (Call × Op) → State → State
  after [] s = s
  after ((call, op) ∷ earlier) s = (step call op (after earlier s)).1

  queue-submit :
      (call : Call) (change : PendingChange) (s : State)
      → (handle_incoming_change x format_time call change s).1.queue ≡ record s.queue {
        changes = next s.queue.max_pending call.now (wake (received change)) s.queue.changes;
      }
  unfolding handle_incoming_change next
  queue-submit call change s =
      elim (Bool-cases (leb s.queue.max_pending (length s.queue.changes))) [
        | inl full ↦ rw (full, handle_incoming_change) (queue-after_audit _ s)
        | inr room ↦
            rw (room, handle_incoming_change) (queue-show_request _ _ ∙ queue-after_audit _ _)
      ]

  queue-update :
      (id : Text) (f : ChangeRecord → ChangeRecord) (io : Io) (s : State)
      → (after_audit io (update_change id f s)).1.queue
        ≡ record s.queue { changes = Map.modify id f s.queue.changes }
  unfolding update_change
  queue-update id f io s = queue-after_audit io (update_change id f s)

  -- The queue after one operation.
  pub queue-step :
      (call : Call) (op : Op) (s : State)
      → (step call op s).1.queue
        ≡ record s.queue { changes = next s.queue.max_pending call.now op s.queue.changes }
  unfolding step next
  queue-step call (wake (received change)) s = unfold handle_wake in queue-submit call change s
  queue-step call (wake timer) s = unfold handle_wake in refl
  queue-step call (approve id reviewer) s =
      unfold approve_change in
      elim (Option-cases (Map.get id s.queue.changes)) [
        | inl e ↦ rw (
          e,
          approve_change,
          modify_missing id (approve_record reviewer call.now) s.queue.changes e,
        )
        | inr (r, e) ↦
            rw (e, approve_change) (queue-update id (approve_record reviewer call.now) _ s)
      ]
  queue-step call (reject id reviewer reason) s =
      unfold reject_change in
      elim (Option-cases (Map.get id s.queue.changes)) [
        | inl e ↦ rw (
          e,
          reject_change,
          modify_missing id (reject_record reviewer reason call.now) s.queue.changes e,
        )
        | inr (r, e) ↦
            rw (e, reject_change) (queue-update id (reject_record reviewer reason call.now) _ s)
      ]
  queue-step call (commit id commit_hash) s =
      unfold mark_committed in
      elim (Option-cases (Map.get id s.queue.changes)) [
        | inl e ↦
            rw (e, mark_committed, modify_missing id (commit_record commit_hash) s.queue.changes e)
        | inr (r, e) ↦ rw (e, mark_committed) (queue-update id (commit_record commit_hash) _ s)
      ]
