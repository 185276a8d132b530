-- ===== src/HumanTouch/ReviewQueue.antt =====
-- seb/human_touch/src/review_queue.rs: the queue of changes that wait for a human decision. An
-- operation takes and returns the whole state: the queue, the file of the audit trail and the
-- lines that were printed. Trace output (`info!`, `debug!`, `warn!`) leaves no mark, but for the
-- notices of `check_pending_reviews`. The channel of incoming changes is the list of wakes that
-- `process_queue` is given.
pub mod Format
pub mod Runs
pub mod Capacity
pub mod Status
pub mod Decisions
pub mod Approval
pub mod Tests
use sovereign_event_bus.Base.{
  ℕ, ◌+◌, ◌-◌, ◌/◌, Option, none, some, Bool, true, false, List, [], ◌∷◌, ◌++◌, map, Result, ok,
  err, Eq, ◌==◌, if◌then◌else◌, leb, ltb, length, replicate,
}
use mathlib.Core.Option
use sovereign_event_bus.Base.Text.{Text, codes, text_eq}
use sovereign_event_bus.Base.Text.Lines.{newline, lines, join}
use sovereign_event_bus.Base.Text.Slices.{decimal}
use sovereign_event_bus.Base.Map
use sovereign_event_bus.Base.Map.{Map}
use sovereign_event_bus.HumanTouch.AuditLog.{
  PendingChange, Codec, Disk, IoOutcome, IoError, Io, log_submitted, log_approval, log_rejection,
  log_commit,
}

pub data ChangeStatus : Type 0 where
  pending under_review approved rejected committed : ChangeStatus

pub record ChangeRecord : Type 0 where
  pub change : PendingChange
  pub status : ChangeStatus
  pub reviewed_by : Option Text
  pub review_timestamp : Option ℕ
  pub rejection_reason : Option Text
  pub commit_hash : Option Text

pub record ReviewQueue : Type 0 where
  pub repo_path : Text
  pub audit_log : Text
  pub max_pending : ℕ
  pub changes : Map Text ChangeRecord
  pub pending_queue : List Text

unfoldable pub new : Text → Text → ℕ → ReviewQueue
new repo_path audit_log max_pending = record {
  repo_path = repo_path;
  audit_log = audit_log;
  max_pending = max_pending;
  changes = [];
  pending_queue = [];
}

-- What `check_pending_reviews` says of one record.
pub data Notice : Type 0 where
  ready_for_commit : Text → Text → Notice
  pending_too_long : Text → ℕ → Notice

pub record State : Type 0 where
  pub queue : ReviewQueue
  pub log : Disk
  pub screen : List Text
  pub notices : List Notice

pub data QueueError : Type 0 where
  not_found : Text → QueueError
  audit : IoError → QueueError

abbrev pub Outcome : Type 0
Outcome = Result QueueError (Unit {0}) × State

-- The clock and the answer of the file system to the one write that an operation makes.
pub record Call : Type 0 where
  pub now : ℕ
  pub io : IoOutcome

-- `audit_log.…().await?`, the last effect of an operation.
unfoldable pub after_audit : Io → State → Outcome
after_audit (ok _, d) s = (ok tt, record s { log = d })
after_audit (err e, d) s = (err (audit e), record s { log = d })

-- `" ".repeat(spaces)` in front of each line.
unfoldable pub indent_text : Text → ℕ → Text
indent_text text spaces =
    join (newline ∷ []) (map (λ line. replicate spaces b' ' ++ line) (lines text))

-- `created_at` is printed by chrono's `format`, a parameter.
unfoldable pub format_review_request : (ℕ → Text) → PendingChange → Text
format_review_request format_time change =
    codes "\n┌─────────────────────────────────────────────────────────────┐\n"
    ++ (codes "│                   HUMAN REVIEW REQUEST                       │\n"
        ++ (codes "├─────────────────────────────────────────────────────────────┤\n"
            ++ (codes "│ ID:       "
                ++ (change.id
                    ++ (codes "\n│ Agent:    "
                        ++ (change.agent_name
                            ++ (codes "\n│ Time:     "
                                ++ (format_time change.created_at
                                    ++ (codes "\n│ Status:   ⏳ AWAITING REVIEW\n"
                                        ++ (codes
                                              "├─────────────────────────────────────────────────────────────┤\n"
                                            ++ (codes "│ DESCRIPTION:\n│ "
                                                ++ (indent_text change.description 2
                                                    ++ (codes
                                                          "\n├─────────────────────────────────────────────────────────────┤\n"
                                                        ++ (codes "│ EVIDENCE:\n│ "
                                                            ++ (indent_text change.evidence 2
                                                            ++ (codes
                                                            "\n├─────────────────────────────────────────────────────────────┤\n"
                                                            ++ (codes "│ FILES MODIFIED: "
                                                            ++ (decimal (length change.files)
                                                            ++ (codes
                                                            "\n├─────────────────────────────────────────────────────────────┤\n"
                                                            ++ (codes "│ DECISION:\n│   ✅ approve "
                                                            ++ (change.id
                                                            ++ (codes
                                                            "  - Approve and commit\n│   ❌ reject "
                                                            ++ (change.id
                                                            ++ (codes
                                                            "   - Reject with reason\n│   📝 inspect    - Show full diff\n"
                                                            ++ codes
                                                            "└─────────────────────────────────────────────────────────────┘\n"))))))))))))))))))))))))

abbrev pub prompt : Text
prompt = codes "🤔 Awaiting human review. Enter 'approve <id>' or 'reject <id> <reason>'"

abbrev pub new_record : PendingChange → ChangeRecord
new_record change = record {
  change = change;
  status = pending;
  reviewed_by = none;
  review_timestamp = none;
  rejection_reason = none;
  commit_hash = none;
}

-- The four `println!` of an accepted change, which come after the write to the audit trail.
unfoldable pub show_request : Text → Outcome → Outcome
show_request request (ok _, s) =
    (ok tt, record s { screen = s.screen ++ (request ∷ [] ∷ prompt ∷ [] ∷ []) })
show_request request (err e, s) = (err e, s)

-- `changes.get_mut(id)` and the body under `if let`; `None` is an error.
unfoldable pub update_change : Text → (ChangeRecord → ChangeRecord) → State → State
update_change id f s = record s {
  queue = record s.queue { changes = Map.modify id f s.queue.changes };
}

unfoldable pub approve_record : Text → ℕ → ChangeRecord → ChangeRecord
approve_record reviewer now r = record r {
  status = approved;
  reviewed_by = some reviewer;
  review_timestamp = some now;
}

unfoldable pub reject_record : Text → Text → ℕ → ChangeRecord → ChangeRecord
reject_record reviewer reason now r = record r {
  status = rejected;
  reviewed_by = some reviewer;
  review_timestamp = some now;
  rejection_reason = some reason;
}

unfoldable pub commit_record : Text → ChangeRecord → ChangeRecord
commit_record commit_hash r = record r { status = committed; commit_hash = some commit_hash }

module _ (x : Codec) (format_time : ℕ → Text) where
  unfoldable pub handle_incoming_change : Call → PendingChange → State → Outcome
  handle_incoming_change call change s =
      if leb s.queue.max_pending (length s.queue.changes)
      then after_audit
          (log_rejection x call.now call.io change.id (codes "Queue capacity exceeded")
            change.agent_name s.log)
          s
      else show_request (format_review_request format_time change) (
          after_audit (log_submitted x call.now call.io change s.log) (record s {
            queue = record s.queue {
              changes = Map.insert change.id (new_record change) s.queue.changes;
            };
          }))

module _ (x : Codec) where
  unfoldable pub approve_change : Call → Text → Text → State → Outcome
  approve_change call id reviewer s = elim (Map.get id s.queue.changes) [
    | none ↦ (err (not_found id), s)
    | some r ↦
        after_audit (log_approval x call.now call.io id reviewer r.change.description s.log)
          (update_change id (approve_record reviewer call.now) s)
  ]

  unfoldable pub reject_change : Call → Text → Text → Text → State → Outcome
  reject_change call id reviewer reason s = elim (Map.get id s.queue.changes) [
    | none ↦ (err (not_found id), s)
    | some r ↦
        after_audit (log_rejection x call.now call.io id reason reviewer s.log)
          (update_change id (reject_record reviewer reason call.now) s)
  ]

  unfoldable pub mark_committed : Call → Text → Text → State → Outcome
  mark_committed call id commit_hash s = elim (Map.get id s.queue.changes) [
    | none ↦ (err (not_found id), s)
    | some r ↦
        after_audit
          (log_commit x call.now call.io id commit_hash
            (Option.get_or r.reviewed_by (codes "unknown")) s.log)
          (update_change id (commit_record commit_hash) s)
  ]

abbrev pub timeout_secs : ℕ
timeout_secs = 3600

-- `(now - then).num_seconds()`. A difference below zero passes no test that 0 does not pass.
abbrev pub elapsed_secs : ℕ → ℕ → ℕ
elapsed_secs now start = (now - start) / 1000000000

unfoldable pub check_record : ℕ → Text → ChangeRecord → ChangeStatus → List Notice
check_record now key r approved =
    if ltb 0 (elapsed_secs now (Option.get_or r.review_timestamp now))
    then ready_for_commit key (Option.get_or r.reviewed_by (codes "unknown")) ∷ []
    else []
check_record now key r pending =
    let elapsed = elapsed_secs now r.change.created_at in
    if ltb timeout_secs elapsed then pending_too_long key elapsed ∷ [] else []
check_record now key r _ = []

unfoldable pub check_pending_reviews : ℕ → Map Text ChangeRecord → List Notice
check_pending_reviews now [] = []
check_pending_reviews now ((key, r) ∷ m) =
    check_record now key r r.status ++ check_pending_reviews now m

pub record QueueStatus : Type 0 where
  pub total : ℕ
  pub pending_count : ℕ
  pub approved_count : ℕ
  pub rejected_count : ℕ
  pub committed_count : ℕ
  pub capacity : ℕ

unfoldable pub count_status : ChangeStatus → QueueStatus → QueueStatus
count_status pending q = record q { pending_count = q.pending_count + 1 }
count_status under_review q = record q { pending_count = q.pending_count + 1 }
count_status approved q = record q { approved_count = q.approved_count + 1 }
count_status rejected q = record q { rejected_count = q.rejected_count + 1 }
count_status committed q = record q { committed_count = q.committed_count + 1 }

unfoldable pub count_changes : List ChangeRecord → QueueStatus → QueueStatus
unfolding count_status
count_changes [] q = q
count_changes (r ∷ rs) q = count_changes rs (count_status r.status q)

unfoldable pub status : ReviewQueue → QueueStatus
unfolding count_changes
status q = count_changes (Map.values q.changes) (record {
  total = length q.changes;
  pending_count = 0;
  approved_count = 0;
  rejected_count = 0;
  committed_count = 0;
  capacity = q.max_pending;
})

-- What wakes the loop of `process_queue`: a change on the channel, or five seconds without one.
pub data Wake : Type 0 where
  received : PendingChange → Wake
  timer : Wake

module _ (x : Codec) (format_time : ℕ → Text) where
  unfoldable pub handle_wake : Call → Wake → State → Outcome
  unfolding handle_incoming_change
  handle_wake call (received change) s = handle_incoming_change x format_time call change s
  handle_wake call timer s =
      (ok tt, record s { notices = s.notices ++ check_pending_reviews call.now s.queue.changes })

  -- The loop up to the end of the given wakes. It stops at the first error only.
  unfoldable pub process_queue : List (Call × Wake) → State → Outcome
  process_queue [] s = (ok tt, s)
  process_queue ((call, wake) ∷ rest) s =
      let (r, s') = handle_wake call wake s in
      elim r [ ok _ ↦ process_queue rest s' | err e ↦ (err e, s') ]
