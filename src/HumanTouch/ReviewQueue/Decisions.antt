-- ===== src/HumanTouch/ReviewQueue/Decisions.antt =====
-- The decisions of review_queue.rs and the audit trail: what is stored, what is written, and what
-- is left when the trail cannot be written.
use sovereign_event_bus.Base.{
  ℕ, ◌≡◌, ◌≢◌, refl, Option, none, some, true, false, List, [], ◌∷◌, ◌++◌, ok, err, is_ok, arith,
}
use mathlib.Core.Option
use sovereign_event_bus.Base.Text.{Text, codes, text_eq}
use sovereign_event_bus.Base.Map
use sovereign_event_bus.Base.Map.Laws.{get-modify_self}
use sovereign_event_bus.HumanTouch.AuditLog.{
  AuditEntry, Codec, Disk, IoOutcome, done, open_fails, sync_fails, write_fails, Io, append_entry,
  approval_entry, rejection_entry, commit_entry, log_approval, log_rejection, log_commit,
  read_entries,
}
use sovereign_event_bus.HumanTouch.AuditLog.Reading.{IsClosed, IsRead, read_entries-append_entry}
use sovereign_event_bus.HumanTouch.ReviewQueue.{
  ChangeStatus, approved, rejected, committed, ChangeRecord, State, Outcome, Call, not_found,
  after_audit, update_change, approve_record, reject_record, commit_record, approve_change,
  reject_change, mark_committed,
}

-- A record of the same change with these fields.
abbrev pub decided :
    ChangeStatus
    → (reviewer : Option Text) (time : Option ℕ) (reason commit_hash : Option Text) → ChangeRecord
    → ChangeRecord
decided status reviewer time reason commit_hash r = record {
  change = r.change;
  status = status;
  reviewed_by = reviewer;
  review_timestamp = time;
  rejection_reason = reason;
  commit_hash = commit_hash;
}

-- An entry that the gateway writes about a decision.
abbrev decision_line :
    Codec
    → (now : ℕ) (event id reviewer decision : Text) (reason commit_hash : Option Text) → AuditEntry
decision_line x now event id reviewer decision reason commit_hash = record {
  timestamp = x.rfc3339_millis now;
  event_type = event;
  change_id = id;
  agent_name = codes "human-touch";
  reviewer = some reviewer;
  decision = decision;
  reason = reason;
  commit_hash = commit_hash;
  evidence_url = none;
}

abbrev pub approved_line : Codec → (now : ℕ) (id reviewer description : Text) → AuditEntry
approved_line x now id reviewer description =
    decision_line x now (codes "CHANGE_APPROVED") id reviewer (codes "APPROVED")
      (some (codes "Human approval granted: " ++ description)) none

abbrev pub rejected_line : Codec → (now : ℕ) (id reviewer reason : Text) → AuditEntry
rejected_line x now id reviewer reason =
    decision_line x now (codes "CHANGE_REJECTED") id reviewer (codes "REJECTED") (some reason) none

-- The reviewer of a change that nobody reviewed is `unknown`.
abbrev pub reviewer_or_unknown : Option Text → Text
reviewer_or_unknown none = codes "unknown"
reviewer_or_unknown (some reviewer) = reviewer

abbrev pub committed_line :
    Codec → (now : ℕ) (id commit_hash : Text) (reviewer : Option Text) → AuditEntry
committed_line x now id commit_hash reviewer =
    decision_line x now (codes "CHANGE_COMMITTED") id (reviewer_or_unknown reviewer)
      (codes "COMMITTED") none (some commit_hash)

get_or-unknown :
    (reviewer : Option Text)
    → Option.get_or reviewer (codes "unknown") ≡ reviewer_or_unknown reviewer
get_or-unknown none = refl
get_or-unknown (some reviewer) = refl

-- An outcome without an error, after which the trail reads as `es` and the change is stored as `r`.
abbrev pub Recorded : Codec → Text → ChangeRecord → List AuditEntry → Outcome → Type 0
Recorded x id r es (result, s) =
    (result ≡ ok tt) × (Map.get id s.queue.changes ≡ some r) × (read_entries x true s.log ≡ ok es)

-- An error, although the change is stored as `r`.
abbrev pub Unrecorded : Text → ChangeRecord → Outcome → Type 0
Unrecorded id r (result, s) = (is_ok result ≡ false) × (Map.get id s.queue.changes ≡ some r)

-- The trail is readable as `es` and ends with a whole line.
pub record HasTrail (x : Codec) (d : Disk) (es : List AuditEntry) : Type 0 where
  pub closed : IsClosed d
  pub reads : read_entries x true d ≡ ok es

module _ (x : Codec) where
  written :
      (e : AuditEntry) (d : Disk) (es : List AuditEntry)
      → HasTrail x d es
      → IsRead x e
      → ((append_entry x done e d).0 ≡ ok tt)
        × (read_entries x true (append_entry x done e d).1 ≡ ok (es ++ e ∷ []))
  written e d es trail laws =
      let (fine, _, reads) = read_entries-append_entry x e d es laws.0 trail.closed trail.reads in
      (fine, rw laws.1 at reads)

  after_audit-Recorded :
      (id : Text) (f : ChangeRecord → ChangeRecord) (io : Io) (s : State) (r : ChangeRecord)
      (es : List AuditEntry)
      → Map.get id s.queue.changes ≡ some r
      → io.0 ≡ ok tt
      → read_entries x true io.1 ≡ ok es
      → Recorded x id (f r) es (after_audit io (update_change id f s))
  unfolding after_audit update_change
  after_audit-Recorded id f (ok _, d) s r es there fine reads =
      (refl, get-modify_self id f s.queue.changes there, reads)
  after_audit-Recorded id f (err e, d) s r es there fine reads = cc

  recorded :
      (id : Text) (f : ChangeRecord → ChangeRecord) (e : AuditEntry) (s : State) (r : ChangeRecord)
      (es : List AuditEntry)
      → Map.get id s.queue.changes ≡ some r
      → HasTrail x s.log es
      → IsRead x e
      → Recorded x id
          (f r)
          (es ++ e ∷ [])
          (after_audit (append_entry x done e s.log) (update_change id f s))
  recorded id f e s r es there trail laws =
      let (fine, reads) = written e s.log es trail laws in
      after_audit-Recorded id f (append_entry x done e s.log) s r (es ++ e ∷ []) there fine reads

  unrecorded :
      (id : Text) (f : ChangeRecord → ChangeRecord) (io : Io) (s : State) (r : ChangeRecord)
      → Map.get id s.queue.changes ≡ some r
      → is_ok io.0 ≡ false
      → Unrecorded id (f r) (after_audit io (update_change id f s))
  unfolding after_audit update_change
  unrecorded id f (ok _, d) s r there failed = cc
  unrecorded id f (err e, d) s r there failed = (refl, get-modify_self id f s.queue.changes there)

  failed_append :
      (io : IoOutcome) (e : AuditEntry) (d : Disk)
      → io ≢ done
      → is_ok (append_entry x io e d).0 ≡ false
  unfolding append_entry
  failed_append done e d h = absurd (h refl)
  failed_append open_fails e d h = ground arith
  failed_append sync_fails e d h = ground arith
  failed_append (write_fails n) e d h = ground arith

module _ (x : Codec) (call : Call) (id : Text) (s : State) (r : ChangeRecord)
    (there : Map.get id s.queue.changes ≡ some r) where
  approve-found :
      (reviewer : Text)
      → approve_change x call id reviewer s
        ≡ after_audit
            (append_entry x call.io
              (approval_entry x call.now id reviewer r.change.description)
              s.log)
            (update_change id (approve_record reviewer call.now) s)
  unfolding approve_change log_approval
  approve-found reviewer = rw (there, approve_change)

  reject-found :
      (reviewer reason : Text)
      → reject_change x call id reviewer reason s
        ≡ after_audit
            (append_entry x call.io (rejection_entry x call.now id reason reviewer) s.log)
            (update_change id (reject_record reviewer reason call.now) s)
  unfolding reject_change log_rejection
  reject-found reviewer reason = rw (there, reject_change)

  commit-found :
      (commit_hash : Text)
      → mark_committed x call id commit_hash s
        ≡ after_audit
            (append_entry x call.io
              (commit_entry x call.now id commit_hash
                (Option.get_or r.reviewed_by (codes "unknown")))
              s.log)
            (update_change id (commit_record commit_hash) s)
  unfolding mark_committed log_commit
  commit-found commit_hash = rw (there, mark_committed)

  module _ (es : List AuditEntry) (trail : HasTrail x s.log es) (wrote : call.io ≡ done) where
    approve_change-Recorded :
        (reviewer : Text)
        → IsRead x (approval_entry x call.now id reviewer r.change.description)
        → Recorded x id
            (approve_record reviewer call.now r)
            (es ++ approval_entry x call.now id reviewer r.change.description ∷ [])
            (approve_change x call id reviewer s)
    approve_change-Recorded reviewer laws =
        rw (approve-found reviewer, wrote)
          (recorded x id (approve_record reviewer call.now)
            (approval_entry x call.now id reviewer r.change.description) s r es there trail laws)

    reject_change-Recorded :
        (reviewer reason : Text)
        → IsRead x (rejection_entry x call.now id reason reviewer)
        → Recorded x id
            (reject_record reviewer reason call.now r)
            (es ++ rejection_entry x call.now id reason reviewer ∷ [])
            (reject_change x call id reviewer reason s)
    reject_change-Recorded reviewer reason laws =
        rw (reject-found reviewer reason, wrote)
          (recorded x id (reject_record reviewer reason call.now)
            (rejection_entry x call.now id reason reviewer) s r es there trail laws)

    mark_committed-Recorded :
        (commit_hash : Text)
        → IsRead x
            (commit_entry x call.now id commit_hash (Option.get_or r.reviewed_by (codes "unknown")))
        → Recorded x id
            (commit_record commit_hash r)
            (es
              ++ commit_entry x call.now id commit_hash
                  (Option.get_or r.reviewed_by (codes "unknown"))
                ∷ [])
            (mark_committed x call id commit_hash s)
    mark_committed-Recorded commit_hash laws =
        rw (commit-found commit_hash, wrote)
          (recorded x id (commit_record commit_hash)
            (commit_entry x call.now id commit_hash (Option.get_or r.reviewed_by (codes "unknown")))
            s r es there trail laws)

    -- Where the write succeeds, on a trail that is readable and ends with a whole line, and the
    -- entries of the three operations are ones that read back: each of them, on a known change
    -- whatever its status, sets the fields of its decision and no other (the status; the reviewer and
    -- the time of an approval or a rejection; the reason of a rejection; the hash of a commit), and a
    -- new last entry of the trail says the same. A change that nobody reviewed is committed as well;
    -- its entry then names the reviewer `unknown`.
    pub decision-Recorded :
        (reviewer reason commit_hash : Text)
        → IsRead x (approved_line x call.now id reviewer r.change.description)
        → IsRead x (rejected_line x call.now id reviewer reason)
        → IsRead x (committed_line x call.now id commit_hash r.reviewed_by)
        → Recorded x id
            (decided approved (some reviewer) (some call.now) r.rejection_reason r.commit_hash r)
            (es ++ approved_line x call.now id reviewer r.change.description ∷ [])
            (approve_change x call id reviewer s)
          × Recorded x id
              (decided rejected (some reviewer) (some call.now) (some reason) r.commit_hash r)
              (es ++ rejected_line x call.now id reviewer reason ∷ [])
              (reject_change x call id reviewer reason s)
          × Recorded x id
              (decided committed r.reviewed_by r.review_timestamp r.rejection_reason
                (some commit_hash)
                r)
              (es ++ committed_line x call.now id commit_hash r.reviewed_by ∷ [])
              (mark_committed x call id commit_hash s)
    unfolding approve_record reject_record commit_record approval_entry rejection_entry commit_entry
    decision-Recorded reviewer reason commit_hash approval rejection commit = (
      approve_change-Recorded reviewer approval,
      reject_change-Recorded reviewer reason rejection,
      rw (← get_or-unknown r.reviewed_by)
          (mark_committed-Recorded commit_hash (rw (get_or-unknown r.reviewed_by) commit)),
    )

  -- Where the trail cannot be written, each of the three operations on a known change returns an
  -- error and has changed the record all the same.
  pub decision-Unrecorded :
      (reviewer reason commit_hash : Text)
      → call.io ≢ done
      → Unrecorded id (approve_record reviewer call.now r) (approve_change x call id reviewer s)
        × Unrecorded id
            (reject_record reviewer reason call.now r)
            (reject_change x call id reviewer reason s)
        × Unrecorded id (commit_record commit_hash r) (mark_committed x call id commit_hash s)
  decision-Unrecorded reviewer reason commit_hash failed = (
    rw (approve-found reviewer)
        (unrecorded x id _ _ s r there (failed_append x call.io _ s.log failed)),
    rw (reject-found reviewer reason)
        (unrecorded x id _ _ s r there (failed_append x call.io _ s.log failed)),
    rw (commit-found commit_hash)
        (unrecorded x id _ _ s r there (failed_append x call.io _ s.log failed)),
  )

-- An unknown id is refused, and neither the queue nor the trail changes.
pub decision_not_found :
    (x : Codec) (call : Call) (id reviewer reason commit_hash : Text) (s : State)
    → Map.get id s.queue.changes ≡ none
    → (approve_change x call id reviewer s ≡ (err (not_found id), s))
      × (reject_change x call id reviewer reason s ≡ (err (not_found id), s))
      × (mark_committed x call id commit_hash s ≡ (err (not_found id), s))
unfolding approve_change reject_change mark_committed
decision_not_found x call id reviewer reason commit_hash s gone =
    (rw (gone, approve_change), rw (gone, reject_change), rw (gone, mark_committed))
