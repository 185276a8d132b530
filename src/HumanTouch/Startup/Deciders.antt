-- ===== src/HumanTouch/Startup/Deciders.antt =====
-- In whose name a run of main.rs decides about changes.
use sovereign_event_bus.Base.{
  ℕ, nat_eq, ◌≡◌, ◌≢◌, refl, sym, ap, ◌∙◌, subst, inl, inr, Option, none, some, Bool, true, List,
  [], ◌∷◌, ok, err, All, any, ◌==◌, Bool-cases, arith,
}
use sovereign_event_bus.Base.Text.{Text, text_eq, text_beq_iff}
use sovereign_event_bus.Base.Map
use sovereign_event_bus.HumanTouch.AuditLog.{Codec, Disk, IoError, IoOutcome, Io}
use sovereign_event_bus.HumanTouch.AuditLog
use sovereign_event_bus.HumanTouch.ReviewQueue.{
  ChangeStatus, pending, under_review, approved, rejected, committed, ChangeRecord, ReviewQueue,
  State, Call, Wake, approve_change, reject_change, handle_wake,
}
use sovereign_event_bus.HumanTouch.ReviewQueue
use sovereign_event_bus.HumanTouch.ReviewQueue.Runs.{Op, wake, approve, reject, commit}
use sovereign_event_bus.HumanTouch.ReviewQueue.Capacity.{IsValid, IsSound, after-IsSound}
use sovereign_event_bus.HumanTouch.ReviewQueue.Approval.{
  approves, rejects, commits, Justified, after-Justified,
}
use sovereign_event_bus.HumanTouch.CommitGateway.{CommitGateway}
use sovereign_event_bus.HumanTouch.Processor.{Phase}
use sovereign_event_bus.HumanTouch.Startup.{
  Args, reviewer_name, Stage, runs, start_tasks, start, Run,
}
use sovereign_event_bus.HumanTouch.Startup.Reached.{IsOwn, Run-IsReached}

-- The status and the reviewer of a record that only `who` decides about, and nobody commits.
abbrev pub DecidedBy : Text → Option Text → ChangeStatus → Type 0
DecidedBy who by pending = by ≡ none
DecidedBy who by under_review = ⊥
DecidedBy who by approved = by ≡ some who
DecidedBy who by rejected = by ≡ some who
DecidedBy who by committed = ⊥

-- One of the operations meets the test, and those that meet it are in the name of `who`.
own-any :
    (who w : Text) (p : Op → Bool)
    → ((op : Op) → p op ≡ true → IsOwn who op → w ≡ who)
    → (ops : List (Call × Op)) → All (λ o. IsOwn who o.1) ops
    → any (λ o. p o.1) ops ≡ true
    → w ≡ who
own-any who w p named [] own h = cc
own-any who w p named ((call, op) ∷ ops) own h = elim (Bool-cases (p op)) [
  | inl hit ↦ named op hit own.0
  | inr miss ↦ own-any who w p named ops own.1 (rw miss at h)
]

approves-own : (who k w : Text) (op : Op) → approves k w op ≡ true → IsOwn who op → w ≡ who
approves-own who k w (wake v) h own = cc
approves-own who k w (approve id by) h own = ground (arith, text_beq_iff by w, own, h)
approves-own who k w (reject id by reason) h own = cc
approves-own who k w (commit id commit_hash) h own = cc

rejects-own : (who k w : Text) (op : Op) → rejects k w op ≡ true → IsOwn who op → w ≡ who
rejects-own who k w (wake v) h own = cc
rejects-own who k w (approve id by) h own = cc
rejects-own who k w (reject id by reason) h own = ground (arith, text_beq_iff by w, own, h)
rejects-own who k w (commit id commit_hash) h own = cc

never_commits :
    (who k : Text) (ops : List (Call × Op))
    → All (λ o. IsOwn who o.1) ops
    → any (λ o. commits k o.1) ops ≢ true
never_commits who k [] own h = cc
never_commits who k ((call, wake v) ∷ ops) own h = never_commits who k ops own.1 h
never_commits who k ((call, approve id by) ∷ ops) own h = never_commits who k ops own.1 h
never_commits who k ((call, reject id by reason) ∷ ops) own h = never_commits who k ops own.1 h
never_commits who k ((call, commit id commit_hash) ∷ ops) own h = own.0

Justified-DecidedBy :
    (who k : Text) (by : Option Text) (st : ChangeStatus) (ops : List (Call × Op))
    → All (λ o. IsOwn who o.1) ops
    → Justified ops k by st
    → DecidedBy who by st
Justified-DecidedBy who k by pending ops own h = h
Justified-DecidedBy who k by under_review ops own h = h
Justified-DecidedBy who k by approved ops own (w, e, h) =
    e ∙ ap some (own-any who w (approves k w) (approves-own who k w) ops own h)
Justified-DecidedBy who k by rejected ops own (w, e, h) =
    e ∙ ap some (own-any who w (rejects k w) (rejects-own who k w) ops own h)
Justified-DecidedBy who k by committed ops own h = absurd (never_commits who k ops own h)

-- A queue without a change, and so a sound one.
abbrev IsEmpty : State → Type 0
IsEmpty s = (s.queue.changes ≡ []) × IsSound s

started :
    (args : Args) (io : Io) (gateway : CommitGateway) (g : Stage) (s : State)
    → start_tasks args io ≡ runs gateway g s
    → IsEmpty s
unfolding start_tasks ReviewQueue.new Map.get
started args (err e, d) gateway g s h = cc
started args (ok _, d) gateway g s h =
    let first : State = record {
      queue = ReviewQueue.new args.repo_path args.audit_log args.max_pending;
      log = d;
      screen = [];
      notices = [];
    } in
    let same : first ≡ s = cc in
    let sound : IsSound first = record { fits = omega arith; distinct = tt; filed = λ k r e. cc } in
    subst IsEmpty same (refl, sound)

-- In every state of the program, at most `max_pending` changes stand in the queue, each under its
-- own id and none twice. An approved or a rejected change was decided in the name of the reviewer
-- that the arguments give (`human` if they give none), a pending one names no reviewer, and no
-- change is ever marked as committed.
pub start-DecidedBy :
    (show_io : IoError → Text) (x : Codec) (format_time : ℕ → Text) (now : ℕ) (directory : Bool)
    (io : IoOutcome) (args : Args) (d : Disk) (gateway : CommitGateway) (g h : Stage) (p : Phase)
    (s t : State)
    → start x now directory io args d ≡ runs gateway g s
    → Run show_io x format_time (reviewer_name args) s g h p t
    → IsSound t
      × ((k : Text) (r : ChangeRecord)
          → Map.get k t.queue.changes ≡ some r
          → DecidedBy (reviewer_name args) r.reviewed_by r.status)
unfolding start
start-DecidedBy show_io x format_time now directory io args d gateway g h p s t e run =
    elim (Bool-cases (args.max_pending == 0)) [
      | inl full ↦ let e' = rw full at e in cc
      | inr room ↦
          let e' = rw room at e in
          let (empty, sound) = started args (AuditLog.new x now directory io d) gateway g s e' in
          let reached = Run-IsReached x format_time (reviewer_name args) show_io run in
          let queue_sound = after-IsSound x format_time reached.ops s sound in
          (
            subst (λ (q : ReviewQueue). IsValid q.max_pending q.changes) (sym reached.same)
                queue_sound,
            λ k r found.
                Justified-DecidedBy (reviewer_name args) k r.reviewed_by r.status reached.ops
                  reached.own
                  (after-Justified x format_time reached.ops s empty k r
                    (rw reached.same at found)),
          )
    ]
