-- ===== src/HumanTouch/ReviewQueue/Approval.antt =====
-- Who moved a change of review_queue.rs to its status: the record of a change against the
-- operations that came before.
use sovereign_event_bus.Base.{
  ℕ, ◌≡◌, refl, subst, subst₂, Option, none, some, Bool, true, false, List, [], ◌∷◌, leb, length,
  any, ◌==◌, ==_refl, inl, inr, Bool-cases, arith, ◌&&◌,
}
use sovereign_event_bus.Base.Text.{Text, text_eq}
use sovereign_event_bus.Base.Map
use sovereign_event_bus.Base.Map.{Map}
use sovereign_event_bus.Base.Map.Laws.{get-insert_source, get-modify_source}
use sovereign_event_bus.HumanTouch.AuditLog.{PendingChange, Codec}
use sovereign_event_bus.HumanTouch.ReviewQueue.{
  ChangeStatus, pending, under_review, approved, rejected, committed, ChangeRecord, State, Call,
  received, timer, new_record, approve_record, reject_record, commit_record,
}
use sovereign_event_bus.HumanTouch.ReviewQueue.Runs.{
  Op, wake, approve, reject, commit, next, after, queue-step,
}

-- The operation approves, rejects or commits the change.
abbrev pub approves : Text → Text → Op → Bool
approves k who (approve id reviewer) = id == k && reviewer == who
approves k who (wake w) = false
approves k who (reject id reviewer reason) = false
approves k who (commit id commit_hash) = false

abbrev pub rejects : Text → Text → Op → Bool
rejects k who (reject id reviewer reason) = id == k && reviewer == who
rejects k who (wake w) = false
rejects k who (approve id reviewer) = false
rejects k who (commit id commit_hash) = false

abbrev pub commits : Text → Op → Bool
commits k (commit id commit_hash) = id == k
commits k (wake w) = false
commits k (approve id reviewer) = false
commits k (reject id reviewer reason) = false

-- What a record of this status and this reviewer needs among the operations.
abbrev pub Justified : List (Call × Op) → Text → Option Text → ChangeStatus → Type 0
Justified ops k by pending = by ≡ none
Justified ops k by under_review = ⊥
Justified ops k by approved =
    (who : Text) × (by ≡ some who) × (any (λ o. approves k who o.1) ops ≡ true)
Justified ops k by rejected =
    (who : Text) × (by ≡ some who) × (any (λ o. rejects k who o.1) ops ≡ true)
Justified ops k by committed = any (λ o. commits k o.1) ops ≡ true

Justified-cons :
    (o : Call × Op) (ops : List (Call × Op)) (k : Text) (by : Option Text) (st : ChangeStatus)
    → Justified ops k by st
    → Justified (o ∷ ops) k by st
Justified-cons o ops k by pending h = h
Justified-cons o ops k by under_review h = h
Justified-cons o ops k by approved (who, e, h) = (who, e, ground (arith, h))
Justified-cons o ops k by rejected (who, e, h) = (who, e, ground (arith, h))
Justified-cons o ops k by committed h = ground (arith, h)

abbrev AllJustified : List (Call × Op) → Map Text ChangeRecord → Type 0
AllJustified ops m =
    (k : Text) (r : ChangeRecord) → Map.get k m ≡ some r → Justified ops k r.reviewed_by r.status

module _ (ops : List (Call × Op)) (m : Map Text ChangeRecord) (all_just : AllJustified ops m)
    (call : Call) where
  kept :
      (op : Op) (k : Text) (r : ChangeRecord)
      → Map.get k m ≡ some r
      → Justified ((call, op) ∷ ops) k r.reviewed_by r.status
  kept op k r e = Justified-cons (call, op) ops k r.reviewed_by r.status (all_just k r e)

  modified :
      (op : Op) (id : Text) (f : ChangeRecord → ChangeRecord)
      → ((r : ChangeRecord) → Justified ((call, op) ∷ ops) id (f r).reviewed_by (f r).status)
      → (k : Text) (r : ChangeRecord) → Map.get k (Map.modify id f m) ≡ some r
      → Justified ((call, op) ∷ ops) k r.reviewed_by r.status
  modified op id f just k r e = elim (get-modify_source id k f r m e) [
    | inl (same, (q, there, made)) ↦
        subst₂
          (λ (j : Text) (t : ChangeRecord). Justified ((call, op) ∷ ops) j t.reviewed_by t.status)
          same made (just q)
    | inr old ↦ kept op k r old
  ]

  inserted :
      (op : Op) (change : PendingChange) (k : Text) (r : ChangeRecord)
      → Map.get k (Map.insert change.id (new_record change) m) ≡ some r
      → Justified ((call, op) ∷ ops) k r.reviewed_by r.status
  inserted op change k r e = elim (get-insert_source change.id k (new_record change) r m e) [
    | inl (same, made) ↦
        subst (λ (t : ChangeRecord). Justified ((call, op) ∷ ops) k t.reviewed_by t.status) made
          refl
    | inr old ↦ kept op k r old
  ]

  AllJustified-next : (n : ℕ) (op : Op) → AllJustified ((call, op) ∷ ops) (next n call.now op m)
  unfolding next
  AllJustified-next n (wake (received change)) = elim (Bool-cases (leb n (length m))) [
    | inl full ↦ rw full (kept (wake (received change)))
    | inr room ↦ rw room (inserted (wake (received change)) change)
  ]
  AllJustified-next n (wake timer) = kept (wake timer)
  AllJustified-next n (approve id reviewer) =
      modified (approve id reviewer) id (approve_record reviewer call.now) (
        unfold approve_record in
        λ r. (reviewer, refl, ground (arith, ==_refl id, ==_refl reviewer)))
  AllJustified-next n (reject id reviewer reason) =
      modified (reject id reviewer reason) id (reject_record reviewer reason call.now) (
        unfold reject_record in λ r. (reviewer, refl, ground (arith, ==_refl id, ==_refl reviewer)))
  AllJustified-next n (commit id commit_hash) =
      modified (commit id commit_hash) id (commit_record commit_hash)
        (unfold commit_record in λ r. ground (arith, ==_refl id))

-- In a queue that starts empty, an approved change was approved by an earlier command of the very
-- reviewer that its record names, a rejected one was rejected likewise, a committed one was marked
-- by an earlier `mark_committed` of its id, and a pending one names no reviewer.
pub after-Justified :
    (x : Codec) (format_time : ℕ → Text) (ops : List (Call × Op)) (s : State)
    → s.queue.changes ≡ []
    → (k : Text) (r : ChangeRecord) → Map.get k (after x format_time ops s).queue.changes ≡ some r
    → Justified ops k r.reviewed_by r.status
unfolding after Map.get
after-Justified x format_time [] s empty k r e = let e' = rw empty at e in cc
after-Justified x format_time ((call, op) ∷ earlier) s empty k r e =
    let t = after x format_time earlier s in
    AllJustified-next earlier t.queue.changes (after-Justified x format_time earlier s empty) call
      t.queue.max_pending op k r (rw (queue-step x format_time call op t) at e)
