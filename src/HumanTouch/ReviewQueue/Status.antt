-- ===== src/HumanTouch/ReviewQueue/Status.antt =====
-- What `status` and `check_pending_reviews` of review_queue.rs report.
use sovereign_event_bus.Base.{
  ℕ, suc, ◌+◌, ◌≡◌, refl, ap, ◌∙◌, Bool, true, false, List, [], ◌∷◌, if◌then◌else◌, ltb, length,
  length-append, keep, keep-append, ◌&&◌, arith,
}
use mathlib.Core.Option
use sovereign_event_bus.Base.Text.{Text, text_eq}
use sovereign_event_bus.Base.Map
use sovereign_event_bus.Base.Map.{Map}
use sovereign_event_bus.HumanTouch.ReviewQueue.{
  ChangeStatus, pending, under_review, approved, rejected, committed, ChangeRecord, ReviewQueue,
  QueueStatus, count_status, count_changes, status, Notice, check_record, check_pending_reviews,
  ready_for_commit, pending_too_long, timeout_secs, elapsed_secs,
}

abbrev pub is_open : ChangeStatus → Bool
is_open pending = true
is_open under_review = true
is_open approved = false
is_open rejected = false
is_open committed = false

abbrev pub is_approved : ChangeStatus → Bool
is_approved approved = true
is_approved pending = false
is_approved under_review = false
is_approved rejected = false
is_approved committed = false

abbrev pub is_rejected : ChangeStatus → Bool
is_rejected rejected = true
is_rejected pending = false
is_rejected under_review = false
is_rejected approved = false
is_rejected committed = false

abbrev pub is_committed : ChangeStatus → Bool
is_committed committed = true
is_committed pending = false
is_committed under_review = false
is_committed approved = false
is_committed rejected = false

abbrev pub number_of : (ChangeStatus → Bool) → List ChangeRecord → ℕ
number_of p rs = length (keep (λ r. p r.status) rs)

-- A status on top of another one, after some records.
pub record Counts (rs : List ChangeRecord) (q q' : QueueStatus) : Type 0 where
  pub total : q'.total ≡ q.total
  pub capacity : q'.capacity ≡ q.capacity
  pub open_ones : q'.pending_count ≡ q.pending_count + number_of is_open rs
  pub approvals : q'.approved_count ≡ q.approved_count + number_of is_approved rs
  pub rejections : q'.rejected_count ≡ q.rejected_count + number_of is_rejected rs
  pub commits : q'.committed_count ≡ q.committed_count + number_of is_committed rs

count_status-Counts :
    (r : ChangeRecord) (st : ChangeStatus) (q : QueueStatus)
    → r.status ≡ st
    → Counts (r ∷ []) q (count_status st q)
unfolding count_status
count_status-Counts r st q h = ground arith

count_changes-Counts : (rs : List ChangeRecord) (q : QueueStatus) → Counts rs q (count_changes rs q)
unfolding count_changes
count_changes-Counts [] q = omega arith
count_changes-Counts (r ∷ rs) q =
    let one = count_status-Counts r r.status q refl in
    let rest = count_changes-Counts rs (count_status r.status q) in
    record {
      total = rest.total ∙ one.total;
      capacity = rest.capacity ∙ one.capacity;
      open_ones = ground (arith, one.open_ones, rest.open_ones);
      approvals = ground (arith, one.approvals, rest.approvals);
      rejections = ground (arith, one.rejections, rest.rejections);
      commits = ground (arith, one.commits, rest.commits);
    }

number-sum :
    (rs : List ChangeRecord)
    → number_of is_open rs
        + number_of is_approved rs
        + number_of is_rejected rs
        + number_of is_committed rs
      ≡ length rs
number-sum [] = refl
number-sum (r ∷ rs) = ground (arith, number-sum rs)

length-values {κ} : {V : Type κ} (m : Map Text V) → length (Map.values m) ≡ length m
length-values [] = refl
length-values ((k, v) ∷ m) = ap suc (length-values m)

-- Each of the four counts of a status is the number of the records of that class, pending and
-- under review being one class; together they are the total, which is the size of the queue.
pub status_counts :
    (q : ReviewQueue)
    → ((status q).pending_count ≡ number_of is_open (Map.values q.changes))
      × ((status q).approved_count ≡ number_of is_approved (Map.values q.changes))
      × ((status q).rejected_count ≡ number_of is_rejected (Map.values q.changes))
      × ((status q).committed_count ≡ number_of is_committed (Map.values q.changes))
      × ((status q).pending_count
            + (status q).approved_count
            + (status q).rejected_count
            + (status q).committed_count
          ≡ (status q).total)
      × ((status q).total ≡ length q.changes)
      × ((status q).capacity ≡ q.max_pending)
unfolding status
status_counts q =
    let rs = Map.values q.changes in
    let c = count_changes-Counts rs (record {
      total = length q.changes;
      pending_count = 0;
      approved_count = 0;
      rejected_count = 0;
      committed_count = 0;
      capacity = q.max_pending;
    }) in
    (
      omega (arith, c.open_ones),
      omega (arith, c.approvals),
      omega (arith, c.rejections),
      omega (arith, c.commits),
      omega (
        arith,
        c.total,
        c.open_ones,
        c.approvals,
        c.rejections,
        c.commits,
        number-sum rs,
        length-values q.changes,
      ),
      c.total,
      c.capacity,
    )

abbrev pub is_pending : ChangeStatus → Bool
is_pending pending = true
is_pending under_review = false
is_pending approved = false
is_pending rejected = false
is_pending committed = false

abbrev pub is_warning : Notice → Bool
is_warning (pending_too_long _ _) = true
is_warning (ready_for_commit _ _) = false

abbrev pub is_ready : Notice → Bool
is_ready (pending_too_long _ _) = false
is_ready (ready_for_commit _ _) = true

-- Pending for more than an hour; approved for at least a second.
abbrev pub is_overdue : ℕ → ChangeRecord → Bool
is_overdue now r = is_pending r.status && ltb timeout_secs (elapsed_secs now r.change.created_at)

abbrev pub is_settled : ℕ → ChangeRecord → Bool
is_settled now r =
    is_approved r.status && ltb 0 (elapsed_secs now (Option.get_or r.review_timestamp now))

check_record-count :
    (now : ℕ) (k : Text) (r : ChangeRecord) (st : ChangeStatus)
    → r.status ≡ st
    → (length (keep is_warning (check_record now k r st)) ≡ (if is_overdue now r then 1 else 0))
      × (length (keep is_ready (check_record now k r st)) ≡ (if is_settled now r then 1 else 0))
unfolding check_record
check_record-count now k r approved h = ground arith
check_record-count now k r _ h = ground arith

-- A check warns once for each record that has been pending for more than an hour, and notes each
-- record that was approved a second ago or more; it says nothing of the others.
pub check_pending_reviews_counts :
    (now : ℕ) (m : Map Text ChangeRecord)
    → (length (keep is_warning (check_pending_reviews now m))
        ≡ length (keep (is_overdue now) (Map.values m)))
      × (length (keep is_ready (check_pending_reviews now m))
          ≡ length (keep (is_settled now) (Map.values m)))
unfolding check_pending_reviews
check_pending_reviews_counts now [] = (refl, refl)
check_pending_reviews_counts now ((k, r) ∷ m) =
    let one = check_record-count now k r r.status refl in
    let rest = check_pending_reviews_counts now m in
    let l = check_record now k r r.status in
    let ls = check_pending_reviews now m in
    (
      rw (keep-append is_warning l ls, length-append (keep is_warning l) (keep is_warning ls))
          (ground (arith, one.0, rest.0)),
      rw (keep-append is_ready l ls, length-append (keep is_ready l) (keep is_ready ls))
          (ground (arith, one.1, rest.1)),
    )
