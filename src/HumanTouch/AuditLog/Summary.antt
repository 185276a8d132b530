-- ===== src/HumanTouch/AuditLog/Summary.antt =====
-- What the counts of `generate_summary` (audit_log.rs) come to.
use sovereign_event_bus.Base.{
  ok, ℕ, ◌+◌, ◌≡◌, refl, ap, Option, none, some, Bool, true, false, List, [], ◌∷◌, ◌==◌,
  if◌then◌else◌, length, keep, arith,
}
use mathlib.Core.Option
use sovereign_event_bus.Base.Text.{Text, codes, text_eq, text_beq_iff}
use sovereign_event_bus.Base.Map
use sovereign_event_bus.Base.Map.Laws.{get-upsert}
use sovereign_event_bus.HumanTouch.AuditLog.{
  AuditEntry, AuditSummary, Codec, Disk, read_entries, generate_summary, empty_summary, count_event,
  count_reviewer, count_entry, tally,
}

-- How many entries bear the event type; how many name the reviewer.
abbrev pub events_of : Text → List AuditEntry → ℕ
events_of event es = length (keep (λ e. e.event_type == event) es)

abbrev pub is_reviewed_by : Text → Option Text → Bool
is_reviewed_by r none = false
is_reviewed_by r (some s) = s == r

abbrev pub reviews_of : Text → List AuditEntry → ℕ
reviews_of r es = length (keep (λ e. is_reviewed_by r e.reviewer) es)

abbrev pub review_count : Text → AuditSummary → ℕ
review_count r s = Option.get_or (Map.get r s.reviewers) 0

abbrev pub submitted : Text
submitted = codes "CHANGE_SUBMITTED"

abbrev pub approved : Text
approved = codes "CHANGE_APPROVED"

abbrev pub rejected : Text
rejected = codes "CHANGE_REJECTED"

abbrev pub committed : Text
committed = codes "CHANGE_COMMITTED"

-- A text that is `a` is no other text `b`.
beq_disjoint : (a b t : Text) → (a == b) ≡ false → (t == a) ≡ true → (t == b) ≡ false
beq_disjoint a b t n h = rw ((text_beq_iff t a).0 h) n

-- The counters that one entry moves.
abbrev one_if : Bool → ℕ
one_if b = if b then 1 else 0

record Counted (t : Text) (s s' : AuditSummary) : Type 0 where
  total : s'.total_events ≡ s.total_events
  submissions : s'.changes_submitted ≡ s.changes_submitted + one_if (t == submitted)
  approvals : s'.changes_approved ≡ s.changes_approved + one_if (t == approved)
  rejections : s'.changes_rejected ≡ s.changes_rejected + one_if (t == rejected)
  commits : s'.changes_committed ≡ s.changes_committed + one_if (t == committed)
  same_reviewers : s'.reviewers ≡ s.reviewers

count_event_counts : (t : Text) (s : AuditSummary) → Counted t s (count_event t s)
unfolding count_event
count_event_counts t s = ground (
  arith,
  beq_disjoint submitted approved t refl,
  beq_disjoint submitted rejected t refl,
  beq_disjoint submitted committed t refl,
  beq_disjoint approved rejected t refl,
  beq_disjoint approved committed t refl,
  beq_disjoint rejected committed t refl,
)

count_reviewer_counts :
    (r : Text) (o : Option Text) (s : AuditSummary)
    → review_count r (count_reviewer o s) ≡ review_count r s + one_if (is_reviewed_by r o)
unfolding count_reviewer
count_reviewer_counts r none s = omega arith
count_reviewer_counts r (some q) s = rw (get-upsert q r 0 (λ n. n + 1) s.reviewers) (ground arith)

-- What a summary holds of a list of entries, on top of an earlier summary.
pub record Tallies (es : List AuditEntry) (s s' : AuditSummary) : Type 0 where
  pub total : s'.total_events ≡ s.total_events + length es
  pub submissions : s'.changes_submitted ≡ s.changes_submitted + events_of submitted es
  pub approvals : s'.changes_approved ≡ s.changes_approved + events_of approved es
  pub rejections : s'.changes_rejected ≡ s.changes_rejected + events_of rejected es
  pub commits : s'.changes_committed ≡ s.changes_committed + events_of committed es
  pub reviews : (r : Text) → review_count r s' ≡ review_count r s + reviews_of r es

count_reviewer_keeps :
    (o : Option Text) (s : AuditSummary)
    → ((count_reviewer o s).total_events ≡ s.total_events)
      × ((count_reviewer o s).changes_submitted ≡ s.changes_submitted)
      × ((count_reviewer o s).changes_approved ≡ s.changes_approved)
      × ((count_reviewer o s).changes_rejected ≡ s.changes_rejected)
      × ((count_reviewer o s).changes_committed ≡ s.changes_committed)
unfolding count_reviewer
count_reviewer_keeps none s = (refl, refl, refl, refl, refl)
count_reviewer_keeps (some r) s = (refl, refl, refl, refl, refl)

count_entry-Tallies : (e : AuditEntry) (s : AuditSummary) → Tallies (e ∷ []) s (count_entry e s)
unfolding count_entry
count_entry-Tallies e s =
    let s1 = record s { total_events = s.total_events + 1 } in
    let s2 = count_event e.event_type s1 in
    let c = count_event_counts e.event_type s1 in
    let k = count_reviewer_keeps e.reviewer s2 in
    record {
      total = omega (arith, c.total, k.0);
      submissions = ground (arith, c.submissions, k.1);
      approvals = ground (arith, c.approvals, k.2);
      rejections = ground (arith, c.rejections, k.3);
      commits = ground (arith, c.commits, k.4);
      reviews = λ r. ground (
        arith,
        count_reviewer_counts r e.reviewer s2,
        ap (λ (m : Map.Map Text ℕ). Option.get_or (Map.get r m) 0) c.same_reviewers,
      );
    }

tally-Tallies : (es : List AuditEntry) (s : AuditSummary) → Tallies es s (tally es s)
unfolding tally
tally-Tallies [] s = record {
  total = omega arith;
  submissions = omega arith;
  approvals = omega arith;
  rejections = omega arith;
  commits = omega arith;
  reviews = λ r. omega arith;
}
tally-Tallies (e ∷ es) s =
    let one = count_entry-Tallies e s in
    let rest = tally-Tallies es (count_entry e s) in
    record {
      total = omega (arith, one.total, rest.total);
      submissions = ground (arith, one.submissions, rest.submissions);
      approvals = ground (arith, one.approvals, rest.approvals);
      rejections = ground (arith, one.rejections, rest.rejections);
      commits = ground (arith, one.commits, rest.commits);
      reviews = λ r. ground (arith, one.reviews r, rest.reviews r);
    }

-- The summary of a trail that is read as `es` counts `es`: all entries, each of the four types of
-- events, and for every reviewer the entries that name that reviewer.
pub generate_summary-Tallies :
    (x : Codec) (readable : Bool) (d : Disk) (es : List AuditEntry)
    → read_entries x readable d ≡ ok es
    → (s : AuditSummary) × (generate_summary x readable d ≡ ok s) × Tallies es empty_summary s
unfolding generate_summary
generate_summary-Tallies x readable d es h =
    (tally es empty_summary, rw h, tally-Tallies es empty_summary)
