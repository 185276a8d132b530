-- ===== src/HumanTouch/ReviewQueue/Capacity.antt =====
-- The size of the queue of review_queue.rs: the bound that every operation keeps, what `status`
-- counts, and that no operation ever makes room.
use sovereign_event_bus.Base.{
  ℕ, ◌≤◌, ◌≡◌, refl, sym, ap, ◌∙◌, some, false, List, [], ◌∷◌, leb, leb→lt, le→leb, length, inl,
  inr, Bool-cases, Option-cases, arith,
}
use sovereign_event_bus.Base.Text.{Text, text_eq, text_beq_iff}
use sovereign_event_bus.Base.Map
use sovereign_event_bus.Base.Map.{Map}
use sovereign_event_bus.Base.Map.Laws.{
  IsDistinct, get-insert, get-modify, length-modify, keys-modify, get-modify_source,
  length-insert-le, insert-IsDistinct,
}
use sovereign_event_bus.HumanTouch.AuditLog.{PendingChange, Codec}
use sovereign_event_bus.HumanTouch.ReviewQueue.{
  ChangeRecord, ReviewQueue, State, Call, received, timer, new_record, approve_record,
  reject_record, commit_record,
}
use sovereign_event_bus.HumanTouch.ReviewQueue.Runs.{
  Op, wake, approve, reject, commit, next, after, queue-step,
}

-- The changes fit the queue, no id stands twice, and a record is filed under the id of its change.
pub record IsValid (max_pending : ℕ) (m : Map Text ChangeRecord) : Type 0 where
  pub fits : length m ≤ max_pending
  pub distinct : IsDistinct (Map.keys m)
  pub filed : (k : Text) (r : ChangeRecord) → Map.get k m ≡ some r → r.change.id ≡ k

-- A change to a record that leaves its id alone.
module _ (k : Text) (f : ChangeRecord → ChangeRecord)
    (same_id : (r : ChangeRecord) → (f r).change.id ≡ r.change.id) where
  filed-modify :
      (m : Map Text ChangeRecord)
      → ((j : Text) (r : ChangeRecord) → Map.get j m ≡ some r → r.change.id ≡ j)
      → (j : Text) (r : ChangeRecord) → Map.get j (Map.modify k f m) ≡ some r
      → r.change.id ≡ j
  filed-modify m h j r e = elim (Option-cases (Map.get j m)) [
    | inl gone ↦ ground (arith, get-modify k j f m, gone)
    | inr (q, there) ↦ ground (arith, get-modify k j f m, h j q there, same_id q, there)
  ]

  modify-IsValid : (n : ℕ) (m : Map Text ChangeRecord) → IsValid n m → IsValid n (Map.modify k f m)
  modify-IsValid n m v = record {
    fits = omega (arith, length-modify k f m, v.fits);
    distinct = rw (keys-modify k f m) v.distinct;
    filed = filed-modify m v.filed;
  }

insert-IsValid :
    (n : ℕ) (change : PendingChange) (m : Map Text ChangeRecord)
    → length m ≤ n
    → leb n (length m) ≡ false
    → IsValid n m
    → IsValid n (Map.insert change.id (new_record change) m)
insert-IsValid n change m h room v = record {
  fits = omega (arith, length-insert-le change.id (new_record change) m, leb→lt n (length m) room);
  distinct = insert-IsDistinct change.id (new_record change) m v.distinct;
  filed = λ j r e.
      ground (
        arith,
        get-insert change.id j (new_record change) m,
        text_beq_iff change.id j,
        v.filed j r,
      );
}

next-IsValid :
    (n now : ℕ) (op : Op) (m : Map Text ChangeRecord) → IsValid n m → IsValid n (next n now op m)
unfolding next
next-IsValid n now (wake (received change)) m v = elim (Bool-cases (leb n (length m))) [
  | inl full ↦ rw full v
  | inr room ↦ rw room (insert-IsValid n change m v.fits room v)
]
next-IsValid n now (wake timer) m v = v
next-IsValid n now (approve id reviewer) m v =
    modify-IsValid id (approve_record reviewer now) (unfold approve_record in λ r. refl) n m v
next-IsValid n now (reject id reviewer reason) m v =
    modify-IsValid id (reject_record reviewer reason now) (unfold reject_record in λ r. refl) n m v
next-IsValid n now (commit id commit_hash) m v =
    modify-IsValid id (commit_record commit_hash) (unfold commit_record in λ r. refl) n m v

-- The queue of a state is valid for its own bound.
abbrev pub IsSound : State → Type 0
IsSound s = IsValid s.queue.max_pending s.queue.changes

module _ (x : Codec) (format_time : ℕ → Text) where
  -- Every operation, failed or not, keeps the bound, the ids apart and the records in their places.
  pub after-IsSound :
      (ops : List (Call × Op)) (s : State) → IsSound s → IsSound (after x format_time ops s)
  unfolding after
  after-IsSound [] s v = v
  after-IsSound ((call, op) ∷ earlier) s v =
      rw (queue-step x format_time call op (after x format_time earlier s))
        (next-IsValid _ call.now op _ (after-IsSound earlier s v))

  after-max_pending :
      (ops : List (Call × Op)) (s : State)
      → (after x format_time ops s).queue.max_pending ≡ s.queue.max_pending
  unfolding after
  after-max_pending [] s = refl
  after-max_pending ((call, op) ∷ earlier) s =
      ap (λ (q : ReviewQueue). q.max_pending)
        (queue-step x format_time call op (after x format_time earlier s))
      ∙ after-max_pending earlier s

keys-next :
    (n now : ℕ) (op : Op) (m : Map Text ChangeRecord)
    → n ≤ length m
    → (Map.keys (next n now op m) ≡ Map.keys m) × (length (next n now op m) ≡ length m)
unfolding next
keys-next n now (wake (received change)) m h = rw (le→leb n (length m) h) (refl, refl)
keys-next n now (wake timer) m h = (refl, refl)
keys-next n now (approve id reviewer) m h = (keys-modify id _ m, length-modify id _ m)
keys-next n now (reject id reviewer reason) m h = (keys-modify id _ m, length-modify id _ m)
keys-next n now (commit id commit_hash) m h = (keys-modify id _ m, length-modify id _ m)

-- Every record describes the change that stood under its key before.
abbrev pub SameChanges : Map Text ChangeRecord → Map Text ChangeRecord → Type 0
SameChanges m m' =
    (k : Text) (r' : ChangeRecord)
    → Map.get k m' ≡ some r'
    → (r : ChangeRecord) × (Map.get k m ≡ some r) × (r'.change ≡ r.change)

SameChanges-refl : (m : Map Text ChangeRecord) → SameChanges m m
SameChanges-refl m k r e = (r, e, refl)

SameChanges-trans :
    (m m' m'' : Map Text ChangeRecord) → SameChanges m m' → SameChanges m' m'' → SameChanges m m''
SameChanges-trans m m' m'' f g k r e =
    let (q, there, same) = g k r e in
    let (p, there', same') = f k q there in (p, there', same ∙ same')

SameChanges-modify :
    (id : Text) (f : ChangeRecord → ChangeRecord)
    → ((r : ChangeRecord) → (f r).change ≡ r.change)
    → (m : Map Text ChangeRecord) → SameChanges m (Map.modify id f m)
SameChanges-modify id f same m k r e = elim (get-modify_source id k f r m e) [
  | inl (_, (q, there, made)) ↦ (q, there, ap (λ (t : ChangeRecord). t.change) (sym made) ∙ same q)
  | inr old ↦ (r, old, refl)
]

SameChanges-next :
    (n now : ℕ) (op : Op) (m : Map Text ChangeRecord)
    → n ≤ length m
    → SameChanges m (next n now op m)
unfolding next
SameChanges-next n now (wake (received change)) m h =
    rw (le→leb n (length m) h) (SameChanges-refl m)
SameChanges-next n now (wake timer) m h = SameChanges-refl m
SameChanges-next n now (approve id reviewer) m h =
    SameChanges-modify id (approve_record reviewer now) (unfold approve_record in λ r. refl) m
SameChanges-next n now (reject id reviewer reason) m h =
    SameChanges-modify id (reject_record reviewer reason now) (unfold reject_record in λ r. refl) m
SameChanges-next n now (commit id commit_hash) m h =
    SameChanges-modify id (commit_record commit_hash) (unfold commit_record in λ r. refl) m

module _ (x : Codec) (format_time : ℕ → Text) where
  -- A full queue stays full with the same ids, and under each of them with the change that stood
  -- there, whatever is approved, rejected or committed later: no change that comes in afterwards is
  -- ever taken, neither under a new id nor in the place of another.
  pub after_full :
      (ops : List (Call × Op)) (s : State)
      → s.queue.max_pending ≤ length s.queue.changes
      → (Map.keys (after x format_time ops s).queue.changes ≡ Map.keys s.queue.changes)
        × (length (after x format_time ops s).queue.changes ≡ length s.queue.changes)
        × SameChanges s.queue.changes (after x format_time ops s).queue.changes
  unfolding after
  after_full [] s h = (refl, refl, SameChanges-refl s.queue.changes)
  after_full ((call, op) ∷ earlier) s h =
      let (same, len, changes) = after_full earlier s h in
      let t = after x format_time earlier s in
      let full : t.queue.max_pending ≤ length t.queue.changes =
        omega (arith, len, after-max_pending x format_time earlier s) in
      let (same', len') = keys-next t.queue.max_pending call.now op t.queue.changes full in
      let changes' = SameChanges-next t.queue.max_pending call.now op t.queue.changes full in
      rw (queue-step x format_time call op t) (
        same' ∙ same,
        len' ∙ len,
        SameChanges-trans s.queue.changes t.queue.changes _ changes changes',
      )
