-- ===== src/HumanTouch/Processor/Starvation.antt =====
-- What the mutex of main.rs makes of the interactive commands.
use sovereign_event_bus.Base.{
  ℕ, ◌≡◌, ◌≢◌, refl, sym, ap, ◌⊎◌, inl, inr, some, false, List, [], ◌∷◌, is_empty, Bool-cases, leb,
  length, arith,
}
use sovereign_event_bus.Base.Text.{Text, text_eq}
use sovereign_event_bus.Base.Text.Trim.{trim}
use sovereign_event_bus.Base.Text.Words.{split_whitespace}
use sovereign_event_bus.Base.Map
use sovereign_event_bus.Base.Map.{Map}
use sovereign_event_bus.Base.Map.Laws.{get-insert_source}
use sovereign_event_bus.HumanTouch.AuditLog.{Codec, IoError}
use sovereign_event_bus.HumanTouch.ReviewQueue.{
  pending, ChangeRecord, State, Call, Wake, received, timer, handle_wake, new_record,
}
use sovereign_event_bus.HumanTouch.ReviewQueue.Runs.{wake, next, step, queue-step}
use sovereign_event_bus.HumanTouch.Interactive.{
  Input, typed, end_of_input, read_fails, print, run_command, run_approve, run_reject, run_line,
  run_input,
}
use sovereign_event_bus.HumanTouch.Processor.{
  Phase, starting, running, locks, takes_mutex, lock_queue, wakes, gives_up, command, free_command,
  Reach, here, there,
}

-- Every record is the one that was there before, or a pending one.
abbrev pub Undecided : Map Text ChangeRecord → Map Text ChangeRecord → Type 0
Undecided m m' =
    (k : Text) (r : ChangeRecord)
    → Map.get k m' ≡ some r
    → (Map.get k m ≡ some r) ⊎ (r.status ≡ pending)

module _ (show_io : IoError → Text) (x : Codec) (format_time : ℕ → Text) (reviewer : Text) where
  queue-run_command :
      (call : Call) (words : List Text) (s : State)
      → locks words ≡ false
      → (run_command show_io x reviewer call words s).1.queue ≡ s.queue
  unfolding run_command locks print run_approve run_reject
  queue-run_command call [] s h = refl
  queue-run_command call (verb ∷ []) s h = ground arith
  queue-run_command call (verb ∷ (a ∷ args)) s h = ground arith

  -- A command that does not take the mutex leaves the queue alone.
  queue-free_command :
      (call : Call) (input : Input) (s : State)
      → takes_mutex input ≡ false
      → (run_input show_io x reviewer call input s).1.queue ≡ s.queue
  unfolding run_input run_line takes_mutex print trim
  queue-free_command call (typed line) s h = elim (Bool-cases (is_empty (trim line))) [
    | inl blank ↦ rw blank
    | inr full ↦ rw full (queue-run_command call (split_whitespace (trim line)) _ h)
  ]
  queue-free_command call end_of_input s h = refl
  queue-free_command call read_fails s h = refl

  queue-wake :
      (call : Call) (w : Wake) (s : State)
      → (handle_wake x format_time call w s).1.queue
        ≡ record s.queue { changes = next s.queue.max_pending call.now (wake w) s.queue.changes }
  queue-wake call w s = unfold step in queue-step x format_time call (wake w) s

Undecided-next :
    (n now : ℕ) (w : Wake) (m : Map Text ChangeRecord) → Undecided m (next n now (wake w) m)
unfolding next
Undecided-next n now timer m = λ k r e. inl e
Undecided-next n now (received change) m = elim (Bool-cases (leb n (length m))) [
  | inl full ↦ rw full (λ k r e. inl e)
  | inr room ↦ rw room λ k r e. elim (get-insert_source change.id k (new_record change) r m e) [
    | inl (same, made) ↦ inr (ap (λ (t : ChangeRecord). t.status) (sym made))
    | inr old ↦ inl old
  ]
]

Undecided-trans :
    (m m' m'' : Map Text ChangeRecord) → Undecided m m' → Undecided m' m'' → Undecided m m''
Undecided-trans m m' m'' f g k r e = elim (g k r e) [ inl old ↦ f k r old | inr new ↦ inr new ]

module _ (show_io : IoError → Text) (x : Codec) (format_time : ℕ → Text) (reviewer : Text) where
  Undecided-wake :
      (call : Call) (w : Wake) (s : State)
      → Undecided s.queue.changes (handle_wake x format_time call w s).1.queue.changes
  Undecided-wake call w s =
      rw (queue-wake show_io x format_time reviewer call w s)
        (Undecided-next s.queue.max_pending call.now w s.queue.changes)

  Undecided-free_command :
      (call : Call) (input : Input) (s : State)
      → takes_mutex input ≡ false
      → Undecided s.queue.changes (run_input show_io x reviewer call input s).1.queue.changes
  Undecided-free_command call input s h =
      rw (queue-free_command show_io x format_time reviewer call input s h) (λ k r e. inl e)

  not_starting :
      {p : Phase} {s : State} {q : Phase} {t : State}
      → p ≢ starting
      → Reach show_io x format_time reviewer p s q t
      → q ≢ starting
  not_starting h here = h
  not_starting h (there r lock_queue) = absurd (not_starting h r refl)
  not_starting h (there r (wakes call w e)) = λ e'. cc
  not_starting h (there r (gives_up call w e f)) = λ e'. cc
  not_starting h (there r (command call input free made)) = not_starting h r
  not_starting h (there r (free_command call input free made)) = not_starting h r

  while_running :
      {p : Phase} {s : State} {q : Phase} {t : State}
      → p ≡ running
      → Reach show_io x format_time reviewer p s q t
      → q ≡ running
      → Undecided s.queue.changes t.queue.changes
  while_running h here e = λ k r found. inl found
  while_running h (there r lock_queue) e = absurd (not_starting (λ e'. cc) r refl)
  while_running {s = s} h (there {t = t} {u = u} r (wakes call w made)) e =
      Undecided-trans s.queue.changes t.queue.changes u.queue.changes (while_running h r e)
        (rw made at (Undecided-wake call w t))
  while_running h (there r (gives_up call w f made)) e = cc
  while_running h (there r (command call input free made)) e = let held = rw e at free in cc
  while_running {s = s} h (there {t = t} {u = u} r (free_command call input free made)) e =
      Undecided-trans s.queue.changes t.queue.changes u.queue.changes (while_running h r e)
        (rw made at (Undecided-free_command call input t free))

  -- While the spawned task holds the mutex, no change is decided: whatever is typed, every record
  -- is as it was when the mutex was taken, or is a new one that is pending.
  pub running-Undecided :
      {s t : State}
      → Reach show_io x format_time reviewer running s running t
      → Undecided s.queue.changes t.queue.changes
  running-Undecided r = while_running refl r refl
