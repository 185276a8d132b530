-- ===== src/HumanTouch/Startup/Reached.antt =====
-- The operations of the review queue that a run of main.rs performs: the queue of every state that
-- it reaches is one that a sequence of them makes.
use sovereign_event_bus.Base.{
  ℕ, nat_eq, ◌≡◌, refl, sym, ap, ◌∙◌, inl, inr, List, [], ◌∷◌, All, ◌==◌, Bool-cases, is_empty,
  arith,
}
use sovereign_event_bus.Base.Text.{Text, codes, text_eq}
use sovereign_event_bus.Base.Text.Lines.{join}
use sovereign_event_bus.Base.Text.Trim.{trim}
use sovereign_event_bus.Base.Text.Words.{split_whitespace}
use sovereign_event_bus.HumanTouch.AuditLog.{Codec, IoError}
use sovereign_event_bus.HumanTouch.ReviewQueue.{
  ReviewQueue, State, Call, Wake, approve_change, reject_change, handle_wake,
}
use sovereign_event_bus.HumanTouch.ReviewQueue.Runs.{
  Op, wake, approve, reject, commit, next, step, after, queue-step,
}
use sovereign_event_bus.HumanTouch.Interactive.{
  Input, typed, end_of_input, read_fails, print, run_command, run_approve, run_reject, run_line,
  run_input,
}
use sovereign_event_bus.HumanTouch.Interactive.Commands.{report-SameStore}
use sovereign_event_bus.HumanTouch.Processor.{
  Phase, Step, lock_queue, wakes, gives_up, command, free_command,
}
use sovereign_event_bus.HumanTouch.Startup.{
  Stage, reads, leaves, spawned, joins, signal, Run, begins, then_turns,
}

-- The operations of the program whose reviewer is `who`.
abbrev pub IsOwn : Text → Op → Type 0
IsOwn who (wake w) = Unit
IsOwn who (approve id reviewer) = reviewer ≡ who
IsOwn who (reject id reviewer reason) = reviewer ≡ who
IsOwn who (commit id commit_hash) = ⊥

module _ (x : Codec) (format_time : ℕ → Text) (who : Text) where
  -- The queue of the state is the one that some operations of the program, the last one first,
  -- make of the queue at the beginning.
  pub record IsReached (s t : State) : Type 0 where
    pub ops : List (Call × Op)
    pub own : All (λ o. IsOwn who o.1) ops
    pub same : t.queue ≡ (after x format_time ops s).queue

  -- What an operation makes of the queue.
  abbrev performed : Call → Op → ReviewQueue → ReviewQueue
  performed call op q = record q { changes = next q.max_pending call.now op q.changes }

  IsReached-step :
      (call : Call) (op : Op) (s t u : State)
      → IsOwn who op
      → u.queue ≡ performed call op t.queue
      → IsReached s t
      → IsReached s u
  unfolding after
  IsReached-step call op s t u own e r = record {
    ops = (call, op) ∷ r.ops;
    own = (own, r.own);
    same =
        e
        ∙ ap (performed call op) r.same
        ∙ sym (queue-step x format_time call op (after x format_time r.ops s));
  }

  IsReached-same : (s t u : State) → u.queue ≡ t.queue → IsReached s t → IsReached s u
  IsReached-same s t u e r = record { ops = r.ops; own = r.own; same = e ∙ r.same }

  module _ (show_io : IoError → Text) where
    IsReached-run_approve :
        (call : Call) (args : List Text) (s t : State)
        → IsReached s t
        → IsReached s (run_approve show_io x who call args t)
    unfolding run_approve print
    IsReached-run_approve call [] s t r = IsReached-same s t _ refl r
    IsReached-run_approve call (id ∷ _) s t r =
        IsReached-step call (approve id who) s t _ refl
          ((report-SameStore show_io x who call _ _ (approve_change x call id who t)).0
            ∙ (unfold step in queue-step x format_time call (approve id who) t))
          r

    IsReached-run_reject :
        (call : Call) (args : List Text) (s t : State)
        → IsReached s t
        → IsReached s (run_reject show_io x who call args t)
    unfolding run_reject print
    IsReached-run_reject call [] s t r = IsReached-same s t _ refl r
    IsReached-run_reject call (id ∷ words) s t r =
        let reason = join (codes " ") words in
        IsReached-step call (reject id who reason) s t _ refl
          ((report-SameStore show_io x who call _ _ (reject_change x call id who reason t)).0
            ∙ (unfold step in queue-step x format_time call (reject id who reason) t))
          r

    IsReached-run_command :
        (call : Call) (words : List Text) (s t : State)
        → IsReached s t
        → IsReached s (run_command show_io x who call words t).1
    unfolding run_command print
    IsReached-run_command call [] s t r = IsReached-same s t _ refl r
    IsReached-run_command call (verb ∷ args) s t r = elim (Bool-cases (verb == codes "approve")) [
      | inl e ↦ rw e (IsReached-run_approve call args s t r)
      | inr e ↦ elim (Bool-cases (verb == codes "reject")) [
        | inl f ↦ rw (e, f) (IsReached-run_reject call args s t r)
        | inr f ↦ IsReached-same s t _ (ground (arith, e, f)) r
      ]
    ]

    IsReached-run_input :
        (call : Call) (input : Input) (s t : State)
        → IsReached s t
        → IsReached s (run_input show_io x who call input t).1
    unfolding run_input run_line print trim
    IsReached-run_input call (typed line) s t r = elim (Bool-cases (is_empty (trim line))) [
      | inl e ↦ rw e (IsReached-same s t _ refl r)
      | inr e ↦ rw e (
          IsReached-run_command call (split_whitespace (trim line)) s _
            (IsReached-same s t _ refl r))
    ]
    IsReached-run_input call end_of_input s t r = IsReached-same s t _ refl r
    IsReached-run_input call read_fails s t r = IsReached-same s t _ refl r

    IsReached-wake :
        (call : Call) (w : Wake) (s t : State)
        → IsReached s t
        → IsReached s (handle_wake x format_time call w t).1
    IsReached-wake call w s t r =
        IsReached-step call (wake w) s t _ tt
          (unfold step in queue-step x format_time call (wake w) t) r

    IsReached-Step :
        (s : State) {p q : Phase} {t u : State} (made : Step show_io x format_time who p t q u)
        → IsReached s t
        → IsReached s u
    IsReached-Step s lock_queue r = r
    IsReached-Step s {t = t} (wakes call w made) r = rw made at (IsReached-wake call w s t r)
    IsReached-Step s {t = t} (gives_up call w f made) r = rw made at (IsReached-wake call w s t r)
    IsReached-Step s {t = t} (command call input free made) r =
        rw made at (IsReached-run_input call input s t r)
    IsReached-Step s {t = t} (free_command call input free made) r =
        rw made at (IsReached-run_input call input s t r)

    pub Run-IsReached :
        {s : State} {g h : Stage} {p : Phase} {t : State}
        → Run show_io x format_time who s g h p t
        → IsReached s t
    unfolding after
    Run-IsReached begins = record { ops = []; own = tt; same = refl }
    Run-IsReached {s = s} (then_turns r (spawned made own active)) =
        IsReached-Step s made (Run-IsReached r)
    Run-IsReached {s = s} (then_turns {t = t} r (reads call input free goes made)) =
        rw made at (IsReached-run_input call input s t (Run-IsReached r))
    Run-IsReached {s = s} (then_turns {t = t} r (leaves call input left made)) =
        rw made at (IsReached-run_input call input s t (Run-IsReached r))
    Run-IsReached (then_turns r joins) = Run-IsReached r
    Run-IsReached (then_turns r signal) = Run-IsReached r
