-- ===== src/HumanTouch/Interactive.antt =====
-- seb/human_touch/src/main.rs: `interactive_loop_blocking`, which reads commands and calls the
-- review queue. What it prints is added to the lines of the state.
pub mod Commands
pub mod Tests
use sovereign_event_bus.Base.{
  ℕ, Option, none, some, Bool, true, false, List, [], ◌∷◌, ◌++◌, Result, ok, err, Eq, ◌==◌,
  if◌then◌else◌, is_empty,
}
use sovereign_event_bus.Base.Text.{Text, codes, text_eq}
use sovereign_event_bus.Base.Text.Lines.{join}
use sovereign_event_bus.Base.Text.Trim.{trim}
use sovereign_event_bus.Base.Text.Words.{split_whitespace}
use sovereign_event_bus.Base.Text.Slices.{decimal}
use sovereign_event_bus.HumanTouch.AuditLog.{Codec, IoError}
use sovereign_event_bus.HumanTouch.ReviewQueue.{
  State, Outcome, Call, QueueError, not_found, audit, approve_change, reject_change, QueueStatus,
  status,
}

-- What `read_line` leaves in `line`: a line with its newline, nothing at the end of the input, or
-- an error.
pub data Input : Type 0 where
  typed : Text → Input
  end_of_input : Input
  read_fails : Input

pub data Flow : Type 0 where
  goes_on exits fails : Flow

unfoldable pub print : List Text → State → State
print lines s = record s { screen = s.screen ++ lines }

abbrev pub help_lines : List Text
help_lines =
    codes "\n📖 Available Commands:"
    ∷ codes "   approve <id>         - Approve a change for commit"
    ∷ codes "   reject <id> <reason> - Reject a change with reason"
    ∷ codes "   status               - Show queue status"
    ∷ codes "   help                 - Show this message"
    ∷ codes "   exit                 - Exit gateway\n"
    ∷ []

unfoldable pub status_line : QueueStatus → Text
status_line q =
    codes "\n📊 Queue Status:\n   Total: "
    ++ (decimal q.total
        ++ (codes "\n   Pending: "
            ++ (decimal q.pending_count
                ++ (codes "\n   Approved: "
                    ++ (decimal q.approved_count
                        ++ (codes "\n   Rejected: "
                            ++ (decimal q.rejected_count
                                ++ (codes "\n   Committed: "
                                    ++ (decimal q.committed_count
                                        ++ (codes "\n   Capacity: "
                                            ++ (decimal q.capacity ++ codes "\n")))))))))))

module _ (show_io : IoError → Text) where
  -- The text of an error; that of a failure of the file system is a parameter.
  unfoldable pub show_error : QueueError → Text
  show_error (not_found id) = codes "Change not found: " ++ id
  show_error (audit e) = show_io e

  -- `match … { Ok(_) => println!(done), Err(e) => println!(failed, e) }`.
  unfoldable pub report : Text → Text → Outcome → State
  unfolding print show_error
  report succeeded failed (ok _, s) = print (succeeded ∷ []) s
  report succeeded failed (err e, s) = print ((failed ++ show_error e) ∷ []) s

  module _ (x : Codec) (reviewer : Text) (call : Call) where
    unfoldable pub run_approve : List Text → State → State
    run_approve [] s = print (codes "❌ Usage: approve <change-id>" ∷ []) s
    run_approve (id ∷ _) s =
        report (codes "✅ Change " ++ (id ++ codes " approved and ready for commit"))
          (codes "❌ Failed to approve: ") (approve_change x call id reviewer s)

    -- `parts.get(2..)` is the empty slice where only the id is given.
    unfoldable pub run_reject : List Text → State → State
    run_reject [] s = print (codes "❌ Usage: reject <change-id> <reason>" ∷ []) s
    run_reject (id ∷ words) s =
        report (codes "❌ Change " ++ (id ++ codes " rejected")) (codes "❌ Failed to reject: ")
          (reject_change x call id reviewer (join (codes " ") words) s)

    unfoldable pub run_command : List Text → State → Flow × State
    run_command [] s =
        (goes_on, print (codes "❓ Unknown command. Type 'help' for available commands." ∷ []) s)
    run_command (verb ∷ args) s =
        if verb == codes "approve"
        then (goes_on, run_approve args s)
        else if verb == codes "reject"
        then (goes_on, run_reject args s)
        else if verb == codes "status"
        then (goes_on, print (status_line (status s.queue) ∷ []) s)
        else if verb == codes "help"
        then (goes_on, print help_lines s)
        else if verb == codes "exit"
        then (exits, print (codes "👋 Exiting Human-Touch Gateway..." ∷ []) s)
        else (
          goes_on,
          print (codes "❓ Unknown command. Type 'help' for available commands." ∷ []) s,
        )

    unfoldable pub run_line : Text → State → Flow × State
    run_line line s =
        let cmd = trim line in
        if is_empty cmd then (goes_on, s) else run_command (split_whitespace cmd) s

    -- One round of the loop, from the prompt on.
    unfoldable pub run_input : Input → State → Flow × State
    run_input (typed line) s = run_line line (print (codes "🤔 > " ∷ []) s)
    run_input end_of_input s = run_line [] (print (codes "🤔 > " ∷ []) s)
    run_input read_fails s = (fails, print (codes "🤔 > " ∷ []) s)

  -- The loop over the given inputs; `goes_on` if it has not ended by then.
  unfoldable pub interactive_loop : Codec → Text → List (Call × Input) → State → Flow × State
  interactive_loop x reviewer [] s = (goes_on, s)
  interactive_loop x reviewer ((call, input) ∷ rest) s =
      let (flow, s') = run_input x reviewer call input s in
      elim flow [
        | goes_on ↦ interactive_loop x reviewer rest s'
        | exits ↦ (exits, s')
        | fails ↦ (fails, s')
      ]
