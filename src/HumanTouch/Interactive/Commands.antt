-- ===== src/HumanTouch/Interactive/Commands.antt =====
-- Which operation of the review queue a line of the interactive loop (main.rs) performs.
use sovereign_event_bus.Base.{
  ◌≡◌, refl, ap, ◌∙◌, List, [], ◌∷◌, ◌++◌, map, ok, err, All, append_assoc, append-nil,
}
use sovereign_event_bus.Base.Text.{Text, codes, text_eq}
use sovereign_event_bus.Base.Text.Lines.{join, newline}
use sovereign_event_bus.Base.Text.Trim.{trim}
use sovereign_event_bus.Base.Text.Words.{IsWord, split_whitespace-join, trim-join, is_empty-join}
use sovereign_event_bus.HumanTouch.AuditLog.{Codec, IoError}
use sovereign_event_bus.HumanTouch.ReviewQueue.{State, Outcome, Call, approve_change, reject_change}
use sovereign_event_bus.HumanTouch.Interactive.{
  Flow, typed, end_of_input, goes_on, print, report, run_approve, run_reject, run_command, run_line,
  run_input, interactive_loop,
}

-- The two states differ in what was printed only.
abbrev pub SameStore : State → State → Type 0
SameStore s t = (s.queue ≡ t.queue) × (s.log ≡ t.log) × (s.notices ≡ t.notices)

-- A line after which the loop goes on, with the store of a state.
abbrev pub Performs : Flow × State → State → Type 0
Performs r t = (r.0 ≡ goes_on) × SameStore r.1 t

abbrev pub command_line : List Text → Text
command_line words = join (codes " ") words ++ newline ∷ []

abbrev pub prompted : State → State
prompted s = record s { screen = s.screen ++ (codes "🤔 > " ∷ []) }

module _ (show_io : IoError → Text) (x : Codec) (reviewer : Text) (call : Call) where
  pub report-SameStore :
      (succeeded failed : Text) (o : Outcome) → SameStore (report show_io succeeded failed o) o.1
  unfolding report
  report-SameStore succeeded failed (ok _, s) = (refl, refl, refl)
  report-SameStore succeeded failed (err e, s) = (refl, refl, refl)

  run_line-words :
      (w : Text) (ws : List Text) (s : State)
      → All IsWord (w ∷ ws)
      → run_line show_io x reviewer call (command_line (w ∷ ws)) s
        ≡ run_command show_io x reviewer call (w ∷ ws) s
  unfolding run_line
  run_line-words [] ws s h = elim h.0 [ ]
  run_line-words (c ∷ t) ws s h =
      rw (trim-join (c ∷ t) ws h, is_empty-join c t ws, split_whitespace-join ((c ∷ t) ∷ ws) h)

  run_input-approve :
      (id : Text) (more : List Text) (s : State)
      → All IsWord (id ∷ more)
      → ((run_input show_io x reviewer call
            (typed (command_line (codes "approve" ∷ (id ∷ more))))
            s).0
          ≡ goes_on)
        × SameStore
            (run_input show_io x reviewer call
              (typed (command_line (codes "approve" ∷ (id ∷ more))))
              s).1
            (approve_change x call id reviewer (prompted s)).1
  unfolding run_input run_command run_approve print
  run_input-approve id more s h =
      rw (run_line-words (codes "approve") (id ∷ more) (prompted s) ((refl, refl), h))
        (refl, report-SameStore _ _ (approve_change x call id reviewer (prompted s)))

  run_input-reject :
      (id : Text) (words : List Text) (s : State)
      → All IsWord (id ∷ words)
      → ((run_input show_io x reviewer call
            (typed (command_line (codes "reject" ∷ (id ∷ words))))
            s).0
          ≡ goes_on)
        × SameStore
            (run_input show_io x reviewer call
              (typed (command_line (codes "reject" ∷ (id ∷ words))))
              s).1
            (reject_change x call id reviewer (join (codes " ") words) (prompted s)).1
  unfolding run_input run_command run_reject print
  run_input-reject id words s h =
      rw (run_line-words (codes "reject") (id ∷ words) (prompted s) ((refl, refl), h)) (
        refl,
        report-SameStore _ _
            (reject_change x call id reviewer (join (codes " ") words) (prompted s)),
      )

  -- `approve <id>`, with any words behind it, approves the change in the reviewer's name and goes on.
  -- `reject <id> <words>` rejects it with the words, joined by single blanks, as the reason, and goes
  -- on; with no words behind the id the reason is empty and the change is rejected as well.
  pub run_input-decides :
      (id : Text) (words : List Text) (s : State)
      → All IsWord (id ∷ words)
      → Performs
          (run_input show_io x reviewer call
            (typed (command_line (codes "approve" ∷ (id ∷ words))))
            s)
          (approve_change x call id reviewer (prompted s)).1
        × Performs
            (run_input show_io x reviewer call
              (typed (command_line (codes "reject" ∷ (id ∷ words))))
              s)
            (reject_change x call id reviewer (join (codes " ") words) (prompted s)).1
  run_input-decides id words s h = (run_input-approve id words s h, run_input-reject id words s h)

module _ (show_io : IoError → Text) (x : Codec) (reviewer : Text) where
  -- At the end of the input the loop does not end: every further round prints the prompt and
  -- changes nothing else.
  pub interactive_loop-end_of_input :
      (calls : List Call) (s : State)
      → interactive_loop show_io x reviewer (map (λ c. (c, end_of_input)) calls) s
        ≡ (goes_on, record s { screen = s.screen ++ map (λ _. codes "🤔 > ") calls })
  unfolding interactive_loop run_input run_line print trim
  interactive_loop-end_of_input [] s = rw (append-nil s.screen)
  interactive_loop-end_of_input (c ∷ calls) s =
      interactive_loop-end_of_input calls (prompted s)
      ∙ ap (λ (l : List Text). (goes_on, record s { screen = l }))
          (append_assoc s.screen (codes "🤔 > " ∷ []) (map (λ _. codes "🤔 > ") calls))
