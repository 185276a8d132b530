-- ===== src/HumanTouch/Startup/Endings.antt =====
-- When the program of main.rs ends.
use sovereign_event_bus.Base.{ℕ, ◌+◌, ◌≡◌, ◌≢◌, refl, ap, ◌∙◌, arith}
use sovereign_event_bus.Base.Text.{Text}
use sovereign_event_bus.HumanTouch.AuditLog.{Codec, IoError}
use sovereign_event_bus.HumanTouch.ReviewQueue.{State}
use sovereign_event_bus.HumanTouch.Processor.{
  Phase, starting, running, stopped, Step, lock_queue, wakes, gives_up, command, free_command,
}
use sovereign_event_bus.HumanTouch.Startup.{
  Stage, serving, interactive, ended, reads, leaves, spawned, joins, signal, Run, begins,
  then_turns,
}

module _ (show_io : IoError → Text) (x : Codec) (format_time : ℕ → Text) (reviewer : Text) where
  -- How many wakes of the loop of `process_queue` return an error.
  abbrev failed_wakes_of :
      {p q : Phase} {s t : State} → Step show_io x format_time reviewer p s q t → ℕ
  failed_wakes_of lock_queue = 0
  failed_wakes_of (wakes call w made) = 0
  failed_wakes_of (gives_up call w e made) = 1
  failed_wakes_of (command call input free made) = 0
  failed_wakes_of (free_command call input free made) = 0

  -- The same of the turns of a run.
  abbrev pub failed_wakes :
      {s : State} {g h : Stage} {p : Phase} {t : State}
      → Run show_io x format_time reviewer s g h p t
      → ℕ
  failed_wakes begins = 0
  failed_wakes (then_turns r (spawned made own active)) = failed_wakes r + failed_wakes_of made
  failed_wakes (then_turns r (reads call input free goes made)) = failed_wakes r
  failed_wakes (then_turns r (leaves call input left made)) = failed_wakes r
  failed_wakes (then_turns r joins) = failed_wakes r
  failed_wakes (then_turns r signal) = failed_wakes r

  abbrev failures_of : Phase → ℕ
  failures_of starting = 0
  failures_of running = 0
  failures_of stopped = 1

  failures_of-Step :
      {p q : Phase} {s t : State} (made : Step show_io x format_time reviewer p s q t)
      → failures_of p + failed_wakes_of made ≡ failures_of q
  failures_of-Step lock_queue = refl
  failures_of-Step (wakes call w made) = refl
  failures_of-Step (gives_up call w f made) = refl
  failures_of-Step (command call input free made) = omega arith
  failures_of-Step (free_command call input free made) = omega arith

  -- The spawned task has returned where, and only where, one of its wakes failed.
  failed_wakes-phase :
      {s : State} {g h : Stage} {p : Phase} {t : State}
      (r : Run show_io x format_time reviewer s g h p t)
      → failed_wakes r ≡ failures_of p
  failed_wakes-phase begins = refl
  failed_wakes-phase (then_turns r (reads call input free goes made)) = failed_wakes-phase r
  failed_wakes-phase (then_turns r (leaves call input left made)) = failed_wakes-phase r
  failed_wakes-phase (then_turns r (spawned made own active)) =
      omega (arith, failed_wakes-phase r, failures_of-Step made)
  failed_wakes-phase (then_turns r joins) = failed_wakes-phase r
  failed_wakes-phase (then_turns r signal) = failed_wakes-phase r

  -- From the interactive stage on the program never serves.
  never_serves :
      {s : State} {g h : Stage} {p : Phase} {t : State}
      → g ≡ interactive
      → Run show_io x format_time reviewer s g h p t
      → h ≢ serving
  never_serves e begins f = cc
  never_serves e (then_turns r (reads call input free goes made)) f = cc
  never_serves e (then_turns r (leaves call input left made)) f = cc
  never_serves e (then_turns r (spawned made own active)) f = never_serves e r f
  never_serves e (then_turns r joins) f = cc
  never_serves e (then_turns r signal) f = cc

  ended_stopped :
      {s : State} {g h : Stage} {p : Phase} {t : State}
      → g ≡ interactive
      → Run show_io x format_time reviewer s g h p t
      → h ≡ ended
      → p ≡ stopped
  ended_stopped e begins f = cc
  ended_stopped e (then_turns r (reads call input free goes made)) f = cc
  ended_stopped e (then_turns r (leaves call input left made)) f = cc
  ended_stopped e (then_turns r (spawned made own active)) f = elim (active f) [ ]
  ended_stopped e (then_turns r joins) f = refl
  ended_stopped e (then_turns r signal) f = elim (never_serves e r refl) [ ]

  -- In the interactive mode a run that ends the program has a turn in which a wake of
  -- `process_queue` returns an error, and one only: `exit` alone does not end the program, since
  -- `main` then waits for the spawned task.
  pub failed_wakes-ended :
      {s : State} {p : Phase} {t : State}
      (r : Run show_io x format_time reviewer s interactive ended p t)
      → failed_wakes r ≡ 1
  failed_wakes-ended r = failed_wakes-phase r ∙ ap failures_of (ended_stopped refl r refl)
