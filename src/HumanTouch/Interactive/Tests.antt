-- ===== src/HumanTouch/Interactive/Tests.antt =====
-- Witnesses for the interactive loop of main.rs.
use sovereign_event_bus.Base.{refl, [], ◌∷◌}
use sovereign_event_bus.Base.Text.{Text, codes}
use sovereign_event_bus.Base.Text.Lines.{join}
use sovereign_event_bus.HumanTouch.AuditLog.{IoError}
use sovereign_event_bus.HumanTouch.ReviewQueue.{approve_change, reject_change}
use sovereign_event_bus.HumanTouch.Interactive.{typed, run_input}
use sovereign_event_bus.HumanTouch.Interactive.Commands.{
  command_line, prompted, Performs, run_input-decides,
}
use sovereign_event_bus.HumanTouch.Samples.{sample_codec, sample_state, good_call}

abbrev show_io : IoError → Text
show_io e = codes "io"

run_input-decides_example :
    Performs
      (run_input show_io sample_codec
        (codes "ann")
        good_call
        (typed (command_line (codes "approve" ∷ (codes "c1" ∷ (codes "too" ∷ (codes "big" ∷ []))))))
        sample_state)
      (approve_change sample_codec good_call (codes "c1") (codes "ann") (prompted sample_state)).1
    × Performs
        (run_input show_io sample_codec
          (codes "ann")
          good_call
          (typed
            (command_line (codes "reject" ∷ (codes "c1" ∷ (codes "too" ∷ (codes "big" ∷ []))))))
          sample_state)
        (reject_change sample_codec good_call
          (codes "c1")
          (codes "ann")
          (codes "too big")
          (prompted sample_state)).1
unfolding join
run_input-decides_example =
    run_input-decides show_io sample_codec (codes "ann") good_call (codes "c1")
      (codes "too" ∷ (codes "big" ∷ [])) sample_state
      ((refl, refl), ((refl, refl), ((refl, refl), tt)))
