-- ===== src/Shrewd/Turns.antt =====
-- The turns of the loop of shrewd_rtx.rs.
use sovereign_event_bus.Base.{
  ℕ, zero, suc, ◌<◌, ◌≡◌, refl, Option, some, Bool, true, false, List, [], length, ltb, arith,
}
use mathlib.Core.Option
use sovereign_event_bus.Base.Text.{Text}
use sovereign_event_bus.Base.Float.{Float}
use sovereign_event_bus.Shrewd.{
  TickFeatures, ShrewdRtxEngine, Host, new, run_tick, run_ticks, run_shrewd_rtx,
}

module _ (f : Float) where
  run_tick-few :
      (engine : ShrewdRtxEngine) (window : List (TickFeatures f))
      → length window < 10
      → run_tick f engine window ≡ some []
  unfolding run_tick
  run_tick-few engine window few =
      let small : ltb (length window) 10 ≡ true = ground arith in rw small refl

  run_ticks-few :
      (n : ℕ) (engine : ShrewdRtxEngine) (window : List (TickFeatures f))
      → length window < 10
      → run_ticks f n engine window ≡ some []
  unfolding run_ticks Option.bind
  run_ticks-few zero engine window few = refl
  run_ticks-few (suc n) engine window few =
      rw (run_tick-few engine window few, run_ticks-few n engine window few) refl

  -- The loop never publishes a command, however many turns it runs for: nothing fills the window that
  -- it starts with.
  pub run_shrewd_rtx-silent :
      (nats_bus : Bool) (host : Host) (model_path : Option Text) (turns : ℕ)
      → run_shrewd_rtx f nats_bus host model_path turns ≡ some []
  unfolding run_shrewd_rtx
  run_shrewd_rtx-silent true host model_path turns =
      run_ticks-few turns (new host model_path) [] (omega arith)
  run_shrewd_rtx-silent false host model_path turns = refl
