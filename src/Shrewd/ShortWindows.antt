-- ===== src/Shrewd/ShortWindows.antt =====
-- What shrewd_rtx.rs makes of a window with fewer ticks than the engine's, whose missing ticks are
-- rows of zeros.
use sovereign_event_bus.Base.{
  ℕ, zero, suc, nat_eq, ◌==◌, ◌+◌, ◌-◌, ◌*◌, ◌≤◌, ◌<◌, ◌≡◌, refl, ap, ap₂, ◌∙◌, Bool-cases, inl,
  inr, Option, none, some, List, ◌∷◌, ◌++◌, length, length-keep, length-drop, length-cons_if,
  length-map, replicate, drop, map, if◌then◌else◌, nat_beq, arith,
}
use mathlib.Core.Option
use sovereign_event_bus.Base.Text.{Text}
use sovereign_event_bus.Base.Float.{Float, IsPrecise}
use sovereign_event_bus.Shrewd.{
  OnnxSession, sker_proven, from_idx, TickFeatures, Row, ShrewdRtxEngine, ShrewdPrediction,
  to_array, zeros, verdict_idx, rule_based_predict, onnx_predict, predict_with, predict, is_greater,
  greater, lower_threshold, command_for, to_governance_command,
}
use sovereign_event_bus.Shrewd.Features.{prepare_features-eq}
use sovereign_event_bus.Shrewd.Tallies.{tally, tally-append}
use sovereign_event_bus.Shrewd.Predictions.{rule_based_predict-tally}

module _ (f : Float) where
  -- The rows of a window.
  abbrev pub rows_of : ShrewdRtxEngine → List (TickFeatures f) → List (Row f)
  rows_of engine window =
      replicate (engine.window_size - length window) (zeros f)
      ++ map (to_array f) (drop (length window - engine.window_size) window)

  predict_with-rule_based :
      (engine : ShrewdRtxEngine) (session : Option OnnxSession) (rows : List (Row f))
      → predict_with f engine session rows ≡ rule_based_predict f engine rows
  unfolding predict_with onnx_predict
  predict_with-rule_based engine none rows = refl
  predict_with-rule_based engine (some session) rows = refl

  -- A session changes nothing but the name of the backend.
  pub predict-rows_of :
      (engine : ShrewdRtxEngine) (window : List (TickFeatures f))
      → predict f engine window ≡ rule_based_predict f engine (rows_of engine window)
  unfolding predict Option.bind
  predict-rows_of engine window =
      ap (λ o. Option.bind o (predict_with f engine engine.onnx_session))
        (prepare_features-eq f engine window).0
      ∙ predict_with-rule_based engine engine.onnx_session (rows_of engine window)

  module _ (laws : IsPrecise f) where
    verdict_idx-zeros : verdict_idx f (zeros f) ≡ 0
    unfolding verdict_idx
    verdict_idx-zeros = rw (laws.round-zero 3) refl

    tally-zeros : (n i : ℕ) → tally f i (replicate n (zeros f)) ≡ (if nat_beq 0 i then n else 0)
    tally-zeros zero i = ground arith
    tally-zeros (suc n) i =
        let rest = tally-zeros n i in
        let zero_row : tally f i (zeros f ∷ replicate n (zeros f)) ≡ (
            if nat_beq 0 i
            then suc (tally f i (replicate n (zeros f)))
            else tally f i (replicate n (zeros f))) =
          rw verdict_idx-zeros (length-cons_if (nat_beq 0 i) (zeros f) _) in
        ground (arith, rest, zero_row)

    -- The rows of zeros, and the others.
    split :
        (engine : ShrewdRtxEngine) (window : List (TickFeatures f)) (i : ℕ)
        → tally f i (rows_of engine window)
          ≡ tally f i (replicate (engine.window_size - length window) (zeros f))
            + tally f i (map (to_array f) (drop (length window - engine.window_size) window))
    split engine window i = tally-append f i _ _

    rest_of :
        (engine : ShrewdRtxEngine) (window : List (TickFeatures f)) (i : ℕ)
        → tally f i (map (to_array f) (drop (length window - engine.window_size) window))
          ≤ length window
    rest_of engine window i =
        let src = drop (length window - engine.window_size) window in
        omega (
          arith,
          length-keep (λ row. verdict_idx f row == i) (map (to_array f) src),
          length-map (to_array f) src,
          length-drop (length window - engine.window_size) window,
        )

    -- A verdict other than that of the zeros has no more rows than the window has ticks.
    tally_other :
        (engine : ShrewdRtxEngine) (window : List (TickFeatures f)) (i : ℕ)
        → 0 < i
        → tally f i (rows_of engine window) ≤ length window
    tally_other engine window i p =
        let front = tally-zeros (engine.window_size - length window) i in
        ground (arith, front, split engine window i, rest_of engine window i)

    tally_zero :
        (engine : ShrewdRtxEngine) (window : List (TickFeatures f))
        → engine.window_size ≤ tally f 0 (rows_of engine window) + length window
    tally_zero engine window =
        let front = tally-zeros (engine.window_size - length window) 0 in
        omega (arith, front, split engine window 0)

    -- A window of fewer than half as many ticks as the engine's is predicted to be proven, whatever
    -- its ticks are.
    predict_short :
        (engine : ShrewdRtxEngine) (window : List (TickFeatures f))
        → 2 * length window < engine.window_size
        → engine.window_size ≤ 4096
        → (pred : ShrewdPrediction f) × (predict f engine window ≡ some pred)
          × (pred.verdict ≡ sker_proven)
          × (pred.confidence
              ≡ f.div (f.of_nat (tally f 0 (rows_of engine window))) (f.of_nat engine.window_size))
    unfolding from_idx
    predict_short engine window short small =
        let rows = rows_of engine window in
        let size : length rows ≡ engine.window_size = (prepare_features-eq f engine window).1 in
        let (pred, made, (b, low, verdict, confidence, wins)) =
          rule_based_predict-tally f laws engine rows (omega (arith, size)) (omega (arith, size)) in
        let zeros_most = tally_zero engine window in
        let proven : b ≡ 0 = elim (Bool-cases (nat_beq b 0)) [
          | inl first ↦ ground arith
          | inr later ↦
              let few = tally_other engine window b (ground arith) in
              let absurd : ⊥ = omega (arith, few, (wins 0 (omega arith)).0, zeros_most, short) in
              elim absurd [ ]
        ] in
        (
          pred,
          predict-rows_of engine window ∙ made,
          verdict ∙ ap from_idx proven,
          confidence ∙ ap₂ (λ k n. f.div (f.of_nat (tally f k rows)) (f.of_nat n)) proven size,
        )

    -- A window with fewer than a fifth of the engine's ticks is predicted to be proven, and the
    -- prediction becomes the command to lower the threshold, whatever the verdicts of its ticks are.
    pub predict-lower_threshold :
        (engine : ShrewdRtxEngine) (window : List (TickFeatures f)) (agent : Text)
        → 5 * length window < engine.window_size
        → engine.window_size ≤ 4096
        → (pred : ShrewdPrediction f) × (predict f engine window ≡ some pred)
          × (pred.verdict ≡ sker_proven)
          × (to_governance_command f pred agent ≡ lower_threshold f agent)
    unfolding to_governance_command greater is_greater command_for
    predict-lower_threshold engine window agent short small =
        let (pred, made, proven, confidence) =
          predict_short engine window (omega (arith, short)) small in
        let share = tally f 0 (rows_of engine window) in
        let size = engine.window_size in
        let zeros_most = tally_zero engine window in
        let part : share ≤ size = omega (
          arith,
          length-keep (λ row. verdict_idx f row == 0) (rows_of engine window),
          (prepare_features-eq f engine window).1,
        ) in
        let over =
          laws.cmp_ratio share size 4 5 (omega (arith, short)) small part (omega arith)
            (omega arith) (omega (arith, zeros_most, short)) in
        (pred, made, proven, rw (proven, confidence, over) refl)
