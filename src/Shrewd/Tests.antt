-- ===== src/Shrewd/Tests.antt =====
-- Runs and witnesses for shrewd_rtx.rs, with fractions for the floats.
use sovereign_event_bus.Base.{
  true, ℕ, ◌≤◌, ◌<◌, ◌≡◌, none, some, false, [], ◌∷◌, ◌++◌, map, length, replicate, arith,
}
use sovereign_event_bus.Base.Text.{codes}
use sovereign_event_bus.Base.Float.Exact.{exact, exact-IsPrecise}
use sovereign_event_bus.Shrewd.{
  sker_proven, from_idx, TickFeatures, ShrewdRtxEngine, ShrewdPrediction, to_array, zeros,
  prepare_features, rule_based_predict, predict, lower_threshold, to_governance_command, Host,
  run_shrewd_rtx,
}
use sovereign_event_bus.Shrewd.Features.{prepare_features-eq}
use sovereign_event_bus.Shrewd.Tallies.{tally}
use sovereign_event_bus.Shrewd.Predictions.{rule_based_predict-tally}
use sovereign_event_bus.Shrewd.ShortWindows.{predict-lower_threshold}
use sovereign_event_bus.Shrewd.Turns.{run_shrewd_rtx-silent}

-- A tick whose verdict is noise.
abbrev noise_tick : TickFeatures exact
noise_tick = record {
  verdict_enc = (1, 1);
  has_proof = (0, 1);
  agent_hash = (1, 2);
  tick_delta = (1, 1000);
  ts_hour = (0, 1);
  op_hash = (3, 10);
  is_sovereign = (1, 1);
  seal_entropy = (1, 2);
}

abbrev engine : ℕ → ShrewdRtxEngine
engine size = record { onnx_session = none; cuda_available = false; window_size = size }

prepare_features-eq_example :
    (prepare_features exact (engine 3) (noise_tick ∷ [])
      ≡ some (replicate 2 (zeros exact) ++ map (to_array exact) (noise_tick ∷ [])))
    × (length (replicate 2 (zeros exact) ++ map (to_array exact) (noise_tick ∷ [])) ≡ 3)
prepare_features-eq_example = prepare_features-eq exact (engine 3) (noise_tick ∷ [])

rule_based_predict-tally_example :
    (pred : ShrewdPrediction exact) × (rule_based_predict exact
        (engine 3)
        (zeros exact ∷ to_array exact noise_tick ∷ to_array exact noise_tick ∷ [])
      ≡ some pred)
    × ((b : ℕ) × (b ≤ 3)
        × (pred.verdict ≡ from_idx b)
        × (pred.confidence
            ≡ exact.div
                (exact.of_nat (
                  tally exact b
                    (zeros exact ∷ to_array exact noise_tick ∷ to_array exact noise_tick ∷ [])))
                (exact.of_nat 3))
        × ((i : ℕ)
            → i ≤ 3
            → (tally exact i
                  (zeros exact ∷ to_array exact noise_tick ∷ to_array exact noise_tick ∷ [])
                ≤ tally exact b
                    (zeros exact ∷ to_array exact noise_tick ∷ to_array exact noise_tick ∷ []))
              × (b < i
                  → tally exact i
                      (zeros exact ∷ to_array exact noise_tick ∷ to_array exact noise_tick ∷ [])
                    < tally exact b (
                        zeros exact ∷ to_array exact noise_tick ∷ to_array exact noise_tick ∷ []))))
rule_based_predict-tally_example =
    rule_based_predict-tally exact exact-IsPrecise (engine 3)
      (zeros exact ∷ to_array exact noise_tick ∷ to_array exact noise_tick ∷ []) (omega arith)
      (omega arith)

-- Two ticks of noise in a window of twelve lower the threshold.
predict-lower_threshold_example :
    (pred : ShrewdPrediction exact) × (predict exact (engine 12) (noise_tick ∷ noise_tick ∷ [])
      ≡ some pred)
    × (pred.verdict ≡ sker_proven)
    × (to_governance_command exact pred (codes "ann") ≡ lower_threshold exact (codes "ann"))
predict-lower_threshold_example =
    predict-lower_threshold exact exact-IsPrecise (engine 12) (noise_tick ∷ noise_tick ∷ [])
      (codes "ann") (omega arith) (omega arith)

abbrev bare_host : Host
bare_host = record { has_variable = λ v. false; exists = λ p. false }

run_shrewd_rtx-silent_example : run_shrewd_rtx exact true bare_host none 5 ≡ some []
run_shrewd_rtx-silent_example = run_shrewd_rtx-silent exact true bare_host none 5
