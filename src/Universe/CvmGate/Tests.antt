-- ===== src/Universe/CvmGate/Tests.antt =====
-- Runs and witnesses for compile_verify_merge.rs, on a clock that ticks once a reading.
use sovereign_event_bus.Base.{
  ℕ, ◌*◌, ◌≡◌, ◌↔◌, refl, true, false, [], ◌∷◌, map, ok, ltb, if◌then◌else◌, arith,
}
use sovereign_event_bus.Base.Text.{codes}
use sovereign_event_bus.Base.Text.Slices.{decimal}
use sovereign_event_bus.Universe.Manifest.{ArtifactManifest}
use sovereign_event_bus.Universe.Samples.{blake3, append_log}
use sovereign_event_bus.Universe.CvmGate.{CvmGateResult, CvmGate, process, summary, elapsed_ms}
use sovereign_event_bus.Universe.CvmGate.Verdicts.{verdict, process-until_failure}
use sovereign_event_bus.Universe.CvmGate.Durations.{IsSteady, IsTimely, process-IsTimely}
use sovereign_event_bus.Universe.CvmGate.Promotion.{IsAdmissible, process_passed}

abbrev ticks : ℕ → ℕ
ticks n = n * 1000000

abbrev gate : CvmGate
gate = record { typecheck_strict = false }

summary_of_a_run :
    summary (record {
      artifact_id = codes "a";
      steps =
          record { step = 1; passed = true; message = []; timestamp = 0; duration_ms = 1 }
          ∷ record { step = 2; passed = false; message = []; timestamp = 0; duration_ms = 1 }
          ∷ [];
      passed = false;
      completed_at = 9;
      total_duration_ms = 2500;
    })
    ≡ codes "CVMGate: 1/2 steps passed, 2 seconds"
unfolding summary decimal
summary_of_a_run = refl

elapsed_ms_backwards : elapsed_ms 0 3000000 ≡ 18446744073709551613
unfolding elapsed_ms
elapsed_ms_backwards = refl

process-until_failure_example :
    (r : CvmGateResult) × (process gate ticks append_log ≡ ok r)
    × (map verdict r.steps ≡ (1, true) ∷ (2, true) ∷ (3, true) ∷ (4, false) ∷ [])
    × (r.passed ≡ false)
process-until_failure_example = process-until_failure gate ticks append_log

process_passed_example :
    (r : CvmGateResult) × (process gate ticks blake3 ≡ ok r)
    × ((r.passed ≡ true) ↔ IsAdmissible blake3)
process_passed_example = process_passed gate ticks blake3

abbrev bare : ArtifactManifest
bare = record blake3 { invariants = []; cvm_gate_passed = false }

-- A clock that stops after a hundred readings.
abbrev capped : ℕ → ℕ
capped n = if ltb n 100 then n * 1000000 else 100000000

capped-IsSteady : IsSteady capped
capped-IsSteady = record { forward = λ m n h. ground arith; small = λ n. ground arith }

process-IsTimely_example : IsTimely (process gate capped append_log)
process-IsTimely_example = process-IsTimely gate capped capped-IsSteady append_log
