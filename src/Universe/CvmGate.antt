-- ===== src/Universe/CvmGate.antt =====
-- seb/universe/src/compile_verify_merge.rs: the gate that an artifact goes through. The clock is
-- the function of its readings, in nanoseconds and in the order in which one call takes them; it
-- may run backwards.
pub mod Verdicts
pub mod Promotion
pub mod Durations
pub mod Tests
use sovereign_event_bus.Base.{
  ℕ, suc, ◌+◌, ◌-◌, ◌/◌, ◌%◌, ◌^◌, nat_eq, Option, none, some, Bool, true, false, List, [], ◌∷◌,
  ◌++◌, Result, ok, err, ◌>>=◌, ◌==◌, if◌then◌else◌, leb, ltb, length, is_empty, keep, not, ◌&&◌,
  ◌||◌,
}
use sovereign_event_bus.Base.Text.{Text, codes}
use sovereign_event_bus.Base.Text.Slices.{decimal}
use sovereign_event_bus.Universe.Manifest
use sovereign_event_bus.Universe.Manifest.{
  ArtifactManifest, t1, is_some, get_lean_proofs, verify_invariants_covered,
}

pub data CvmGateStep : Type 0 where
  typecheck_step test_step prove_step review_step merge_step promote_step : CvmGateStep

unfoldable pub as_u8 : CvmGateStep → ℕ
as_u8 typecheck_step = 1
as_u8 test_step = 2
as_u8 prove_step = 3
as_u8 review_step = 4
as_u8 merge_step = 5
as_u8 promote_step = 6

unfoldable pub description : CvmGateStep → Text
description typecheck_step = codes "Typecheck: Verify type safety"
description test_step = codes "Test: Run test suite"
description prove_step = codes "Prove: Verify formal proofs"
description review_step = codes "Review: Security & design review"
description merge_step = codes "Merge: Integrate into universe"
description promote_step = codes "Promote: Advance tier after soak"

pub record StepResult : Type 0 where
  pub step : ℕ
  pub passed : Bool
  pub message : Text
  pub timestamp : ℕ
  pub duration_ms : ℕ

pub record CvmGateResult : Type 0 where
  pub artifact_id : Text
  pub steps : List StepResult
  pub passed : Bool
  pub completed_at : ℕ
  pub total_duration_ms : ℕ

unfoldable pub new_result : ℕ → Text → CvmGateResult
new_result now artifact_id = record {
  artifact_id = artifact_id;
  steps = [];
  passed = false;
  completed_at = now;
  total_duration_ms = 0;
}

unfoldable pub add_step : StepResult → CvmGateResult → CvmGateResult
add_step s r = record r { steps = r.steps ++ s ∷ [] }

unfoldable pub finalize : (now : ℕ) → Bool → ℕ → CvmGateResult → CvmGateResult
finalize now passed total_ms r = record r {
  passed = passed;
  completed_at = now;
  total_duration_ms = total_ms;
}

unfoldable pub summary : CvmGateResult → Text
summary r =
    codes "CVMGate: "
    ++ decimal (length (keep (λ s. s.passed) r.steps))
    ++ codes "/"
    ++ decimal (length r.steps)
    ++ codes " steps passed, "
    ++ decimal (r.total_duration_ms / 1000)
    ++ codes " seconds"

-- `(now - start).num_milliseconds() as u64`: towards zero, and a negative number wraps.
unfoldable pub elapsed_ms : (now start : ℕ) → ℕ
elapsed_ms now start =
    if leb start now
    then ((now - start) / 1000000) % 2 ^ 64
    else (2 ^ 64 - ((start - now) / 1000000) % 2 ^ 64) % 2 ^ 64

pub record CvmGate : Type 0 where
  pub typecheck_strict : Bool

unfoldable pub new : CvmGate
new = record { typecheck_strict = false }

unfoldable pub strict : CvmGate → CvmGate
strict g = record g { typecheck_strict = true }

pub data GateError : Type 0 where
  only_t2 must_pass_gate : GateError

abbrev pub Gate {ℓ} : Type ℓ → Type ℓ
Gate A = Result GateError A

unfoldable pub typecheck : CvmGate → ArtifactManifest → Gate Bool
typecheck self a =
    if is_empty a.artifact_id
    then ok false
    else if is_empty a.name
    then ok false
    else elim a.source_path [ none ↦ ok true | some path ↦ ok (not (is_empty path)) ]

unfoldable pub test : CvmGate → ArtifactManifest → Gate Bool
test self a = ok (not (is_empty a.tests) || true)

unfoldable pub prove : CvmGate → ArtifactManifest → Gate Bool
prove self a =
    let has_lean_proofs = ltb 0 (length (get_lean_proofs a)) in
    let invariants_covered = verify_invariants_covered a in
    ok (has_lean_proofs && invariants_covered)

unfoldable pub review : CvmGate → ArtifactManifest → Gate Bool
review self a =
    if is_empty a.invariants
    then ok false
    else if not (is_some a.doc_url) && not (is_some a.source_path)
    then ok false
    else ok true

unfoldable pub merge : CvmGate → ArtifactManifest → Gate Bool
merge self a = ok true

-- The result of one step, whose three readings of the clock start at the n-th.
unfoldable pub step_result : (ℕ → ℕ) → ℕ → CvmGateStep → Bool → Text → StepResult
step_result clock n step passed message = record {
  step = as_u8 step;
  passed = passed;
  message = message;
  timestamp = clock (n + 2);
  duration_ms = elapsed_ms (clock (n + 1)) (clock n);
}

-- The end of a run, whose two readings of the clock start at the n-th.
unfoldable pub finish : (ℕ → ℕ) → ℕ → Bool → CvmGateResult → CvmGateResult
finish clock n passed r = finalize (clock (n + 1)) passed (elapsed_ms (clock n) (clock 0)) r

-- The body of `process` from step 5 on, and so on up to the whole.
unfoldable pub process_merge :
    CvmGate → (ℕ → ℕ) → ArtifactManifest → CvmGateResult → Gate CvmGateResult
process_merge self clock a result = merge self a >>= (λ merge_ok.
    let r =
      add_step (step_result clock 14 merge_step merge_ok (codes "Artifact merged into universe"))
        result in
    ok (finish clock 17 merge_ok r))

unfoldable pub process_review :
    CvmGate → (ℕ → ℕ) → ArtifactManifest → CvmGateResult → Gate CvmGateResult
process_review self clock a result = review self a >>= (λ review_ok.
    let r =
      add_step
        (step_result clock 11 review_step review_ok
          (if review_ok then codes "Design review passed" else codes "Design review failed"))
        result in
    if not review_ok then ok (finish clock 14 false r) else process_merge self clock a r)

unfoldable pub process_prove :
    CvmGate → (ℕ → ℕ) → ArtifactManifest → CvmGateResult → Gate CvmGateResult
process_prove self clock a result = prove self a >>= (λ prove_ok.
    let r =
      add_step
        (step_result clock 8 prove_step prove_ok
          (codes "Proofs: " ++ decimal (length a.proofs) ++ codes " proofs verified"))
        result in
    if not prove_ok then ok (finish clock 11 false r) else process_review self clock a r)

unfoldable pub process_test :
    CvmGate → (ℕ → ℕ) → ArtifactManifest → CvmGateResult → Gate CvmGateResult
process_test self clock a result = test self a >>= (λ test_ok.
    let r =
      add_step
        (step_result clock 5 test_step test_ok
          (codes "Tests: " ++ decimal (length a.tests) ++ codes " tests executed"))
        result in
    if not test_ok then ok (finish clock 8 false r) else process_prove self clock a r)

unfoldable pub process : CvmGate → (ℕ → ℕ) → ArtifactManifest → Gate CvmGateResult
process self clock a = typecheck self a >>= (λ typecheck_ok.
    let r =
      add_step
        (step_result clock 2 typecheck_step typecheck_ok
          (if typecheck_ok then codes "Typecheck passed" else codes "Typecheck failed"))
        (new_result (clock 1) a.artifact_id) in
    if not typecheck_ok then ok (finish clock 5 false r) else process_test self clock a r)

unfoldable pub promote : CvmGate → (now : ℕ) → ArtifactManifest → Gate ArtifactManifest
promote self now a =
    if not (Manifest.as_u8 a.tier == 2)
    then err only_t2
    else if not a.cvm_gate_passed
    then err must_pass_gate
    else ok (record a { tier = t1; updated_at = now })
