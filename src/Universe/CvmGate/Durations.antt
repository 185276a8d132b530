-- ===== src/Universe/CvmGate/Durations.antt =====
-- The times of the gate of compile_verify_merge.rs, where the clock does not run backwards.
use sovereign_event_bus.Base.{
  ℕ, ◌+◌, ◌-◌, ◌/◌, ◌^◌, ◌≤◌, ◌<◌, ◌≡◌, inl, inr, refl, true, false, List, [], ◌∷◌, ◌++◌, ok, Bool,
  Bool-cases, arith, leb, not, ◌||◌, is_empty,
}
use sovereign_event_bus.Base.Text.{Text}
use sovereign_event_bus.Universe.Manifest.{ArtifactManifest}
use sovereign_event_bus.Universe.CvmGate.{
  CvmGateStep, StepResult, CvmGateResult, CvmGate, Gate, test, merge, process, process_test,
  process_prove, process_review, process_merge, add_step, finish, finalize, step_result, new_result,
  elapsed_ms,
}
use sovereign_event_bus.Universe.CvmGate.Verdicts.{
  has_identity, has_proofs, has_documents, typecheck-has_identity, prove-has_proofs,
  review-has_documents,
}

abbrev pub step_time : List StepResult → ℕ
step_time [] = 0
step_time (s ∷ ss) = s.duration_ms + step_time ss

step_time-append :
    (ss : List StepResult) (s : StepResult)
    → step_time (ss ++ s ∷ []) ≡ step_time ss + s.duration_ms
step_time-append [] s = omega arith
step_time-append (t ∷ ss) s = omega (arith, step_time-append ss s)

-- A clock that does not run backwards, in nanoseconds of 64 bits.
pub record IsSteady (clock : ℕ → ℕ) : Type 0 where
  pub forward : (m n : ℕ) → m ≤ n → clock m ≤ clock n
  pub small : (n : ℕ) → clock n < 2 ^ 64

elapsed_ms-forward :
    (now start : ℕ) → start ≤ now → now < 2 ^ 64 → elapsed_ms now start ≡ (now - start) / 1000000
unfolding elapsed_ms
elapsed_ms-forward now start h s =
    let ahead : leb start now ≡ true = ground arith in rw ahead (omega arith)

-- A result whose steps took no more than the whole.
abbrev pub IsTimely : Gate CvmGateResult → Type 0
IsTimely m = (r : CvmGateResult) × (m ≡ ok r) × (step_time r.steps ≤ r.total_duration_ms)

module _ (g : CvmGate) (clock : ℕ → ℕ) (steady : IsSteady clock) (a : ArtifactManifest) where
  open steady use {forward, small}

  -- The steps of a result took no more than the time up to a reading.
  abbrev Within : ℕ → CvmGateResult → Type 0
  Within n r = step_time r.steps ≤ (clock n - clock 0) / 1000000

  add_step-Within :
      (n : ℕ) (step : CvmGateStep) (passed : Bool) (message : Text) (r : CvmGateResult)
      → Within n r
      → Within (n + 3) (add_step (step_result clock n step passed message) r)
  unfolding add_step step_result
  add_step-Within n step passed message r h =
      let began = forward 0 n (omega arith) in
      let lasted = forward n (n + 1) (omega arith) in
      let later = forward (n + 1) (n + 3) (omega arith) in
      let part = elapsed_ms-forward (clock (n + 1)) (clock n) lasted (small (n + 1)) in
      omega (
        arith,
        began,
        lasted,
        later,
        h,
        part,
        step_time-append r.steps (step_result clock n step passed message),
      )

  finish-IsTimely :
      (n : ℕ) (passed : Bool) (r : CvmGateResult)
      → Within n r
      → IsTimely (ok (finish clock n passed r))
  unfolding finish finalize
  finish-IsTimely n passed r h =
      let whole = elapsed_ms-forward (clock n) (clock 0) (forward 0 n (omega arith)) (small n) in
      (_, refl, omega (arith, whole, h))

  process_merge-IsTimely : (r : CvmGateResult) → Within 14 r → IsTimely (process_merge g clock a r)
  unfolding process_merge merge
  process_merge-IsTimely r h = finish-IsTimely 17 true _ (add_step-Within 14 _ _ _ r h)

  process_review-IsTimely :
      (r : CvmGateResult) → Within 11 r → IsTimely (process_review g clock a r)
  unfolding process_review
  process_review-IsTimely r h = elim (Bool-cases (has_documents a)) [
    | inl good ↦
        rw (review-has_documents g a, good)
          (process_merge-IsTimely _ (add_step-Within 11 _ _ _ r h))
    | inr bad ↦
        rw (review-has_documents g a, bad)
          (finish-IsTimely 14 false _ (add_step-Within 11 _ _ _ r h))
  ]

  process_prove-IsTimely : (r : CvmGateResult) → Within 8 r → IsTimely (process_prove g clock a r)
  unfolding process_prove
  process_prove-IsTimely r h = elim (Bool-cases (has_proofs a)) [
    | inl good ↦
        rw (prove-has_proofs g a, good) (process_review-IsTimely _ (add_step-Within 8 _ _ _ r h))
    | inr bad ↦
        rw (prove-has_proofs g a, bad) (finish-IsTimely 11 false _ (add_step-Within 8 _ _ _ r h))
  ]

  process_test-IsTimely : (r : CvmGateResult) → Within 5 r → IsTimely (process_test g clock a r)
  unfolding process_test test
  process_test-IsTimely r h = elim (Bool-cases (not (is_empty a.tests) || true)) [
    | inl good ↦ rw good (process_prove-IsTimely _ (add_step-Within 5 _ _ _ r h))
    | inr bad ↦ ground arith
  ]

  -- Where the clock does not run backwards and reads numbers of 64 bits, the durations of the steps
  -- that the gate records add up to no more than the total duration that it reports, wherever it
  -- stops.
  pub process-IsTimely : IsTimely (process g clock a)
  unfolding process new_result
  process-IsTimely =
      let start : CvmGateResult = new_result (clock 1) a.artifact_id in
      let none_yet : Within 2 start = omega arith in
      elim (Bool-cases (has_identity a)) [
        | inl good ↦
            rw (typecheck-has_identity g a, good)
              (process_test-IsTimely _ (add_step-Within 2 _ _ _ start none_yet))
        | inr bad ↦
            rw (typecheck-has_identity g a, bad)
              (finish-IsTimely 5 false _ (add_step-Within 2 _ _ _ start none_yet))
      ]
