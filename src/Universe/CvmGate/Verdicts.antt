-- ===== src/Universe/CvmGate/Verdicts.antt =====
-- What the gate of compile_verify_merge.rs decides, and which steps it records.
use sovereign_event_bus.Base.{
  ℕ, nat_eq, ◌≡◌, inl, inr, refl, Option, none, some, Bool, true, false, List, [], ◌∷◌, ◌++◌, map,
  map-append, append_assoc, ok, ◌==◌, ltb, length, length-map, is_empty, all, any, keep, not, ◌&&◌,
  ◌||◌, Bool-cases, arith,
}
use sovereign_event_bus.Base.Text.{Text, codes, text_eq}
use sovereign_event_bus.Universe.Manifest.{
  ArtifactManifest, is_some, get_lean_proofs, verify_invariants_covered,
}
use sovereign_event_bus.Universe.CvmGate.{
  StepResult, CvmGateResult, CvmGate, Gate, typecheck, test, prove, review, merge, process,
  process_test, process_prove, process_review, process_merge, add_step, finish, finalize,
  step_result, new_result, as_u8,
}

-- What the steps look for, as tests on the artifact.
abbrev pub names_source : Option Text → Bool
names_source none = true
names_source (some path) = not (is_empty path)

abbrev pub has_identity : ArtifactManifest → Bool
has_identity a = not (is_empty a.artifact_id) && not (is_empty a.name) && names_source a.source_path

abbrev pub has_proofs : ArtifactManifest → Bool
has_proofs a =
    any (λ p. p.language == codes "lean4") a.proofs
    && all (λ i. is_some i.proof_reference) a.invariants

abbrev pub has_documents : ArtifactManifest → Bool
has_documents a = not (is_empty a.invariants) && (is_some a.doc_url || is_some a.source_path)

abbrev from_review : ArtifactManifest → List (ℕ × Bool)
from_review a = (4, has_documents a) ∷ (5, true) ∷ []

abbrev from_prove : ArtifactManifest → List (ℕ × Bool)
from_prove a = (3, has_proofs a) ∷ from_review a

abbrev from_test : ArtifactManifest → List (ℕ × Bool)
from_test a = (2, true) ∷ from_prove a

abbrev pub verdicts : ArtifactManifest → List (ℕ × Bool)
verdicts a =
    (1, has_identity a) ∷ (2, true) ∷ (3, has_proofs a) ∷ (4, has_documents a) ∷ (5, true) ∷ []

-- Up to the first failure, which is the last one kept.
abbrev pub until_failure : List (ℕ × Bool) → List (ℕ × Bool)
until_failure [] = []
until_failure ((n, true) ∷ vs) = (n, true) ∷ until_failure vs
until_failure ((n, false) ∷ vs) = (n, false) ∷ []

abbrev pub verdict : StepResult → ℕ × Bool
verdict s = (s.step, s.passed)

-- A run that adds these verdicts to those of a result.
abbrev pub IsRun : List (ℕ × Bool) → CvmGateResult → Gate CvmGateResult → Type 0
IsRun vs result m =
    (r : CvmGateResult) × (m ≡ ok r)
    × (map verdict r.steps ≡ map verdict result.steps ++ until_failure vs)
    × (r.passed ≡ all (λ v. v.1) vs)

pub typecheck-has_identity :
    (g : CvmGate) (a : ArtifactManifest) → typecheck g a ≡ ok (has_identity a)
unfolding typecheck
typecheck-has_identity g a = ground arith

any-keep {ℓ} : {A : Type ℓ} (p : A → Bool) (xs : List A) → ltb 0 (length (keep p xs)) ≡ any p xs
any-keep p [] = refl
any-keep p (x ∷ xs) = ground (arith, any-keep p xs)

pub prove-has_proofs : (g : CvmGate) (a : ArtifactManifest) → prove g a ≡ ok (has_proofs a)
unfolding prove get_lean_proofs verify_invariants_covered
prove-has_proofs g a = rw (
  length-map (λ p. p.id) (keep (λ p. p.language == codes "lean4") a.proofs),
  any-keep (λ p. p.language == codes "lean4") a.proofs,
)

pub review-has_documents : (g : CvmGate) (a : ArtifactManifest) → review g a ≡ ok (has_documents a)
unfolding review
review-has_documents g a = ground arith

module _ (s : StepResult) (vs : List (ℕ × Bool)) (result : CvmGateResult) where
  map-add_step : map verdict (add_step s result).steps ≡ map verdict result.steps ++ verdict s ∷ []
  unfolding add_step
  map-add_step = map-append verdict result.steps (s ∷ [])

  passes :
      (m : Gate CvmGateResult)
      → s.passed ≡ true
      → IsRun vs (add_step s result) m
      → IsRun ((s.step, true) ∷ vs) result m
  passes m h (r, e, t, p) = (
    r,
    e,
    rw (
      t,
      map-add_step,
      h,
      append_assoc (map verdict result.steps) ((s.step, true) ∷ []) (until_failure vs),
    ),
    p,
  )

  fails :
      (clock : ℕ → ℕ) (n : ℕ)
      → s.passed ≡ false
      → IsRun ((s.step, false) ∷ vs) result (ok (finish clock n false (add_step s result)))
  unfolding finish finalize
  fails clock n h = (_, refl, rw (map-add_step, h), refl)

module _ (g : CvmGate) (clock : ℕ → ℕ) (a : ArtifactManifest) where
  process_merge-IsRun :
      (result : CvmGateResult) → IsRun ((5, true) ∷ []) result (process_merge g clock a result)
  unfolding process_merge merge finish finalize step_result as_u8
  process_merge-IsRun result = (_, refl, map-add_step _ [] result, refl)

  process_review-IsRun :
      (result : CvmGateResult)
      → IsRun ((4, has_documents a) ∷ (5, true) ∷ []) result (process_review g clock a result)
  unfolding process_review step_result as_u8
  process_review-IsRun result = elim (Bool-cases (has_documents a)) [
    | inl good ↦
        rw (review-has_documents g a, good)
          (passes _ ((5, true) ∷ []) result _ refl (process_merge-IsRun _))
    | inr bad ↦ rw (review-has_documents g a, bad) (fails _ ((5, true) ∷ []) result clock 14 refl)
  ]

  process_prove-IsRun :
      (result : CvmGateResult) → IsRun (from_prove a) result (process_prove g clock a result)
  unfolding process_prove step_result as_u8
  process_prove-IsRun result = elim (Bool-cases (has_proofs a)) [
    | inl good ↦
        rw (prove-has_proofs g a, good)
          (passes _ (from_review a) result _ refl (process_review-IsRun _))
    | inr bad ↦ rw (prove-has_proofs g a, bad) (fails _ (from_review a) result clock 11 refl)
  ]

  process_test-IsRun :
      (result : CvmGateResult) → IsRun (from_test a) result (process_test g clock a result)
  unfolding process_test test step_result as_u8
  process_test-IsRun result = elim (Bool-cases (not (is_empty a.tests) || true)) [
    | inl good ↦ rw good (passes _ (from_prove a) result _ refl (process_prove-IsRun _))
    | inr bad ↦ ground arith
  ]

  -- The gate always returns a result. It records the steps 1 to 5, numbered in this order, up to the
  -- first that fails, each with what the step finds of the artifact, and it passes the artifact
  -- exactly where none of the five fails. The second and the fifth never do.
  pub process-until_failure :
      (r : CvmGateResult) × (process g clock a ≡ ok r)
      × (map verdict r.steps ≡ until_failure (verdicts a))
      × (r.passed ≡ all (λ v. v.1) (verdicts a))
  unfolding process step_result as_u8 new_result
  process-until_failure = elim (Bool-cases (has_identity a)) [
    | inl good ↦
        rw (typecheck-has_identity g a, good)
          (passes _ (from_test a) (new_result (clock 1) a.artifact_id) _ refl
            (process_test-IsRun _))
    | inr bad ↦
        rw (typecheck-has_identity g a, bad)
          (fails _ (from_test a) (new_result (clock 1) a.artifact_id) clock 5 refl)
  ]
