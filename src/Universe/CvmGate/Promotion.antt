-- ===== src/Universe/CvmGate/Promotion.antt =====
-- Who passes the gate of compile_verify_merge.rs, and who is promoted.
use sovereign_event_bus.Base.{
  ℕ, nat_eq, ◌≡◌, ◌≢◌, ◌↔◌, ◌⊎◌, inl, inr, refl, sym, ◌∙◌, Option, none, some, Bool, true, false,
  List, [], ◌∷◌, ok, ◌==◌, is_ok, is_empty, all, any, not, ◌&&◌, ◌||◌, Bool-cases, arith,
}
use mathlib.Core.List.{Memᴰ}
use sovereign_event_bus.Base.Text.{Text, codes, text_eq, text_beq_iff}
use sovereign_event_bus.Universe.Manifest.{
  ArtifactManifest, t0, t2, t3, Invariant, ProofMetadata, TestMetadata, is_some, mark_cvm_passed,
}
use sovereign_event_bus.Universe.Manifest
use sovereign_event_bus.Universe.CvmGate.{CvmGateResult, CvmGate, process, promote}
use sovereign_event_bus.Universe.CvmGate.Verdicts.{
  names_source, has_identity, has_proofs, has_documents, process-until_failure,
}

abbrev is_lean : ProofMetadata → Bool
is_lean p = p.language == codes "lean4"

abbrev is_covered : Invariant → Bool
is_covered i = is_some i.proof_reference

-- What an artifact needs to pass.
pub record IsAdmissible (a : ArtifactManifest) : Type 0 where
  pub identified : a.artifact_id ≢ []
  pub named : a.name ≢ []
  pub sourced : a.source_path ≢ some []
  pub proved : (p : ProofMetadata) × Memᴰ p a.proofs × (p.language ≡ codes "lean4")
  pub covered : (i : Invariant) → Memᴰ i a.invariants → i.proof_reference ≢ none
  pub constrained : a.invariants ≢ []
  pub documented : (a.doc_url ≢ none) ⊎ (a.source_path ≢ none)

module _ {ℓ} {A : Type ℓ} (p : A → Bool) where
  any→Memᴰ : (xs : List A) → any p xs ≡ true → (x : A) × Memᴰ x xs × (p x ≡ true)
  any→Memᴰ [] h = cc
  any→Memᴰ (x ∷ xs) h = elim (Bool-cases (p x)) [
    | inl here ↦ (x, Memᴰ.head refl, here)
    | inr there ↦ let (y, m, e) = any→Memᴰ xs (rw there at h) in (y, Memᴰ.tail m, e)
  ]

  Memᴰ→any : (xs : List A) (x : A) → Memᴰ x xs → p x ≡ true → any p xs ≡ true
  Memᴰ→any [] x m h = elim m [ ]
  Memᴰ→any (y ∷ xs) x (Memᴰ.head e) h = rw (← e, h)
  Memᴰ→any (y ∷ xs) x (Memᴰ.tail m) h = ground (arith, Memᴰ→any xs x m h)

  all→Memᴰ : (xs : List A) → all p xs ≡ true → (x : A) → Memᴰ x xs → p x ≡ true
  all→Memᴰ [] h x m = elim m [ ]
  all→Memᴰ (y ∷ xs) h x (Memᴰ.head e) = rw e (ground arith)
  all→Memᴰ (y ∷ xs) h x (Memᴰ.tail m) = all→Memᴰ xs (ground arith) x m

  Memᴰ→all : (xs : List A) → ((x : A) → Memᴰ x xs → p x ≡ true) → all p xs ≡ true
  Memᴰ→all [] h = refl
  Memᴰ→all (y ∷ xs) h = ground (arith, h y (Memᴰ.head refl), Memᴰ→all xs (λ x m. h x (Memᴰ.tail m)))

nonempty_iff {ℓ} : {A : Type ℓ} (xs : List A) → (not (is_empty xs) ≡ true) ↔ (xs ≢ [])
nonempty_iff [] = (λ h. cc, λ h. elim (h refl) [ ])
nonempty_iff (x ∷ xs) = (λ h e. cc, λ h. refl)

is_some_iff {ℓ} : {A : Type ℓ} (o : Option A) → (is_some o ≡ true) ↔ (o ≢ none)
is_some_iff none = (λ h. cc, λ h. elim (h refl) [ ])
is_some_iff (some a) = (λ h e. cc, λ h. refl)

names_source_iff : (o : Option Text) → (names_source o ≡ true) ↔ (o ≢ some [])
names_source_iff none = (λ h e. cc, λ h. refl)
names_source_iff (some []) = (λ h. cc, λ h. elim (h refl) [ ])
names_source_iff (some (c ∷ s)) = (λ h e. cc, λ h. refl)

&&-iff : (b c : Bool) → (b && c ≡ true) ↔ ((b ≡ true) × (c ≡ true))
&&-iff true c = (λ h. (refl, h), λ h. h.1)
&&-iff false c = (λ h. cc, λ h. cc)

||-iff : (b c : Bool) → (b || c ≡ true) ↔ ((b ≡ true) ⊎ (c ≡ true))
||-iff true c = (λ h. inl refl, λ h. refl)
||-iff false c = (λ h. inr h, λ h. elim h [ inl e ↦ cc | inr e ↦ e ])

passes→IsAdmissible :
    (a : ArtifactManifest)
    → has_identity a ≡ true
    → has_proofs a ≡ true
    → has_documents a ≡ true
    → IsAdmissible a
passes→IsAdmissible a i p d =
    let (id_name, source) =
      (&&-iff (not (is_empty a.artifact_id) && not (is_empty a.name))
          (names_source a.source_path)).0
        i in
    let (id, name) = (&&-iff (not (is_empty a.artifact_id)) (not (is_empty a.name))).0 id_name in
    let (lean, covered) = (&&-iff (any is_lean a.proofs) (all is_covered a.invariants)).0 p in
    let (constrained, documented) =
      (&&-iff (not (is_empty a.invariants)) (is_some a.doc_url || is_some a.source_path)).0 d in
    let (q, m, e) = any→Memᴰ is_lean a.proofs lean in
    record {
      identified = (nonempty_iff a.artifact_id).0 id;
      named = (nonempty_iff a.name).0 name;
      sourced = (names_source_iff a.source_path).0 source;
      proved = (q, m, (text_beq_iff q.language (codes "lean4")).0 e);
      covered =
          λ j k. (is_some_iff j.proof_reference).0 (all→Memᴰ is_covered a.invariants covered j k);
      constrained = (nonempty_iff a.invariants).0 constrained;
      documented = elim ((||-iff (is_some a.doc_url) (is_some a.source_path)).0 documented) [
        | inl u ↦ inl ((is_some_iff a.doc_url).0 u)
        | inr u ↦ inr ((is_some_iff a.source_path).0 u)
      ];
    }

IsAdmissible→passes :
    (a : ArtifactManifest)
    → IsAdmissible a
    → (has_identity a ≡ true) × (has_proofs a ≡ true) × (has_documents a ≡ true)
IsAdmissible→passes a h =
    let (q, m, e) = h.proved in
    (
      (&&-iff (not (is_empty a.artifact_id) && not (is_empty a.name))
            (names_source a.source_path)).1
          (
            (&&-iff (not (is_empty a.artifact_id)) (not (is_empty a.name))).1
                ((nonempty_iff a.artifact_id).1 h.identified, (nonempty_iff a.name).1 h.named),
            (names_source_iff a.source_path).1 h.sourced,
          ),
      (&&-iff (any is_lean a.proofs) (all is_covered a.invariants)).1 (
        Memᴰ→any is_lean a.proofs q m ((text_beq_iff q.language (codes "lean4")).1 e),
        Memᴰ→all is_covered a.invariants (λ j k. (is_some_iff j.proof_reference).1 (h.covered j k)),
      ),
      (&&-iff (not (is_empty a.invariants)) (is_some a.doc_url || is_some a.source_path)).1 (
        (nonempty_iff a.invariants).1 h.constrained,
        (||-iff (is_some a.doc_url) (is_some a.source_path)).1 (elim (h.documented) [
          | inl u ↦ inl ((is_some_iff a.doc_url).1 u)
          | inr u ↦ inr ((is_some_iff a.source_path).1 u)
        ]),
      ),
    )

-- The gate always returns a result, and it passes an artifact exactly where the artifact is
-- admissible: it has an identifier, a name and no empty path, a Lean proof, at least one invariant,
-- a proof for each, and a document or a source. No test is asked for.
pub process_passed :
    (g : CvmGate) (clock : ℕ → ℕ) (a : ArtifactManifest)
    → (r : CvmGateResult) × (process g clock a ≡ ok r) × ((r.passed ≡ true) ↔ IsAdmissible a)
process_passed g clock a =
    let (r, e, t, p) = process-until_failure g clock a in
    (
      r,
      e,
      (
        λ h.
            let (i, rest) =
              (&&-iff (has_identity a) (has_proofs a && (has_documents a && true))).0 (sym p ∙ h) in
            let (q, rest') = (&&-iff (has_proofs a) (has_documents a && true)).0 rest in
            passes→IsAdmissible a i q ((&&-iff (has_documents a) true).0 rest').0,
        λ h. let (i, q, d) = IsAdmissible→passes a h in rw (p, i, q, d),
      ),
    )

-- What the gate says does not bind: an artifact of T2 without an invariant fails it, and is
-- promoted all the same once it is marked as passed, which takes no result of the gate.
pub promote-mark_cvm_passed :
    (g : CvmGate) (clock : ℕ → ℕ) (marked now : ℕ) (a : ArtifactManifest)
    → a.tier ≡ t2
    → a.invariants ≡ []
    → (r : CvmGateResult) × (process g clock a ≡ ok r)
      × (r.passed ≡ false)
      × (is_ok (promote g now (mark_cvm_passed marked a)) ≡ true)
unfolding promote Manifest.as_u8 mark_cvm_passed
promote-mark_cvm_passed g clock marked now a t i =
    let (r, e, v, p) = process-until_failure g clock a in
    (r, e, rw (p, i) (ground arith), rw t refl)
