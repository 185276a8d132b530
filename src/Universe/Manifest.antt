-- ===== src/Universe/Manifest.antt =====
-- seb/universe/src/manifest.rs: artifacts, their tiers, languages, invariants, proofs and tests.
-- blake3 and the printing of instants are parameters.
pub mod Laws
use sovereign_event_bus.Base.{
  ℕ, zero, suc, nat_eq, Option, none, some, Bool, true, false, List, [], ◌∷◌, ◌++◌, map, Eq, ◌==◌,
  ◌≡◌, ◌↔◌, if◌then◌else◌, all, keep, length, arith,
}
use mathlib.Core.Option
use sovereign_event_bus.Base.Text.{Text, codes, text_eq}
use sovereign_event_bus.Base.Map.{Map}
use sovereign_event_bus.Base.Json.{
  Json, boolean, number, text, array, object, Fields, field, end, items, optional,
}

pub data ArtifactTier : Type 0 where
  t0 t1 t2 t3 : ArtifactTier

unfoldable pub as_u8 : ArtifactTier → ℕ
as_u8 t0 = 0
as_u8 t1 = 1
as_u8 t2 = 2
as_u8 t3 = 3

unfoldable pub from_u8 : ℕ → Option ArtifactTier
from_u8 val =
    if val == 0
    then some t0
    else if val == 1
    then some t1
    else if val == 2
    then some t2
    else if val == 3
    then some t3
    else none

unfoldable pub tier_str : ArtifactTier → Text
tier_str t0 = codes "T0"
tier_str t1 = codes "T1"
tier_str t2 = codes "T2"
tier_str t3 = codes "T3"

-- `#[derive(PartialEq)]` of the tiers.
abbrev pub tier_beq : ArtifactTier → ArtifactTier → Bool
tier_beq t0 t0 = true
tier_beq t1 t1 = true
tier_beq t2 t2 = true
tier_beq t3 t3 = true
tier_beq _ _ = false

pub tier_beq_iff : (a b : ArtifactTier) → (tier_beq a b ≡ true) ↔ (a ≡ b)
tier_beq_iff t0 t0 = ground arith
tier_beq_iff _ _ = ground arith

instance abbrev pub tier_eq : Eq ArtifactTier
tier_eq = record { equals = tier_beq; equals_iff = tier_beq_iff }

pub data Language : Type 0 where
  rust lean4 ada pl1 prolog haskell : Language
  other : Text → Language

unfoldable pub as_str : Language → Text
as_str rust = codes "rust"
as_str lean4 = codes "lean4"
as_str ada = codes "ada"
as_str pl1 = codes "pl1"
as_str prolog = codes "prolog"
as_str haskell = codes "haskell"
as_str (other s) = s

unfoldable pub from_str : Text → Language
from_str s =
    if s == codes "rust"
    then rust
    else if s == codes "lean4"
    then lean4
    else if s == codes "ada"
    then ada
    else if s == codes "pl1"
    then pl1
    else if s == codes "prolog"
    then prolog
    else if s == codes "haskell"
    then haskell
    else other s

pub record Invariant : Type 0 where
  pub name : Text
  pub description : Text
  pub proof_reference : Option Text

unfoldable pub new_invariant : Text → Text → Invariant
new_invariant name description = record {
  name = name;
  description = description;
  proof_reference = none;
}

unfoldable pub with_proof : Text → Invariant → Invariant
with_proof proof_reference i = record i { proof_reference = some proof_reference }

pub record ProofMetadata : Type 0 where
  pub id : Text
  pub language : Text
  pub hash : Text
  pub created_at : ℕ

pub record TestMetadata : Type 0 where
  pub id : Text
  pub framework : Text
  pub pass_count : ℕ
  pub last_run : ℕ

pub record ArtifactManifest : Type 0 where
  pub artifact_id : Text
  pub name : Text
  pub version : Text
  pub language : Language
  pub tier : ArtifactTier
  pub invariants : List Invariant
  pub proofs : List ProofMetadata
  pub tests : List TestMetadata
  pub source_path : Option Text
  pub doc_url : Option Text
  pub content_hash : Text
  pub cvm_gate_passed : Bool
  pub created_at : ℕ
  pub updated_at : ℕ
  pub metadata : Map Text Json

-- The two readings of the clock are arguments. An unknown tier is read as T2.
unfoldable pub new : (created_at updated_at : ℕ) → Text → Text → Text → Text → ℕ → ArtifactManifest
new created_at updated_at artifact_id name version language tier = record {
  artifact_id = artifact_id;
  name = name;
  version = version;
  language = from_str language;
  tier = Option.get_or (from_u8 tier) t2;
  invariants = [];
  proofs = [];
  tests = [];
  source_path = none;
  doc_url = none;
  content_hash = [];
  cvm_gate_passed = false;
  created_at = created_at;
  updated_at = updated_at;
  metadata = [];
}

unfoldable pub add_invariant : Invariant → ArtifactManifest → ArtifactManifest
add_invariant i a = record a { invariants = a.invariants ++ i ∷ [] }

unfoldable pub add_proof : ProofMetadata → ArtifactManifest → ArtifactManifest
add_proof p a = record a { proofs = a.proofs ++ p ∷ [] }

unfoldable pub add_test : TestMetadata → ArtifactManifest → ArtifactManifest
add_test t a = record a { tests = a.tests ++ t ∷ [] }

unfoldable pub with_source_path : Text → ArtifactManifest → ArtifactManifest
with_source_path path a = record a { source_path = some path }

unfoldable pub with_doc_url : Text → ArtifactManifest → ArtifactManifest
with_doc_url url a = record a { doc_url = some url }

unfoldable pub compute_hash : (List ℕ → Text) → ℕ → List ℕ → ArtifactManifest → ArtifactManifest
compute_hash blake3_hex now content a = record a {
  content_hash = blake3_hex content;
  updated_at = now;
}

abbrev pub is_some {ℓ} : {A : Type ℓ} → Option A → Bool
is_some none = false
is_some (some a) = true

unfoldable pub verify_invariants_covered : ArtifactManifest → Bool
verify_invariants_covered a = all (λ i. is_some i.proof_reference) a.invariants

unfoldable pub get_lean_proofs : ArtifactManifest → List Text
get_lean_proofs a = map (λ p. p.id) (keep (λ p. p.language == codes "lean4") a.proofs)

unfoldable pub mark_cvm_passed : ℕ → ArtifactManifest → ArtifactManifest
mark_cvm_passed now a = record a { cvm_gate_passed = true; updated_at = now }

unfoldable pub invariant_json : Invariant → Json
invariant_json i = object (
    field (codes "name") (text i.name) (
      field (codes "description") (text i.description)
        (field (codes "proof") (optional text i.proof_reference) end)))

unfoldable pub to_json_ld : (ℕ → Text) → ArtifactManifest → Json
to_json_ld to_rfc3339 a = object (
    field (codes "@context") (text (codes "https://www.w3.org/ns/activitystreams")) (
      field (codes "@id") (text (codes "artifact:" ++ a.artifact_id)) (
        field (codes "@type") (text (codes "Artifact")) (
          field (codes "name") (text a.name) (
            field (codes "version") (text a.version) (
              field (codes "tier") (text (tier_str a.tier)) (
                field (codes "language") (text (as_str a.language)) (
                  field (codes "invariants") (array (items (map invariant_json a.invariants))) (
                    field (codes "proofs") (number (length a.proofs)) (
                      field (codes "tests") (number (length a.tests)) (
                        field (codes "hash") (text a.content_hash) (
                          field (codes "cvm_gate_passed") (boolean a.cvm_gate_passed) (
                            field (codes "created") (text (to_rfc3339 a.created_at)) (
                              field (codes "updated") (text (to_rfc3339 a.updated_at))
                                end))))))))))))))
