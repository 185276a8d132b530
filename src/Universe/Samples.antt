-- ===== src/Universe/Samples.antt =====
-- Artifacts for the runs of seb/universe/src.
use sovereign_event_bus.Base.{none, some, true, false, [], ◌∷◌}
use sovereign_event_bus.Base.Text.{codes}
use sovereign_event_bus.Universe.Manifest.{
  ArtifactManifest, t1, t2, rust, lean4, Invariant, ProofMetadata,
}

abbrev pub collision_resistant : Invariant
collision_resistant = record {
  name = codes "collision_resistant";
  description = codes "no two inputs";
  proof_reference = some (codes "p1");
}

abbrev pub hash_proof : ProofMetadata
hash_proof = record {
  id = codes "p1";
  language = codes "lean4";
  hash = codes "abc";
  created_at = 3;
}

abbrev pub blake3 : ArtifactManifest
blake3 = record {
  artifact_id = codes "blake3";
  name = codes "Blake3 Hash";
  version = codes "1.5.0";
  language = rust;
  tier = t2;
  invariants = collision_resistant ∷ [];
  proofs = hash_proof ∷ [];
  tests = [];
  source_path = some (codes "/src/blake3.rs");
  doc_url = none;
  content_hash = [];
  cvm_gate_passed = true;
  created_at = 1;
  updated_at = 2;
  metadata = [];
}

abbrev pub append_log : ArtifactManifest
append_log = record blake3 {
  artifact_id = codes "append_log";
  name = codes "Append Only Log";
  tier = t1;
  language = lean4;
  invariants = [];
  cvm_gate_passed = false;
}
