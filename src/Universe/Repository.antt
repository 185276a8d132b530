-- ===== src/Universe/Repository.antt =====
-- The repository of seb/universe/src/search_substrate.rs: what the file of a universe holds.
use sovereign_event_bus.Base.{[]}
use sovereign_event_bus.Base.Text.{Text, codes, text_eq}
use sovereign_event_bus.Base.Map
use sovereign_event_bus.Base.Map.{Map}
use sovereign_event_bus.Universe.Manifest.{ArtifactManifest}

pub record RepositoryManifest : Type 0 where
  pub version : Text
  pub created_at : Text
  pub artifacts : Map Text ArtifactManifest

unfoldable pub new : Text → RepositoryManifest
new now = record { version = codes "1.0.0"; created_at = now; artifacts = [] }

unfoldable pub add_artifact : ArtifactManifest → RepositoryManifest → RepositoryManifest
add_artifact a m = record m { artifacts = Map.insert a.artifact_id a m.artifacts }
