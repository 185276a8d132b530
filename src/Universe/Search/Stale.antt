-- ===== src/Universe/Search/Stale.antt =====
-- What the indexes of search_substrate.rs say of an artifact that is added again.
use sovereign_event_bus.Base.{
  ◌==◌, ◌≡◌, ◌≢◌, ap, some, false, List, [], ◌∷◌, ◌++◌, Bool-cases, Option-cases, eq_of_beq,
  ==_refl, inl, inr,
}
use sovereign_event_bus.Base.Text.{Text, text_eq}
use sovereign_event_bus.Base.Map
use sovereign_event_bus.Base.Map.{Map}
use sovereign_event_bus.Base.Map.Laws.{get-insert}
use sovereign_event_bus.Universe.Manifest.{ArtifactManifest, tier_eq}
use sovereign_event_bus.Universe.Search.{Universe, push_id, add_artifact, fetch, query_by_tier}
use sovereign_event_bus.Universe.Search.Indexes.{listed, listed-push_id}
use sovereign_event_bus.Universe.Search.Loading.{fetch-listed}

fetch-last :
    (m : Map Text ArtifactManifest) (l : List Text) (id : Text) (a : ArtifactManifest)
    → Map.get id m ≡ some a
    → fetch m (l ++ id ∷ []) ≡ fetch m l ++ a ∷ []
unfolding fetch
fetch-last m [] id a h = rw h
fetch-last m (k ∷ l) id a h = elim (Option-cases (Map.get k m)) [
  | inl absent ↦ rw absent (fetch-last m l id a h)
  | inr (b, present) ↦ rw present (ap (◌∷◌ b) (fetch-last m l id a h))
]

-- An artifact that is added again under a new tier stays listed under its old one: a query by the
-- old tier then ends with the new artifact, whose tier it is not.
pub query_by_tier-add_artifact_again :
    (u : Universe) (old renewed : ArtifactManifest)
    → renewed.artifact_id ≡ old.artifact_id
    → renewed.tier ≢ old.tier
    → (others : List ArtifactManifest) × (query_by_tier
          (add_artifact renewed (add_artifact old u))
          old.tier
        ≡ others ++ renewed ∷ [])
unfolding query_by_tier add_artifact
query_by_tier-add_artifact_again u old renewed same moved =
    let once = push_id old.artifact_id old.tier u.tier_index in
    let apart : (renewed.tier == old.tier) ≡ false = elim (Bool-cases (renewed.tier == old.tier)) [
      | inl e ↦ elim (moved (eq_of_beq renewed.tier old.tier e)) [ ]
      | inr e ↦ e
    ] in
    let before = (add_artifact old u).artifacts in
    let found : Map.get old.artifact_id (Map.insert renewed.artifact_id renewed before)
        ≡ some renewed =
      rw (
        get-insert renewed.artifact_id old.artifact_id renewed before,
        same,
        ==_refl old.artifact_id,
      ) in
    let m = (add_artifact renewed (add_artifact old u)).artifacts in
    (
      fetch m (listed old.tier u.tier_index),
      rw
          (
            fetch-listed m old.tier (push_id renewed.artifact_id renewed.tier once),
            listed-push_id renewed.artifact_id renewed.tier old.tier once,
            listed-push_id old.artifact_id old.tier old.tier u.tier_index,
            ==_refl old.tier,
            apart,
          )
          (fetch-last m (listed old.tier u.tier_index) old.artifact_id renewed found),
    )
