-- ===== src/Universe/Search.antt =====
-- seb/universe/src/search_substrate.rs: the universe, which indexes artifacts by tier, language and
-- invariant, its file and its statistics. The file system and serde_json are parameters.
pub mod Indexes
pub mod Loading
pub mod File
pub mod Stale
pub mod Tests
use sovereign_event_bus.Base.{
  ℕ, nat_eq, Eq, ◌==◌, Option, none, some, Bool, true, false, List, [], ◌∷◌, ◌++◌, map, Result, ok,
  err, ◌>>=◌, if◌then◌else◌, length, keep,
}
use mathlib.Core.Option
use sovereign_event_bus.Base.Text.{Text, codes, text_eq, contains}
use sovereign_event_bus.Base.Map
use sovereign_event_bus.Base.Map.{Map}
use sovereign_event_bus.Base.Json.{Json, number}
use sovereign_event_bus.Universe.Repository
use sovereign_event_bus.Universe.Repository.{RepositoryManifest}
use sovereign_event_bus.Universe.Manifest.{
  ArtifactManifest, ArtifactTier, t0, t1, t2, t3, tier_eq, Language, as_str, Invariant,
}

pub record Universe : Type 0 where
  pub artifacts : Map Text ArtifactManifest
  pub invariant_index : Map Text (List Text)
  pub tier_index : Map ArtifactTier (List Text)
  pub language_index : Map Text (List Text)

unfoldable pub new : Universe
new = record { artifacts = []; invariant_index = []; tier_index = []; language_index = [] }

-- `index.entry(key).or_insert_with(Vec::new).push(id)`.
unfoldable pub push_id {ℓ} :
    {K : Type ℓ} ⦃e : Eq K⦄ → Text → K → Map K (List Text) → Map K (List Text)
push_id id key index = Map.upsert key [] (λ ids. ids ++ id ∷ []) index

unfoldable pub index_invariants :
    Text → List Invariant → Map Text (List Text) → Map Text (List Text)
index_invariants id [] index = index
index_invariants id (i ∷ rest) index = index_invariants id rest (push_id id i.name index)

unfoldable pub add_artifact : ArtifactManifest → Universe → Universe
add_artifact a u = record {
  artifacts = Map.insert a.artifact_id a u.artifacts;
  tier_index = push_id a.artifact_id a.tier u.tier_index;
  language_index = push_id a.artifact_id (as_str a.language) u.language_index;
  invariant_index = index_invariants a.artifact_id a.invariants u.invariant_index;
}

-- `ids.iter().filter_map(|id| artifacts.get(id).cloned()).collect()`.
abbrev pub push_found {ℓ} : {A : Type ℓ} → Option A → List A → List A
push_found none rest = rest
push_found (some a) rest = a ∷ rest

unfoldable pub fetch : Map Text ArtifactManifest → List Text → List ArtifactManifest
fetch m [] = []
fetch m (id ∷ ids) = push_found (Map.get id m) (fetch m ids)

unfoldable pub query_by_invariant : Universe → Text → List ArtifactManifest
query_by_invariant u invariant =
    Option.get_or (Option.map (fetch u.artifacts) (Map.get invariant u.invariant_index)) []

unfoldable pub query_by_tier : Universe → ArtifactTier → List ArtifactManifest
query_by_tier u tier = Option.get_or (Option.map (fetch u.artifacts) (Map.get tier u.tier_index)) []

unfoldable pub query_by_language : Universe → Text → List ArtifactManifest
query_by_language u language =
    Option.get_or (Option.map (fetch u.artifacts) (Map.get language u.language_index)) []

unfoldable pub get_artifact : Universe → Text → Option ArtifactManifest
get_artifact u id = Map.get id u.artifacts

-- `values()` of a `HashMap`, whose order is left open: each walk is an argument of the function that
-- makes it.
abbrev pub Walk : Type 0
Walk = Map Text ArtifactManifest → List ArtifactManifest

unfoldable pub get_all : Walk → Universe → List ArtifactManifest
get_all walk u = walk u.artifacts

unfoldable pub get_t0 : Universe → List ArtifactManifest
get_t0 u = query_by_tier u t0

unfoldable pub get_t1 : Universe → List ArtifactManifest
get_t1 u = query_by_tier u t1

unfoldable pub get_t2 : Universe → List ArtifactManifest
get_t2 u = query_by_tier u t2

unfoldable pub get_t3 : Universe → List ArtifactManifest
get_t3 u = query_by_tier u t3

-- `to_lowercase` follows the tables of Unicode, which are no part of the program.
unfoldable pub search_by_name :
    (to_lowercase : Text → Text) → Walk → Universe → Text → List ArtifactManifest
search_by_name to_lowercase walk u query =
    keep (λ a. contains (to_lowercase a.name) (to_lowercase query)) (walk u.artifacts)

unfoldable pub add_artifacts : List ArtifactManifest → Universe → Universe
add_artifacts [] u = u
add_artifacts (a ∷ xs) u = add_artifacts xs (add_artifact a u)

unfoldable pub pack : List ArtifactManifest → RepositoryManifest → RepositoryManifest
pack [] m = m
pack (a ∷ xs) m = pack xs (Repository.add_artifact a m)

-- The store, the two calls on it and the two of serde_json that the universe relies on. The text of
-- a file goes from the one to the other and is not looked at.
pub record Storage : Type 1 where
  pub Store : Type 0
  pub Failure : Type 0
  pub Content : Type 0
  pub read_to_string : Text → Store → Result Failure Content
  pub write : Text → Content → Store → Result Failure Store
  pub to_string_pretty : RepositoryManifest → Result Failure Content
  pub from_str : Content → Result Failure RepositoryManifest

unfoldable pub load_from_file : (io : Storage) → Walk → Text → io.Store → Result io.Failure Universe
load_from_file io walk path store = io.read_to_string path store >>= (λ content.
    io.from_str content >>= (λ manifest. ok (add_artifacts (walk manifest.artifacts) new)))

unfoldable pub save_to_file :
    (io : Storage) (now : Text) → Walk → Universe → Text → io.Store → Result io.Failure io.Store
save_to_file io now walk u path store =
    io.to_string_pretty (pack (walk u.artifacts) (Repository.new now))
    >>= (λ json. io.write path json store)

-- The values are all numbers. How many artifacts passed does not depend on the order of the walk.
unfoldable pub statistics : Universe → Map Text Json
statistics u = Map.insert (codes "languages") (number (length u.language_index)) (
    Map.insert (codes "invariants") (number (length u.invariant_index)) (
      Map.insert (codes "cvm_gate_passed")
        (number (length (keep (λ a. a.cvm_gate_passed) (Map.values u.artifacts))))
        (Map.insert (codes "t3_count") (number (length (get_t3 u))) (
          Map.insert (codes "t2_count") (number (length (get_t2 u))) (
            Map.insert (codes "t1_count") (number (length (get_t1 u))) (
              Map.insert (codes "t0_count") (number (length (get_t0 u)))
                (Map.insert (codes "total_artifacts") (number (length u.artifacts)) [])))))))
