-- ===== src/Universe/Search/Tests.antt =====
-- Runs and witnesses for search_substrate.rs.
use sovereign_event_bus.Base.{◌≡◌, refl, List, [], ◌∷◌, ok}
use mathlib.Core.List
use mathlib.Core.List.{Permᴰ}
use mathlib.Core.List.Permᴰ
use sovereign_event_bus.Base.Text.{codes, text_eq, contains}
use sovereign_event_bus.Base.Map
use sovereign_event_bus.Universe.Manifest.{ArtifactManifest, t1}
use sovereign_event_bus.Universe.Repository
use sovereign_event_bus.Universe.Repository.{RepositoryManifest}
use sovereign_event_bus.Universe.Samples.{blake3, append_log}
use sovereign_event_bus.Universe.Search.{
  Universe, Walk, new, add_artifact, add_artifacts, search_by_name, pack, Storage, load_from_file,
  save_to_file, get_all,
}
use sovereign_event_bus.Universe.Search.Loading.{IsWalk, Answers, add_artifacts-Answers}
use sovereign_event_bus.Universe.Search.File.{IsFaithful, load_from_file-save_to_file}

abbrev both : List ArtifactManifest
both = blake3 ∷ append_log ∷ []

search_by_name_finds :
    search_by_name (λ t. t) (λ m. Map.values m) (add_artifacts both new) (codes "lake")
    ≡ blake3 ∷ []
unfolding search_by_name add_artifacts add_artifact new Map.insert contains
search_by_name_finds = refl

-- A walk from the back.
abbrev backwards : Walk
backwards m = List.reverse (Map.values m)

backwards-IsWalk : IsWalk backwards
backwards-IsWalk m = Permᴰ.reverse (Map.values m)

add_artifacts-Answers_example : Answers backwards both (add_artifacts both new)
add_artifacts-Answers_example =
    add_artifacts-Answers backwards backwards-IsWalk both (refl, (refl, tt))

-- A disk of one file, and a text of a repository that is the repository.
abbrev one_file : Storage
one_file = record {
  Store = RepositoryManifest;
  Failure = Unit {0};
  Content = RepositoryManifest;
  read_to_string = λ path store. ok store;
  write = λ path content store. ok content;
  to_string_pretty = λ m. ok m;
  from_str = λ m. ok m;
}

one_file-IsFaithful : IsFaithful one_file
one_file-IsFaithful = record {
  reads_back = λ path content store store' written. cc;
  parses_back = λ m content printed. (m, cc, Permᴰ.refl _);
}

-- The first artifact is added again under another tier.
abbrev moved : List ArtifactManifest
moved = blake3 ∷ append_log ∷ record blake3 { tier = t1 } ∷ []

abbrev empty_file : RepositoryManifest
empty_file = record { version = []; created_at = []; artifacts = [] }

abbrev saved : RepositoryManifest
saved = pack (get_all backwards (add_artifacts moved new)) (Repository.new (codes "now"))

abbrev forwards : Walk
forwards m = Map.values m

load_from_file-save_to_file_example :
    (u : Universe) × (ys : List ArtifactManifest) × (load_from_file one_file forwards
        (codes "universe.json")
        saved
      ≡ ok u)
    × Permᴰ ys (get_all backwards (add_artifacts moved new))
    × Answers backwards ys u
unfolding save_to_file get_all
load_from_file-save_to_file_example =
    load_from_file-save_to_file one_file one_file-IsFaithful backwards forwards backwards
      backwards-IsWalk (λ m. Permᴰ.refl _) backwards-IsWalk (codes "now") (codes "universe.json")
      moved empty_file saved refl
