-- ===== src/Universe/Search/File.antt =====
-- The file of a universe: search_substrate.rs writes the artifacts, and reads them into new indexes.
use sovereign_event_bus.Base.{
  ◌==◌, nat_eq, ◌≡◌, refl, List, [], ◌∷◌, ◌++◌, append-nil, append_assoc, map-append, All,
  Bool-cases, eq_of_beq, inl, inr, ok, >>=-eq-ok,
}
use mathlib.Core.List.{Permᴰ}
use mathlib.Core.List.Permᴰ
use sovereign_event_bus.Base.Perms.{map-Perm, IsDistinct-Perm}
use sovereign_event_bus.Base.Text.{Text, text_eq}
use sovereign_event_bus.Base.Map
use sovereign_event_bus.Base.Map.{Map}
use sovereign_event_bus.Base.Map.Laws.{IsDistinct, insert-IsDistinct}
use sovereign_event_bus.Universe.Manifest.{ArtifactManifest, tier_eq}
use sovereign_event_bus.Universe.Repository
use sovereign_event_bus.Universe.Repository.{RepositoryManifest}
use sovereign_event_bus.Universe.Search.{
  Universe, Walk, new, add_artifact, add_artifacts, get_all, pack, Storage, load_from_file,
  save_to_file,
}
use sovereign_event_bus.Universe.Search.Indexes.{
  ids, pairs, keys-pairs, insert_fresh, IsDistinct-before,
}
use sovereign_event_bus.Universe.Search.Loading.{
  IsWalk, values-pairs, Answers, add_artifacts-Answers,
}

-- Every artifact stands under its own identifier, and no identifier twice.
abbrev pub IsKeyed : Map Text ArtifactManifest → Type 0
IsKeyed m = All (λ e. e.0 ≡ e.1.artifact_id) m × IsDistinct (Map.keys m)

insert-keyed :
    (a : ArtifactManifest) (m : Map Text ArtifactManifest)
    → All (λ e. e.0 ≡ e.1.artifact_id) m
    → All (λ e. e.0 ≡ e.1.artifact_id) (Map.insert a.artifact_id a m)
unfolding Map.insert
insert-keyed a [] h = (refl, tt)
insert-keyed a ((j, w) ∷ m) h = elim (Bool-cases (j == a.artifact_id)) [
  | inl same ↦ rw same (eq_of_beq j a.artifact_id same, h.1)
  | inr other ↦ rw other (h.0, insert-keyed a m h.1)
]

add_artifacts-IsKeyed :
    (xs : List ArtifactManifest) (u : Universe)
    → IsKeyed u.artifacts
    → IsKeyed (add_artifacts xs u).artifacts
unfolding add_artifacts add_artifact
add_artifacts-IsKeyed [] u h = h
add_artifacts-IsKeyed (a ∷ xs) u h =
    add_artifacts-IsKeyed xs (add_artifact a u)
      (insert-keyed a u.artifacts h.0, insert-IsDistinct a.artifact_id a u.artifacts h.1)

keyed-ids :
    (m : Map Text ArtifactManifest)
    → All (λ e. e.0 ≡ e.1.artifact_id) m
    → Map.keys m ≡ ids (Map.values m)
keyed-ids [] h = refl
keyed-ids ((k, a) ∷ m) h = rw (h.0, keyed-ids m h.1)

new-IsKeyed : IsKeyed new.artifacts
unfolding new
new-IsKeyed = (tt, tt)

-- The artifacts of a universe have different identifiers, however often one was added again.
pub get_all-IsDistinct :
    (walk : Walk)
    → IsWalk walk
    → (xs : List ArtifactManifest) → IsDistinct (ids (get_all walk (add_artifacts xs new)))
unfolding get_all
get_all-IsDistinct walk every xs =
    let (keyed, distinct) = add_artifacts-IsKeyed xs new new-IsKeyed in
    let m = (add_artifacts xs new).artifacts in
    IsDistinct-Perm (Permᴰ.symm (map-Perm (λ a. a.artifact_id) (every m)))
      (rw (← keyed-ids m keyed) distinct)

pack-pairs :
    (before xs : List ArtifactManifest) (m : RepositoryManifest)
    → IsDistinct (ids (before ++ xs))
    → m.artifacts ≡ pairs before
    → (pack xs m).artifacts ≡ pairs (before ++ xs)
unfolding pack Repository.add_artifact
pack-pairs before [] m d h = rw (append-nil before, h)
pack-pairs before (a ∷ xs) m d h =
    let d' = rw (map-append (λ b. b.artifact_id) before (a ∷ xs)) at d in
    let fresh = IsDistinct-before (ids before) a.artifact_id (ids xs) d' in
    rw (← append_assoc before (a ∷ []) xs) (
      pack-pairs (before ++ a ∷ []) xs (Repository.add_artifact a m)
        (rw (append_assoc before (a ∷ []) xs) d)
        (rw (
          h,
          insert_fresh a.artifact_id a (pairs before) (rw (keys-pairs before) fresh),
          map-append {B = Text × ArtifactManifest} (λ b. (b.artifact_id, b)) before (a ∷ []),
        )))

-- What is relied on of the file system and of serde_json: a file that was written is read back, and
-- the text of a repository reads as a repository with the same entries, in whatever order.
pub record IsFaithful (io : Storage) : Type 0 where
  pub reads_back :
      (path : Text) (content : io.Content) (store store' : io.Store)
      → io.write path content store ≡ ok store'
      → io.read_to_string path store' ≡ ok content
  pub parses_back :
      (m : RepositoryManifest) (content : io.Content)
      → io.to_string_pretty m ≡ ok content
      → (m' : RepositoryManifest) × (io.from_str content ≡ ok m') × Permᴰ m'.artifacts m.artifacts

-- Where a written file is read back and the text of a repository reads as a repository with the same
-- entries: a universe that was filled in any way and is saved without an error is loaded again, with
-- the same artifacts in some order, in whatever orders the hash maps are walked. The indexes of the
-- loaded universe are new, and it answers every query from the artifacts as they are.
pub load_from_file-save_to_file :
    (io : Storage) (f : IsFaithful io) (saving loading walk : Walk)
    → IsWalk saving
    → IsWalk loading
    → IsWalk walk
    → (now path : Text) (xs : List ArtifactManifest) (store store' : io.Store)
    → save_to_file io now saving (add_artifacts xs new) path store ≡ ok store'
    → (u : Universe) × (ys : List ArtifactManifest) × (load_from_file io loading path store' ≡ ok u)
      × Permᴰ ys (get_all saving (add_artifacts xs new))
      × Answers walk ys u
unfolding save_to_file load_from_file get_all Repository.new
load_from_file-save_to_file io f saving loading walk s l w now path xs store store' h =
    let all_of = get_all saving (add_artifacts xs new) in
    let distinct : IsDistinct (ids all_of) = get_all-IsDistinct saving s xs in
    let m = pack all_of (Repository.new now) in
    let (content, printed, written) =
      >>=-eq-ok (io.to_string_pretty m) (λ json. io.write path json store) h in
    let (m', parsed, same) = f.parses_back m content printed in
    let ys = loading m'.artifacts in
    let packed : m.artifacts ≡ pairs all_of =
      pack-pairs [] all_of (Repository.new now) distinct refl in
    let kept : Permᴰ ys all_of =
      Permᴰ.trans (l m'.artifacts)
        (rw (packed, values-pairs all_of) at (map-Perm (λ e. e.1) same)) in
    (
      add_artifacts ys new,
      ys,
      rw (f.reads_back path content store store' written, parsed),
      kept,
      add_artifacts-Answers walk w ys
          (IsDistinct-Perm (Permᴰ.symm (map-Perm (λ a. a.artifact_id) kept)) distinct),
    )
