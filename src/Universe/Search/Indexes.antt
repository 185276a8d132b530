-- ===== src/Universe/Search/Indexes.antt =====
-- The indexes of the universe of search_substrate.rs, as the artifacts that they stand for.
use sovereign_event_bus.Base.{
  Eq, ◌==◌, nat_eq, ◌≡◌, refl, ap, sym, some, Bool, false, List, [], ◌∷◌, ◌++◌, map, append-nil,
  append_assoc, map-append, if◌then◌else◌, any, All, keep, keep-append, ◌||◌, Bool-cases, inl, inr,
  arith,
}
use mathlib.Core.Option
use sovereign_event_bus.Base.Text.{Text, text_eq, text_beq_iff}
use sovereign_event_bus.Base.Map
use sovereign_event_bus.Base.Map.{Map}
use sovereign_event_bus.Base.Map.Laws.{IsDistinct, get-upsert}
use sovereign_event_bus.Universe.Manifest.{
  ArtifactManifest, ArtifactTier, tier_eq, as_str, Invariant,
}
use sovereign_event_bus.Universe.Search.{
  Universe, new, push_id, index_invariants, add_artifact, add_artifacts, fetch,
}

abbrev pub ids : List ArtifactManifest → List Text
ids xs = map (λ a. a.artifact_id) xs

abbrev pub pairs : List ArtifactManifest → Map Text ArtifactManifest
pairs xs = map (λ a. (a.artifact_id, a)) xs

-- An artifact once for each of its invariants of a name.
abbrev pub with_invariant : Text → List ArtifactManifest → List ArtifactManifest
with_invariant n [] = []
with_invariant n (a ∷ xs) =
    map (λ i. a) (keep (λ i. i.name == n) a.invariants) ++ with_invariant n xs

abbrev pub listed {ℓ} : {K : Type ℓ} ⦃e : Eq K⦄ → K → Map K (List Text) → List Text
listed k index = Option.get_or (Map.get k index) []

-- The universe that these artifacts make, in this order.
pub record Holds (xs : List ArtifactManifest) (u : Universe) : Type 0 where
  pub artifacts : u.artifacts ≡ pairs xs
  pub tiers : (t : ArtifactTier) → listed t u.tier_index ≡ ids (keep (λ a. a.tier == t) xs)
  pub languages :
      (l : Text) → listed l u.language_index ≡ ids (keep (λ a. as_str a.language == l) xs)
  pub invariants : (n : Text) → listed n u.invariant_index ≡ ids (with_invariant n xs)

pub listed-push_id {ℓ} :
    {K : Type ℓ} ⦃e : Eq K⦄ (id : Text) (k j : K) (index : Map K (List Text))
    → listed j (push_id id k index) ≡ (if k == j then listed j index ++ id ∷ [] else listed j index)
unfolding push_id
listed-push_id id k j index =
    rw (get-upsert k j [] (λ l. l ++ id ∷ []) index)
      (elim (Bool-cases (k == j)) [ inl same ↦ rw same refl | inr other ↦ rw other refl ])

pub listed-index_invariants :
    (id n : Text) (is : List Invariant) (index : Map Text (List Text))
    → listed n (index_invariants id is index)
      ≡ listed n index ++ map (λ i. id) (keep (λ i. i.name == n) is)
unfolding index_invariants
listed-index_invariants id n [] index = sym (append-nil (listed n index))
listed-index_invariants id n (i ∷ rest) index =
    rw
      (
        listed-index_invariants id n rest (push_id id i.name index),
        listed-push_id id i.name n index,
      )
      (elim (Bool-cases (i.name == n)) [
        | inl same ↦
            rw
              (
                same,
                append_assoc (listed n index) (id ∷ [])
                    (map (λ i. id) (keep (λ i. i.name == n) rest)),
              )
              refl
        | inr other ↦ rw other refl
      ])

with_invariant-append :
    (n : Text) (xs ys : List ArtifactManifest)
    → with_invariant n (xs ++ ys) ≡ with_invariant n xs ++ with_invariant n ys
with_invariant-append n [] ys = refl
with_invariant-append n (a ∷ xs) ys = rw (
  with_invariant-append n xs ys,
  append_assoc (map (λ i. a) (keep (λ i. i.name == n) a.invariants)) (with_invariant n xs)
      (with_invariant n ys),
)

map-map_const {ℓ κ} :
    {A : Type ℓ} {B C : Type κ} (f : B → C) (b : B) (xs : List A)
    → map f (map (λ x. b) xs) ≡ map (λ x. f b) xs
map-map_const f b [] = refl
map-map_const f b (x ∷ xs) = ap (◌∷◌ (f b)) (map-map_const f b xs)

pub keys-pairs : (xs : List ArtifactManifest) → Map.keys (pairs xs) ≡ ids xs
keys-pairs [] = refl
keys-pairs (a ∷ xs) = ap (◌∷◌ a.artifact_id) (keys-pairs xs)

pub insert_fresh :
    (k : Text) (v : ArtifactManifest) (m : Map Text ArtifactManifest)
    → any (λ j. j == k) (Map.keys m) ≡ false
    → Map.insert k v m ≡ m ++ (k, v) ∷ []
unfolding Map.insert
insert_fresh k v [] h = refl
insert_fresh k v ((j, w) ∷ m) h = ground (arith, insert_fresh k v m)

ids-keep_last :
    (p : ArtifactManifest → Bool) (xs : List ArtifactManifest) (a : ArtifactManifest)
    → ids (keep p (xs ++ a ∷ []))
      ≡ (if p a then ids (keep p xs) ++ a.artifact_id ∷ [] else ids (keep p xs))
ids-keep_last p xs a =
    rw (keep-append p xs (a ∷ []), map-append (λ b. b.artifact_id) (keep p xs) (keep p (a ∷ [])))
      (elim (Bool-cases (p a)) [
        | inl here ↦ rw here refl
        | inr absent ↦ rw (absent, append-nil (ids (keep p xs))) refl
      ])

pub add_artifact-Holds :
    (xs : List ArtifactManifest) (a : ArtifactManifest) (u : Universe)
    → any (λ j. j == a.artifact_id) (ids xs) ≡ false
    → Holds xs u
    → Holds (xs ++ a ∷ []) (add_artifact a u)
unfolding add_artifact
add_artifact-Holds xs a u fresh h = record {
  artifacts = rw (
    h.artifacts,
    insert_fresh a.artifact_id a (pairs xs) (rw (keys-pairs xs) fresh),
    map-append {B = Text × ArtifactManifest} (λ b. (b.artifact_id, b)) xs (a ∷ []),
  );
  tiers = λ t. rw (
    listed-push_id a.artifact_id a.tier t u.tier_index,
    h.tiers t,
    ids-keep_last (λ b. b.tier == t) xs a,
  );
  languages = λ l. rw (
    listed-push_id a.artifact_id (as_str a.language) l u.language_index,
    h.languages l,
    ids-keep_last (λ b. as_str b.language == l) xs a,
  );
  invariants = λ n.
      let here = keep (λ i. i.name == n) a.invariants in
      rw (
        listed-index_invariants a.artifact_id n a.invariants u.invariant_index,
        h.invariants n,
        with_invariant-append n xs (a ∷ []),
        map-append (λ b. b.artifact_id) (with_invariant n xs) (map (λ i. a) here ++ []),
        append-nil (map (λ i. a) here),
        map-map_const (λ b. b.artifact_id) a here,
      );
}

any-append {ℓ} :
    {A : Type ℓ} (p : A → Bool) (xs ys : List A) → any p (xs ++ ys) ≡ any p xs || any p ys
any-append p [] ys = refl
any-append p (x ∷ xs) ys = ground (arith, any-append p xs ys)

-- In a list without repetition no key stands before itself.
pub IsDistinct-before :
    (xs : List Text) (k : Text) (ys : List Text)
    → IsDistinct (xs ++ k ∷ ys)
    → any (λ j. j == k) xs ≡ false
IsDistinct-before [] k ys h = refl
IsDistinct-before (x ∷ xs) k ys h =
    let apart = rw (any-append (λ j. j == x) xs (k ∷ ys)) at h.0 in
    ground (arith, IsDistinct-before xs k ys h.1, text_beq_iff x k, text_beq_iff k x)

pub add_artifacts-Holds :
    (before xs : List ArtifactManifest) (u : Universe)
    → IsDistinct (ids (before ++ xs))
    → Holds before u
    → Holds (before ++ xs) (add_artifacts xs u)
unfolding add_artifacts
add_artifacts-Holds before [] u d h = rw (append-nil before) h
add_artifacts-Holds before (a ∷ xs) u d h =
    let d' = rw (map-append (λ b. b.artifact_id) before (a ∷ xs)) at d in
    let fresh = IsDistinct-before (ids before) a.artifact_id (ids xs) d' in
    rw (← append_assoc before (a ∷ []) xs) (
      add_artifacts-Holds (before ++ a ∷ []) xs (add_artifact a u)
        (rw (append_assoc before (a ∷ []) xs) d) (add_artifact-Holds before a u fresh h))

pub new-Holds : Holds [] new
unfolding new Map.get
new-Holds = record {
  artifacts = refl;
  tiers = λ t. refl;
  languages = λ l. refl;
  invariants = λ n. refl;
}

-- Whatever holds of all artifacts holds of all that are found.
All-keep {ℓ κ} :
    {A : Type ℓ} (P : A → Type κ) (p : A → Bool) (xs : List A) → All P xs → All P (keep p xs)
All-keep P p [] h = tt
All-keep P p (x ∷ xs) h = elim (Bool-cases (p x)) [
  | inl here ↦ rw here (h.0, All-keep P p xs h.1)
  | inr absent ↦ rw absent (All-keep P p xs h.1)
]

All-append {ℓ κ} :
    {A : Type ℓ} (P : A → Type κ) (xs ys : List A) → All P xs → All P ys → All P (xs ++ ys)
All-append P [] ys h k = k
All-append P (x ∷ xs) ys h k = (h.0, All-append P xs ys h.1 k)

All-map_const {ℓ κ μ} :
    {A : Type ℓ} {B : Type μ} (P : A → Type κ) (a : A) (xs : List B) → P a → All P (map (λ x. a) xs)
All-map_const P a [] h = tt
All-map_const P a (x ∷ xs) h = (h, All-map_const P a xs h)

pub All-with_invariant {κ} :
    (P : ArtifactManifest → Type κ) (n : Text) (xs : List ArtifactManifest)
    → All P xs
    → All P (with_invariant n xs)
All-with_invariant P n [] h = tt
All-with_invariant P n (a ∷ xs) h =
    let here = keep (λ i. i.name == n) a.invariants in
    All-append P (map (λ i. a) here) (with_invariant n xs) (All-map_const P a here h.0)
      (All-with_invariant P n xs h.1)

abbrev pub IsFound : Map Text ArtifactManifest → ArtifactManifest → Type 0
IsFound m x = Map.get x.artifact_id m ≡ some x

IsFound-later :
    (a : ArtifactManifest) (m : Map Text ArtifactManifest) (xs : List ArtifactManifest)
    → any (λ j. j == a.artifact_id) (ids xs) ≡ false
    → All (IsFound m) xs
    → All (IsFound ((a.artifact_id, a) ∷ m)) xs
unfolding Map.get
IsFound-later a m [] fresh h = tt
IsFound-later a m (x ∷ xs) fresh h = elim (Bool-cases (x.artifact_id == a.artifact_id)) [
  | inl same ↦ let e = rw same at fresh in cc
  | inr other ↦
      let later = rw other at fresh in
      (
        ground (
          arith,
          h.0,
          text_beq_iff a.artifact_id x.artifact_id,
          text_beq_iff x.artifact_id a.artifact_id,
        ),
        IsFound-later a m xs later h.1,
      )
]

pub pairs-IsFound : (xs : List ArtifactManifest) → IsDistinct (ids xs) → All (IsFound (pairs xs)) xs
unfolding Map.get
pairs-IsFound [] d = tt
pairs-IsFound (a ∷ xs) d = (
  ground (arith, text_beq_iff a.artifact_id a.artifact_id),
  IsFound-later a (pairs xs) xs d.0 (pairs-IsFound xs d.1),
)

pub fetch-ids :
    (m : Map Text ArtifactManifest) (ys : List ArtifactManifest)
    → All (IsFound m) ys
    → fetch m (ids ys) ≡ ys
unfolding fetch
fetch-ids m [] h = refl
fetch-ids m (y ∷ ys) h = rw (h.0, fetch-ids m ys h.1)

pub keep-IsFound :
    (p : ArtifactManifest → Bool) (xs : List ArtifactManifest)
    → IsDistinct (ids xs)
    → All (IsFound (pairs xs)) (keep p xs)
keep-IsFound p xs d = All-keep (IsFound (pairs xs)) p xs (pairs-IsFound xs d)
