-- ===== src/Universe/Search/Loading.antt =====
-- The searches of search_substrate.rs in a universe that is filled once, and the file of a universe.
use sovereign_event_bus.Base.{
  ℕ, suc, Eq, ◌==◌, nat_eq, ◌+◌, ◌≡◌, refl, ap, subst, ◌∙◌, some, Bool, List, [], ◌∷◌,
  if◌then◌else◌, All, keep, Option-cases, inl, inr, arith, length,
}
use mathlib.Core.Option
use mathlib.Core.List.{Permᴰ}
use mathlib.Core.List.Permᴰ
use sovereign_event_bus.Base.Text.{Text, codes, text_eq}
use sovereign_event_bus.Base.Json.{number}
use sovereign_event_bus.Base.Map
use sovereign_event_bus.Base.Map.{Map}
use sovereign_event_bus.Base.Map.Laws.{IsDistinct}
use sovereign_event_bus.Universe.Manifest.{
  ArtifactManifest, ArtifactTier, t0, t1, t2, t3, tier_eq, as_str,
}
use sovereign_event_bus.Universe.Search.{
  Universe, Walk, new, add_artifacts, fetch, query_by_tier, query_by_language, query_by_invariant,
  get_all, get_artifact, statistics, get_t0, get_t1, get_t2, get_t3,
}
use sovereign_event_bus.Universe.Search.Indexes.{
  ids, pairs, with_invariant, listed, Holds, new-Holds, add_artifacts-Holds, fetch-ids,
  keep-IsFound, pairs-IsFound, All-with_invariant, IsFound,
}

pub values-pairs : (xs : List ArtifactManifest) → Map.values (pairs xs) ≡ xs
values-pairs [] = refl
values-pairs (a ∷ xs) = ap (◌∷◌ a) (values-pairs xs)

length-pairs : (xs : List ArtifactManifest) → length (pairs xs) ≡ length xs
length-pairs [] = refl
length-pairs (a ∷ xs) = ap suc (length-pairs xs)

pub fetch-listed {ℓ} :
    {K : Type ℓ} ⦃e : Eq K⦄ (m : Map Text ArtifactManifest) (k : K) (index : Map K (List Text))
    → Option.get_or (Option.map (fetch m) (Map.get k index)) [] ≡ fetch m (listed k index)
unfolding fetch
fetch-listed m k index = elim (Option-cases (Map.get k index)) [
  | inl absent ↦ rw absent refl
  | inr (l, present) ↦ rw present refl
]

-- A walk of a map meets each of its values once.
abbrev pub IsWalk : Walk → Type 0
IsWalk walk = (m : Map Text ArtifactManifest) → Permᴰ (walk m) (Map.values m)

-- What the queries of a universe answer: the artifacts of a list that they ask for, in its order, and
-- all of them in some order.
pub record Answers (walk : Walk) (xs : List ArtifactManifest) (u : Universe) : Type 0 where
  pub everything : Permᴰ (get_all walk u) xs
  pub by_tier : (t : ArtifactTier) → query_by_tier u t ≡ keep (λ a. a.tier == t) xs
  pub by_language : (l : Text) → query_by_language u l ≡ keep (λ a. as_str a.language == l) xs
  pub by_invariant : (n : Text) → query_by_invariant u n ≡ with_invariant n xs
  pub by_id : All (λ a. get_artifact u a.artifact_id ≡ some a) xs

Holds→Answers :
    (walk : Walk)
    → IsWalk walk
    → (xs : List ArtifactManifest) (u : Universe) → IsDistinct (ids xs)
    → Holds xs u
    → Answers walk xs u
unfolding get_all get_artifact query_by_tier query_by_language query_by_invariant
Holds→Answers walk every xs u d h = record {
  everything =
      subst (Permᴰ (walk u.artifacts)) (ap (λ m. Map.values m) h.artifacts ∙ values-pairs xs)
        (every u.artifacts);
  by_tier = λ t.
      rw (fetch-listed u.artifacts t u.tier_index, h.tiers t, h.artifacts)
        (fetch-ids (pairs xs) _ (keep-IsFound (λ a. a.tier == t) xs d));
  by_language = λ l.
      rw (fetch-listed u.artifacts l u.language_index, h.languages l, h.artifacts)
        (fetch-ids (pairs xs) _ (keep-IsFound (λ a. as_str a.language == l) xs d));
  by_invariant = λ n.
      rw (fetch-listed u.artifacts n u.invariant_index, h.invariants n, h.artifacts)
        (fetch-ids (pairs xs) _
          (All-with_invariant (IsFound (pairs xs)) n xs (pairs-IsFound xs d)));
  by_id = rw h.artifacts (pairs-IsFound xs d);
}

-- In whatever order a hash map is walked: a universe that is filled with artifacts of different
-- identifiers lists all of them once each, finds each by its identifier, and answers a query by tier
-- or by language with those of that tier or language, in the order in which they came; a query by
-- invariant returns an artifact as often as it names the invariant.
pub add_artifacts-Answers :
    (walk : Walk)
    → IsWalk walk
    → (xs : List ArtifactManifest) → IsDistinct (ids xs)
    → Answers walk xs (add_artifacts xs new)
add_artifacts-Answers walk every xs d =
    Holds→Answers walk every xs (add_artifacts xs new) d (add_artifacts-Holds [] xs new d new-Holds)

one_if : Bool → ℕ
one_if b = if b then 1 else 0

length-keep_cons {ℓ} :
    {A : Type ℓ} (p : A → Bool) (x : A) (xs : List A)
    → length (keep p (x ∷ xs)) ≡ one_if (p x) + length (keep p xs)
unfolding one_if
length-keep_cons p x xs = ground arith

one_tier :
    (t : ArtifactTier)
    → one_if (t == t0) + one_if (t == t1) + one_if (t == t2) + one_if (t == t3) ≡ 1
unfolding one_if
one_tier t0 = refl
one_tier t1 = refl
one_tier t2 = refl
one_tier t3 = refl

tier_sum :
    (xs : List ArtifactManifest)
    → length (keep (λ a. a.tier == t0) xs)
        + length (keep (λ a. a.tier == t1) xs)
        + length (keep (λ a. a.tier == t2) xs)
        + length (keep (λ a. a.tier == t3) xs)
      ≡ length xs
tier_sum [] = refl
tier_sum (a ∷ xs) = omega (
  arith,
  length-keep_cons (λ b. b.tier == t0) a xs,
  length-keep_cons (λ b. b.tier == t1) a xs,
  length-keep_cons (λ b. b.tier == t2) a xs,
  length-keep_cons (λ b. b.tier == t3) a xs,
  one_tier a.tier,
  tier_sum xs,
)

-- The four counts of the tiers add up to the number of the artifacts, as `statistics` reports them,
-- where the artifacts came with different identifiers.
pub statistics-tiers :
    (xs : List ArtifactManifest)
    → IsDistinct (ids xs)
    → (n n0 n1 n2 n3 : ℕ) × (Map.get (codes "total_artifacts") (statistics (add_artifacts xs new))
        ≡ some (number n))
      × (Map.get (codes "t0_count") (statistics (add_artifacts xs new)) ≡ some (number n0))
      × (Map.get (codes "t1_count") (statistics (add_artifacts xs new)) ≡ some (number n1))
      × (Map.get (codes "t2_count") (statistics (add_artifacts xs new)) ≡ some (number n2))
      × (Map.get (codes "t3_count") (statistics (add_artifacts xs new)) ≡ some (number n3))
      × (n ≡ length xs)
      × (n0 + n1 + n2 + n3 ≡ n)
unfolding statistics get_t0 get_t1 get_t2 get_t3 Map.get Map.insert
statistics-tiers xs d =
    let h = add_artifacts-Holds [] xs new d new-Holds in
    let r = add_artifacts-Answers (λ m. Map.values m) (λ m. Permᴰ.refl _) xs d in
    let total = ap (λ m. length {A = Text × ArtifactManifest} m) h.artifacts ∙ length-pairs xs in
    (
      _,
      _,
      _,
      _,
      _,
      refl,
      refl,
      refl,
      refl,
      refl,
      total,
      rw (r.by_tier t0, r.by_tier t1, r.by_tier t2, r.by_tier t3, total) (tier_sum xs),
    )
