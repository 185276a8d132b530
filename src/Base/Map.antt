-- ===== src/Base/Map.antt =====
-- Rust's `HashMap` and `DashMap`, as association lists: a key keeps the place of its first
-- insertion, which stands for the order in which the map is walked.
pub mod Laws
use sovereign_event_bus.Base.Tests.{Eq, ◌==◌, if◌then◌else◌}
use sovereign_event_bus.Base.Lists.{any}
use mathlib.Core.Bool.{Bool}
use mathlib.Core.List.{List, [], ◌∷◌, map}
use mathlib.Core.Option.{Option, none, some}

abbrev pub Map {ℓ κ} : Type ℓ → Type κ → Type (ℓ ⊔ κ)
Map K V = List (K × V)

module _ {ℓ κ} {K : Type ℓ} {V : Type κ} where
  -- `m.values()`.
  abbrev pub values : Map K V → List V
  values [] = []
  values ((k, v) ∷ m) = v ∷ values m

  abbrev pub keys : Map K V → List K
  keys [] = []
  keys ((k, v) ∷ m) = k ∷ keys m

module _ {ℓ κ} {K : Type ℓ} {V : Type κ} ⦃e : Eq K⦄ where
  -- `m.get(k)`.
  unfoldable pub get : K → Map K V → Option V
  get k [] = none
  get k ((j, v) ∷ m) = if j == k then some v else get k m

  -- `m.insert(k, v)`: an old value of the key is replaced.
  unfoldable pub insert : K → V → Map K V → Map K V
  insert k v [] = (k, v) ∷ []
  insert k v ((j, w) ∷ m) = if j == k then (j, v) ∷ m else (j, w) ∷ insert k v m

  -- `if let Some(entry) = m.get_mut(k)` with the writes to the entry as a function.
  unfoldable pub modify : K → (V → V) → Map K V → Map K V
  modify k f [] = []
  modify k f ((j, w) ∷ m) = if j == k then (j, f w) ∷ m else (j, w) ∷ modify k f m

  -- `f(m.entry(k).or_insert(d))`.
  unfoldable pub upsert : K → V → (V → V) → Map K V → Map K V
  upsert k d f [] = (k, f d) ∷ []
  upsert k d f ((j, w) ∷ m) = if j == k then (j, f w) ∷ m else (j, w) ∷ upsert k d f m
