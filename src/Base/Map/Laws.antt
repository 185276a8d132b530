-- ===== src/Base/Map/Laws.antt =====
-- What a map returns after a write, and how a write changes its size and its keys.
use Prim.Native.Nat.{suc, ◌+◌, ◌≤◌}
use mathlib.Core.Path.{◌≡◌, refl}
use mathlib.Core.Bool.{false}
use mathlib.Core.List.{List, [], ◌∷◌}
use mathlib.Core.Option.{Option, none, some}
use mathlib.Core.Option
use mathlib.Core.Logic.{◌⊎◌, inl, inr}
use native.Mathlib.Omega.{arith}
use sovereign_event_bus.Base.Tests.{
  Eq, ◌==◌, ==_refl, eq_of_beq, Option-cases, if◌then◌else◌, Bool-cases,
}
use sovereign_event_bus.Base.Lists.{length, any}
use sovereign_event_bus.Base.Map.{Map, keys, get, insert, modify, upsert}

-- No key stands twice, so that `length` counts the keys.
abbrev pub IsDistinct {ℓ} : {K : Type ℓ} ⦃e : Eq K⦄ → List K → Type 0
IsDistinct [] = Unit {0}
IsDistinct (k ∷ ks) = (any (λ j. j == k) ks ≡ false) × IsDistinct ks

module _ {ℓ κ} {K : Type ℓ} {V : Type κ} ⦃e : Eq K⦄ where
  pub get-insert :
      (k j : K) (v : V) (m : Map K V) → get j (insert k v m) ≡ (if k == j then some v else get j m)
  unfolding get insert
  get-insert k j v [] = refl
  get-insert k j v ((i, w) ∷ m) =
      ground (arith, e.equals_iff i k, e.equals_iff i j, e.equals_iff k j, get-insert k j v m)

  pub get-modify :
      (k j : K) (f : V → V) (m : Map K V)
      → get j (modify k f m) ≡ (if k == j then Option.map f (get j m) else get j m)
  unfolding get modify
  get-modify k j f [] = ground arith
  get-modify k j f ((i, w) ∷ m) =
      ground (arith, e.equals_iff i k, e.equals_iff i j, e.equals_iff k j, get-modify k j f m)

  pub get-modify_self :
      (k : K) (f : V → V) (m : Map K V) {v : V}
      → get k m ≡ some v
      → get k (modify k f m) ≡ some (f v)
  get-modify_self k f m h = rw (get-modify k k f m, ==_refl k, h)

  pub length-modify : (k : K) (f : V → V) (m : Map K V) → length (modify k f m) ≡ length m
  unfolding modify
  length-modify k f [] = refl
  length-modify k f ((i, w) ∷ m) = ground (arith, length-modify k f m)

  pub keys-modify : (k : K) (f : V → V) (m : Map K V) → keys (modify k f m) ≡ keys m
  unfolding modify
  keys-modify k f [] = refl
  keys-modify k f ((i, w) ∷ m) = ground (arith, keys-modify k f m)

  pub modify_missing : (k : K) (f : V → V) (m : Map K V) → get k m ≡ none → modify k f m ≡ m
  unfolding get modify
  modify_missing k f [] h = refl
  modify_missing k f ((i, w) ∷ m) h = ground (arith, modify_missing k f m)

  -- A key that the map has is not counted again.
  pub length-insert :
      (k : K) (v : V) (m : Map K V)
      → length (insert k v m) ≡ (if any (λ j. j == k) (keys m) then length m else suc (length m))
  unfolding insert
  length-insert k v [] = refl
  length-insert k v ((i, w) ∷ m) = ground (arith, length-insert k v m)

  pub length-insert-le : (k : K) (v : V) (m : Map K V) → length (insert k v m) ≤ length m + 1
  unfolding insert
  length-insert-le k v [] = omega arith
  length-insert-le k v ((i, w) ∷ m) = ground (arith, length-insert-le k v m)

  any-keys-insert :
      (k i : K) (v : V) (m : Map K V)
      → (i == k) ≡ false
      → any (λ j. j == i) (keys m) ≡ false
      → any (λ j. j == i) (keys (insert k v m)) ≡ false
  unfolding insert
  any-keys-insert k i v [] n h = ground (arith, e.equals_iff k i, e.equals_iff i k)
  any-keys-insert k i v ((x, w) ∷ m) n h = ground (arith, any-keys-insert k i v m n)

  pub insert-IsDistinct :
      (k : K) (v : V) (m : Map K V) → IsDistinct (keys m) → IsDistinct (keys (insert k v m))
  unfolding insert
  insert-IsDistinct k v [] h = (refl, tt)
  insert-IsDistinct k v ((i, w) ∷ m) h = elim (Bool-cases (i == k)) [
    | inl same ↦ rw same h
    | inr other ↦ rw other (any-keys-insert k i v m other h.0, insert-IsDistinct k v m h.1)
  ]

  any-keys-upsert :
      (k i : K) (d : V) (f : V → V) (m : Map K V)
      → (i == k) ≡ false
      → any (λ j. j == i) (keys m) ≡ false
      → any (λ j. j == i) (keys (upsert k d f m)) ≡ false
  unfolding upsert
  any-keys-upsert k i d f [] n h = ground (arith, e.equals_iff k i, e.equals_iff i k)
  any-keys-upsert k i d f ((x, w) ∷ m) n h = ground (arith, any-keys-upsert k i d f m n)

  pub upsert-IsDistinct :
      (k : K) (d : V) (f : V → V) (m : Map K V)
      → IsDistinct (keys m)
      → IsDistinct (keys (upsert k d f m))
  unfolding upsert
  upsert-IsDistinct k d f [] h = (refl, tt)
  upsert-IsDistinct k d f ((i, w) ∷ m) h = elim (Bool-cases (i == k)) [
    | inl same ↦ rw same h
    | inr other ↦ rw other (any-keys-upsert k i d f m other h.0, upsert-IsDistinct k d f m h.1)
  ]

  pub get-upsert :
      (k j : K) (d : V) (f : V → V) (m : Map K V)
      → get j (upsert k d f m) ≡ (if k == j then some (f (Option.get_or (get j m) d)) else get j m)
  unfolding get upsert
  get-upsert k j d f [] = ground arith
  get-upsert k j d f ((i, w) ∷ m) =
      ground (arith, e.equals_iff i k, e.equals_iff i j, e.equals_iff k j, get-upsert k j d f m)

  -- Where a value that is found after a write comes from.
  pub get-insert_source :
      (k j : K) (v w : V) (m : Map K V)
      → get j (insert k v m) ≡ some w
      → ((k ≡ j) × (v ≡ w)) ⊎ (get j m ≡ some w)
  get-insert_source k j v w m h = elim (Bool-cases (k == j)) [
    | inl same ↦ let h' = rw (get-insert k j v m, same) at h in inl (eq_of_beq k j same, cc)
    | inr other ↦ inr (rw (get-insert k j v m, other) at h)
  ]

  pub get-modify_source :
      (k j : K) (f : V → V) (w : V) (m : Map K V)
      → get j (modify k f m) ≡ some w
      → ((k ≡ j) × ((v : V) × (get j m ≡ some v) × (f v ≡ w))) ⊎ (get j m ≡ some w)
  get-modify_source k j f w m h = elim (Bool-cases (k == j)) [
    | inl same ↦ elim (Option-cases (get j m)) [
      | inl gone ↦ let h' = rw (get-modify k j f m, same, gone) at h in cc
      | inr (v, there) ↦
          let h' = rw (get-modify k j f m, same, there) at h in
          inl (eq_of_beq k j same, (v, there, cc))
    ]
    | inr other ↦ inr (rw (get-modify k j f m, other) at h)
  ]
