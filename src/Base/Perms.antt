-- ===== src/Base/Perms.antt =====
-- Lists up to their order, which a hash map of the source leaves open.
use sovereign_event_bus.Base.{
  ◌≡◌, refl, ap, ap₂, subst₂, sym, ◌∙◌, Bool, ◌||◌, List, ◌∷◌, map, any, Eq, ◌==◌, arith,
}
use mathlib.Core.List.{Permᴰ}
use sovereign_event_bus.Base.Map.Laws.{IsDistinct}

module _ {ℓ} {A : Type ℓ} where
  pub any-Perm : (p : A → Bool) {l m : List A} → Permᴰ l m → any p l ≡ any p m
  any-Perm p Permᴰ.nil = refl
  any-Perm p (Permᴰ.cons e d) = ap₂ (◌||◌) (ap p e) (any-Perm p d)
  any-Perm p (Permᴰ.swap {a = a} {b = b} {a' = a'} {b' = b'} e f) =
      let first : p a ≡ p b' = ap p e in
      let second : p b ≡ p a' = ap p f in ground (arith, first, second)
  any-Perm p (Permᴰ.trans d e) = any-Perm p d ∙ any-Perm p e

pub map-Perm {ℓ κ} :
    {A : Type ℓ} {B : Type κ} (f : A → B) {l m : List A} → Permᴰ l m → Permᴰ (map f l) (map f m)
map-Perm f Permᴰ.nil = Permᴰ.nil
map-Perm f (Permᴰ.cons e d) = Permᴰ.cons (ap f e) (map-Perm f d)
map-Perm f (Permᴰ.swap e g) = Permᴰ.swap (ap f e) (ap f g)
map-Perm f (Permᴰ.trans d e) = Permᴰ.trans (map-Perm f d) (map-Perm f e)

swapped {ℓ} :
    {K : Type ℓ} ⦃e : Eq K⦄ (a b : K) (l : List K) → IsDistinct (a ∷ b ∷ l) → IsDistinct (b ∷ a ∷ l)
swapped ⦃e⦄ a b l h =
    (ground (arith, e.equals_iff a b, e.equals_iff b a, h.0, h.1.0), (ground (arith, h.0), h.1.1))

-- No member is there twice, in any order.
pub IsDistinct-Perm {ℓ} :
    {K : Type ℓ} ⦃e : Eq K⦄ {ks js : List K} → Permᴰ ks js → IsDistinct ks → IsDistinct js
IsDistinct-Perm Permᴰ.nil h = h
IsDistinct-Perm (Permᴰ.cons {a = a} {b = b} {l₁ = ks} {l₂ = js} same d) h = (
  sym (any-Perm (λ j. j == b) d) ∙ ap (λ k. any (λ j. j == k) ks) (sym same) ∙ h.0,
  IsDistinct-Perm d h.1,
)
IsDistinct-Perm (Permᴰ.swap {a = a} {b = b} {l = l} e f) h =
    subst₂ (λ x y. IsDistinct (y ∷ x ∷ l)) e f (swapped a b l h)
IsDistinct-Perm (Permᴰ.trans d e) h = IsDistinct-Perm e (IsDistinct-Perm d h)
