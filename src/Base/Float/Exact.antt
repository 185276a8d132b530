-- ===== src/Base/Float/Exact.antt =====
-- The laws of floats can be met: fractions, computed exactly. A denominator of 0 is not a number.
use Prim.Native.Nat.{ℕ, ◌+◌, ◌*◌, ◌/◌, ◌^◌, ◌≤◌, ◌<◌, compare, Ordering}
use mathlib.Core.Path.{◌≡◌, refl}
use mathlib.Core.Bool.{false, ◌||◌}
use mathlib.Core.Option.{none, some}
use mathlib.Core.Logic.{◌⊎◌, inl, inr}
use native.Mathlib.Omega.{arith}
use native.Mathlib.Nat.{mul-le-mul, mul-le-mul_right, div-le_of_le-mul, one-mul, mul-one, zero-mul}
use sovereign_event_bus.Base.Tests.{nat_beq, Bool-cases, if◌then◌else◌}
use sovereign_event_bus.Base.Float.{Float, Le, IsMonotone, IsPrecise}

abbrev pub exact : Float
exact = record {
  W = ℕ × ℕ;
  of_nat = λ n. (n, 1);
  ratio = λ n d. (n, d);
  mul = λ x y. (x.0 * y.0, x.1 * y.1);
  div = λ x y. (x.0 * y.1, x.1 * y.0);
  trunc = λ x. x.0 / x.1;
  round = λ x. ((2 * x.0 + x.1) / (2 * x.1), 1);
  partial_cmp = λ x y.
      if nat_beq x.1 0 || nat_beq y.1 0 then none else some (compare (x.0 * y.1) (y.0 * x.1));
}

compare-le : (m n : ℕ) → m ≤ n → (compare m n ≡ Ordering.lt) ⊎ (compare m n ≡ Ordering.eq)
compare-le m n h = ground arith

le_of_compare : (m n : ℕ) → (compare m n ≡ Ordering.lt) ⊎ (compare m n ≡ Ordering.eq) → m ≤ n
le_of_compare m n h = ground arith

-- A comparison of fractions is one of the products.
exact-Le :
    (a b c d : ℕ)
    → nat_beq b 0 ≡ false
    → nat_beq d 0 ≡ false
    → a * d ≤ c * b
    → Le exact (a, b) (c, d)
exact-Le a b c d p q h = elim (compare-le (a * d) (c * b) h) [
  | inl less ↦ inl (rw (p, q, less) refl)
  | inr same ↦ inr (rw (p, q, same) refl)
]

no_order : (none ≡ some Ordering.lt) ⊎ (none ≡ some Ordering.eq) → ⊥
no_order (inl e) = cc
no_order (inr e) = cc

order :
    {o : Ordering}
    → (some o ≡ some Ordering.lt) ⊎ (some o ≡ some Ordering.eq)
    → (o ≡ Ordering.lt) ⊎ (o ≡ Ordering.eq)
order (inl e) = inl cc
order (inr e) = inr cc

Le-exact : (a b c d : ℕ) → Le exact (a, b) (c, d) → (nat_beq b 0 ≡ false) × (a * d ≤ c * b)
Le-exact a b c d h = elim (Bool-cases (nat_beq b 0 || nat_beq d 0)) [
  | inl zero_den ↦ let h' = rw zero_den at h in elim (no_order h') [ ]
  | inr p ↦ (ground arith, le_of_compare (a * d) (c * b) (order (rw p at h)))
]

of_nat_mono : (m n : ℕ) → m ≤ n → Le exact (exact.of_nat m) (exact.of_nat n)
of_nat_mono m n h = exact-Le m 1 n 1 refl refl (omega arith)

beq-mul : (b n : ℕ) → nat_beq b 0 ≡ false → 0 < n → nat_beq (b * n) 0 ≡ false
beq-mul b n q p =
    let positive : 0 < b = ground arith in
    let product : 1 * 1 ≤ b * n = mul-le-mul positive p in ground arith

div-le_one :
    (x : exact.W) (n : ℕ)
    → 0 < n
    → n < 2 ^ 64
    → Le exact x (exact.of_nat n)
    → Le exact (exact.div x (exact.of_nat n)) (exact.of_nat 1)
div-le_one (a, b) n p s h =
    let (q, le) = Le-exact a b n 1 h in
    exact-Le (a * 1) (b * n) 1 1 (beq-mul b n q p) refl (grind arith)

mul-le :
    (x : exact.W) (n : ℕ)
    → 0 < n
    → n < 2 ^ 64
    → Le exact x (exact.of_nat 1)
    → Le exact (exact.mul x (exact.of_nat n)) (exact.of_nat n)
mul-le (a, b) n p s h =
    let (q, le) = Le-exact a b 1 1 h in
    let wider : a * n ≤ b * n = mul-le-mul_right n (omega arith) in
    exact-Le (a * n) (b * 1) n 1 (ground arith) refl (grind arith)

trunc-le : (x : exact.W) (n : ℕ) → n < 2 ^ 24 → Le exact x (exact.of_nat n) → exact.trunc x ≤ n
trunc-le (a, b) n s h =
    let (q, le) = Le-exact a b n 1 h in
    let positive : 0 < b = ground arith in div-le_of_le-mul b (grind arith)

pub exact-IsMonotone : IsMonotone exact
exact-IsMonotone = record {
  of_nat_mono = of_nat_mono;
  div-le_one = div-le_one;
  mul-le = mul-le;
  trunc-le = trunc-le;
}

mul-lt : (a b n : ℕ) → 0 < n → a < b → a * n < b * n
mul-lt a b n p h = let wider : (a + 1) * n ≤ b * n = mul-le-mul_right n (omega arith) in grind arith

compare-mul : (a b n : ℕ) → 0 < n → compare (a * n) (b * n) ≡ compare a b
compare-mul a b n p = ground (arith, mul-lt a b n p, mul-lt b a n p)

positive_beq : (n : ℕ) → 0 < n → nat_beq n 0 ≡ false
positive_beq n p = ground arith

compare-gt : (m n : ℕ) → n < m → compare m n ≡ Ordering.gt
compare-gt m n h = ground arith

cmp_quotients :
    (a b n : ℕ)
    → 0 < n
    → n ≤ 4096
    → a ≤ n
    → b ≤ n
    → exact.partial_cmp
        (exact.div (exact.of_nat a) (exact.of_nat n))
        (exact.div (exact.of_nat b) (exact.of_nat n))
      ≡ some (compare a b)
cmp_quotients a b n p s h k =
    rw (one-mul n, mul-one a, mul-one b, positive_beq n p, compare-mul a b n p) refl

cmp_ratio :
    (a n p q : ℕ)
    → 0 < n
    → n ≤ 4096
    → a ≤ n
    → 0 < q
    → q ≤ 64
    → p * n < a * q
    → exact.partial_cmp (exact.div (exact.of_nat a) (exact.of_nat n)) (exact.ratio p q)
      ≡ some Ordering.gt
cmp_ratio a n p q o s h r t lt =
    rw (one-mul n, mul-one a, positive_beq n o, positive_beq q r, compare-gt (a * q) (p * n) lt)
      refl

round-zero : (n : ℕ) → exact.trunc (exact.round (exact.mul (exact.of_nat 0) (exact.of_nat n))) ≡ 0
round-zero n = rw (zero-mul n) refl

pub exact-IsPrecise : IsPrecise exact
exact-IsPrecise = record {
  cmp_quotients = cmp_quotients;
  cmp_ratio = cmp_ratio;
  round-zero = round-zero;
}
