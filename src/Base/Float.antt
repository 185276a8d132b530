-- ===== src/Base/Float.antt =====
-- The operations of Rust's floats that the program uses, as an interface: a type of floats and the
-- laws of IEEE 754 that the proofs rely on. `f32` and `f64` are two instances.
pub mod Exact
use Prim.Native.Nat.{ℕ, zero, ◌+◌, ◌*◌, ◌^◌, ◌≤◌, ◌<◌, compare, Ordering}
use mathlib.Core.Path.{◌≡◌}
use mathlib.Core.Bool.{Bool}
use mathlib.Core.Option.{Option, some}
use mathlib.Core.Logic.{◌⊎◌}

pub record Float : Type 1 where
  pub W : Type 0
  -- `n as f32`, and the literals of whole numbers.
  pub of_nat : ℕ → W
  -- The literal nearest to a fraction.
  pub ratio : (n d : ℕ) → W
  pub mul : W → W → W
  pub div : W → W → W
  -- `x as usize`, towards zero.
  pub trunc : W → ℕ
  pub round : W → W
  -- Unordered where one side is not a number.
  pub partial_cmp : W → W → Option Ordering

-- `x <= y`.
abbrev pub Le : (f : Float) → f.W → f.W → Type 0
Le f x y = (f.partial_cmp x y ≡ some Ordering.lt) ⊎ (f.partial_cmp x y ≡ some Ordering.eq)

-- Monotone operations, rounding included, on whole numbers of at most 64 bits, which are finite.
pub record IsMonotone (f : Float) : Type 0 where
  pub of_nat_mono : (m n : ℕ) → m ≤ n → Le f (f.of_nat m) (f.of_nat n)
  pub div-le_one :
      (x : f.W) (n : ℕ)
      → 0 < n
      → n < 2 ^ 64
      → Le f x (f.of_nat n)
      → Le f (f.div x (f.of_nat n)) (f.of_nat 1)
  pub mul-le :
      (x : f.W) (n : ℕ)
      → 0 < n
      → n < 2 ^ 64
      → Le f x (f.of_nat 1)
      → Le f (f.mul x (f.of_nat n)) (f.of_nat n)
  -- A whole number of at most 24 bits is exact.
  pub trunc-le : (x : f.W) (n : ℕ) → n < 2 ^ 24 → Le f x (f.of_nat n) → f.trunc x ≤ n

-- Quotients of small whole numbers are apart by more than the rounding.
pub record IsPrecise (f : Float) : Type 0 where
  pub cmp_quotients :
      (a b n : ℕ)
      → 0 < n
      → n ≤ 4096
      → a ≤ n
      → b ≤ n
      → f.partial_cmp (f.div (f.of_nat a) (f.of_nat n)) (f.div (f.of_nat b) (f.of_nat n))
        ≡ some (compare a b)
  pub cmp_ratio :
      (a n p q : ℕ)
      → 0 < n
      → n ≤ 4096
      → a ≤ n
      → 0 < q
      → q ≤ 64
      → p * n < a * q
      → f.partial_cmp (f.div (f.of_nat a) (f.of_nat n)) (f.ratio p q) ≡ some Ordering.gt
  pub round-zero : (n : ℕ) → f.trunc (f.round (f.mul (f.of_nat 0) (f.of_nat n))) ≡ 0
