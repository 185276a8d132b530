-- ===== src/Shrewd/Tallies.antt =====
-- The counts of the verdicts in the rows of shrewd_rtx.rs, against a count of each by itself.
use sovereign_event_bus.Base.{
  ℕ, zero, suc, nat_eq, ◌==◌, ◌+◌, ◌^◌, ◌≤◌, ◌<◌, ◌≡◌, refl, ap, ◌∙◌, List, [], ◌∷◌, ◌++◌, length,
  length-append, keep, keep-append, if◌then◌else◌, arith, nat_beq,
}
use sovereign_event_bus.Base.Float.{Float}
use sovereign_event_bus.Shrewd.{Row, PerVerdict, at, verdict_idx, add_one, count_at, count_rows}

add_one-small : (n : ℕ) → n + 1 < 2 ^ 32 → add_one n ≡ n + 1
unfolding add_one
add_one-small n h = omega arith

at-count_at :
    (k i : ℕ) (c : PerVerdict ℕ)
    → k ≤ 3
    → i ≤ 3
    → at (count_at k c) i ≡ (if nat_beq k i then add_one (at c i) else at c i)
unfolding at count_at
at-count_at zero zero c h l = refl
at-count_at zero (suc zero) c h l = refl
at-count_at zero (suc (suc zero)) c h l = refl
at-count_at zero (suc (suc (suc i))) c h l = ground arith
at-count_at (suc zero) zero c h l = refl
at-count_at (suc zero) (suc zero) c h l = refl
at-count_at (suc zero) (suc (suc zero)) c h l = refl
at-count_at (suc zero) (suc (suc (suc i))) c h l = ground arith
at-count_at (suc (suc zero)) zero c h l = refl
at-count_at (suc (suc zero)) (suc zero) c h l = refl
at-count_at (suc (suc zero)) (suc (suc zero)) c h l = refl
at-count_at (suc (suc zero)) (suc (suc (suc i))) c h l = ground arith
at-count_at (suc (suc (suc k))) zero c h l = ground arith
at-count_at (suc (suc (suc k))) (suc zero) c h l = ground arith
at-count_at (suc (suc (suc k))) (suc (suc zero)) c h l = ground arith
at-count_at (suc (suc (suc k))) (suc (suc (suc i))) c h l = ground arith

abbrev pub no_counts : PerVerdict ℕ
no_counts = record { proven = 0; shrewd = 0; causal = 0; noise = 0 }

at-no_counts : (i : ℕ) → at no_counts i ≡ 0
unfolding at
at-no_counts zero = refl
at-no_counts (suc zero) = refl
at-no_counts (suc (suc zero)) = refl
at-no_counts (suc (suc (suc i))) = refl

module _ (f : Float) where
  pub verdict_idx-le : (row : Row f) → verdict_idx f row ≤ 3
  unfolding verdict_idx
  verdict_idx-le row = ground arith

  -- How many rows have a verdict.
  abbrev pub tally : ℕ → List (Row f) → ℕ
  tally i rows = length (keep (λ row. verdict_idx f row == i) rows)

  pub tally-append : (i : ℕ) (xs ys : List (Row f)) → tally i (xs ++ ys) ≡ tally i xs + tally i ys
  tally-append i xs ys =
      ap length (keep-append (λ row. verdict_idx f row == i) xs ys) ∙ length-append _ _

  count_rows-tally :
      (rows : List (Row f)) (c : PerVerdict ℕ) (i : ℕ)
      → i ≤ 3
      → at c i + length rows < 2 ^ 32
      → at (count_rows f rows c) i ≡ at c i + tally i rows
  unfolding count_rows
  count_rows-tally [] c i l s = omega arith
  count_rows-tally (row ∷ rows) c i l s =
      let counted = at-count_at (verdict_idx f row) i c (verdict_idx-le row) l in
      let one : add_one (at c i) ≡ at c i + 1 = add_one-small (at c i) (omega arith) in
      let smaller : at (count_at (verdict_idx f row) c) i + length rows < 2 ^ 32 =
        ground (arith, counted, one) in
      count_rows-tally rows (count_at (verdict_idx f row) c) i l smaller
      ∙ ground (arith, counted, one)

  -- The counts of some rows from nothing on.
  pub at-count_rows :
      (rows : List (Row f)) (i : ℕ)
      → i ≤ 3
      → length rows < 2 ^ 32
      → at (count_rows f rows no_counts) i ≡ tally i rows
  at-count_rows rows i l s =
      let nothing = at-no_counts i in
      count_rows-tally rows no_counts i l (omega (arith, nothing, s)) ∙ omega (arith, nothing)
