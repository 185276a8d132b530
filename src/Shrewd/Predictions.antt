-- ===== src/Shrewd/Predictions.antt =====
-- The predictions of shrewd_rtx.rs, for floats that tell the shares of a window apart.
use sovereign_event_bus.Base.{
  ℕ, zero, suc, nat_eq, ◌==◌, ◌+◌, ◌≤◌, ◌<◌, compare, ◌≡◌, refl, ap, ap₂, ◌∙◌, Bool-cases, inl, inr,
  some, List, length, length-keep, if◌then◌else◌, ltb, arith,
}
use mathlib.Core.Option
use sovereign_event_bus.Base.Float.{Float, IsPrecise}
use sovereign_event_bus.Shrewd.{
  from_idx, Row, PerVerdict, at, shares, larger, keep_larger, best_idx, ShrewdRtxEngine,
  ShrewdPrediction, count_rows, verdict_idx, rule_based_predict,
}
use sovereign_event_bus.Shrewd.Tallies.{tally, no_counts, at-count_rows}

-- The larger of two counts, and the later one of equal counts.
abbrev pick : PerVerdict ℕ → ℕ → ℕ → ℕ
pick c i j = if ltb (at c j) (at c i) then i else j

abbrev winner : PerVerdict ℕ → ℕ
winner c = pick c (pick c (pick c 0 1) 2) 3

-- The last of the largest among the first `n` counts.
abbrev Wins : PerVerdict ℕ → ℕ → ℕ → Type 0
Wins c b n = (i : ℕ) → i < n → (at c i ≤ at c b) × (b < i → at c i < at c b)

pick-Wins : (c : PerVerdict ℕ) (b n : ℕ) → b < n → Wins c b n → Wins c (pick c b n) (n + 1)
pick-Wins c b n s w i h = elim (Bool-cases (ltb i n)) [
  | inl before ↦ ground (arith, w i (ground arith))
  | inr here ↦
      let same : i ≡ n = ground arith in
      let value : at c i ≡ at c n = ap (at c) same in ground arith
]

keep_larger-compare :
    (c : PerVerdict ℕ) (i j : ℕ)
    → keep_larger (some (compare (at c i) (at c j))) i j ≡ some (pick c i j)
unfolding keep_larger
keep_larger-compare c i j = ground arith

pick-le : (c : PerVerdict ℕ) (i j : ℕ) → i ≤ j → pick c i j ≤ j
pick-le c i j h = ground arith

winner-Wins : (c : PerVerdict ℕ) → (winner c ≤ 3) × Wins c (winner c) 4
winner-Wins c =
    let first = pick c 0 1 in
    let second = pick c first 2 in
    let first_le : first ≤ 1 = pick-le c 0 1 (omega arith) in
    let second_le : second ≤ 2 = pick-le c first 2 (omega arith) in
    let alone : Wins c 0 1 = λ i h.
      let same : at c i ≡ at c 0 = ap (at c) (omega arith) in (omega arith, λ k. omega arith) in
    (
      pick-le c second 3 (omega arith),
      pick-Wins c second 3 (omega arith)
          (pick-Wins c first 2 (omega arith) (pick-Wins c 0 1 (omega arith) alone)),
    )

module _ (f : Float) (laws : IsPrecise f) where
  at-shares :
      (c : PerVerdict ℕ) (n i : ℕ) → at (shares f c n) i ≡ f.div (f.of_nat (at c i)) (f.of_nat n)
  unfolding at shares
  at-shares c n zero = refl
  at-shares c n (suc zero) = refl
  at-shares c n (suc (suc zero)) = refl
  at-shares c n (suc (suc (suc i))) = refl

  larger-shares :
      (c : PerVerdict ℕ) (n i j : ℕ)
      → 0 < n
      → n ≤ 4096
      → at c i ≤ n
      → at c j ≤ n
      → larger f (shares f c n) i j ≡ some (pick c i j)
  unfolding larger
  larger-shares c n i j p s h k =
      let order = laws.cmp_quotients (at c i) (at c j) n p s h k in
      ap (λ o. keep_larger o i j) (ap₂ f.partial_cmp (at-shares c n i) (at-shares c n j) ∙ order)
      ∙ keep_larger-compare c i j

  best_idx-shares :
      (c : PerVerdict ℕ) (n : ℕ)
      → 0 < n
      → n ≤ 4096
      → ((i : ℕ) → i ≤ 3 → at c i ≤ n)
      → best_idx f (shares f c n) ≡ some (winner c)
  unfolding best_idx Option.bind
  best_idx-shares c n p s h =
      let first = pick c 0 1 in
      let second = pick c first 2 in
      let first_le : first ≤ 1 = pick-le c 0 1 (omega arith) in
      let second_le : second ≤ 2 = pick-le c first 2 (omega arith) in
      rw
        (
          larger-shares c n 0 1 p s (h 0 (omega arith)) (h 1 (omega arith)),
          larger-shares c n first 2 p s (h first (omega arith)) (h 2 (omega arith)),
        )
        (larger-shares c n second 3 p s (h second (omega arith)) (h 3 (omega arith)))

  -- A matrix of some rows, and of no more than 4096, gets a prediction. Its verdict is one that most
  -- rows have, of verdicts with equally many rows the last, and its confidence is the share of
  -- the rows that have it.
  pub rule_based_predict-tally :
      (engine : ShrewdRtxEngine) (rows : List (Row f))
      → 0 < length rows
      → length rows ≤ 4096
      → (pred : ShrewdPrediction f) × (rule_based_predict f engine rows ≡ some pred)
        × ((b : ℕ) × (b ≤ 3)
            × (pred.verdict ≡ from_idx b)
            × (pred.confidence ≡ f.div (f.of_nat (tally f b rows)) (f.of_nat (length rows)))
            × ((i : ℕ)
                → i ≤ 3
                → (tally f i rows ≤ tally f b rows) × (b < i → tally f i rows < tally f b rows)))
  unfolding rule_based_predict
  rule_based_predict-tally engine rows p s =
      let c = count_rows f rows no_counts in
      let (low, wins) = winner-Wins c in
      let tallies : (i : ℕ) → i ≤ 3 → at c i ≡ tally f i rows =
        λ i l. at-count_rows f rows i l (omega (arith, s)) in
      let parts : (i : ℕ) → i ≤ 3 → at c i ≤ length rows =
        λ i l. omega (arith, tallies i l, length-keep (λ row. verdict_idx f row == i) rows) in
      let best = best_idx-shares c (length rows) p s parts in
      let mine = tallies (winner c) low in
      (
        _,
        ap (Option.map _) best,
        (
          winner c,
          low,
          refl,
          at-shares c (length rows) (winner c)
              ∙ ap (λ n. f.div (f.of_nat n) (f.of_nat (length rows))) mine,
          λ i l.
              let (most, later) = wins i (omega arith) in
              let other = tallies i l in
              (omega (arith, most, other, mine), λ k. omega (arith, later k, other, mine)),
        ),
      )
