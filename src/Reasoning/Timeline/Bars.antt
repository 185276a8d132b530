-- ===== src/Reasoning/Timeline/Bars.antt =====
-- The bars of a timeline, for floats whose operations are monotone.
use sovereign_event_bus.Base.{
  ◌^◌, ◌<◌, ℕ, ◌≤◌, List, [], ◌∷◌, Bool-cases, inl, inr, ltb, leb, if◌then◌else◌, All, arith,
}
use sovereign_event_bus.Base.Float.{Float, IsMonotone}
use sovereign_event_bus.Reasoning.Timeline.{TimelineEntry, max_from, max_duration, bar_width}

-- A number that the longest duration does not exceed bounds each of them.
max_from-le :
    (m b : ℕ) (es : List TimelineEntry)
    → max_from m es ≤ b
    → (m ≤ b) × All (λ e. e.duration_ms ≤ b) es
unfolding max_from
max_from-le m b [] h = (h, tt)
max_from-le m b (e ∷ es) h =
    let longest : ℕ = if leb m e.duration_ms then e.duration_ms else m in
    let (front, rest) = max_from-le longest b es h in (ground arith, (ground arith, rest))

module _ (f : Float) (laws : IsMonotone f) where
  bar_width-le : (d m : ℕ) → d ≤ m → m < 2 ^ 64 → bar_width f d m ≤ 40
  unfolding bar_width
  bar_width-le d m h s = elim (Bool-cases (ltb 0 m)) [
    | inl positive ↦
        let quotient = laws.div-le_one (f.of_nat d) m (ground arith) s (laws.of_nat_mono d m h) in
        rw positive
          (laws.trunc-le _ 40 (omega arith) (laws.mul-le _ 40 (omega arith) (omega arith) quotient))
    | inr zero_length ↦ rw zero_length (omega arith)
  ]

  bars_within :
      (m : ℕ) (es : List TimelineEntry)
      → m < 2 ^ 64
      → All (λ e. e.duration_ms ≤ m) es
      → All (λ e. bar_width f e.duration_ms m ≤ 40) es
  bars_within m [] s h = tt
  bars_within m (e ∷ es) s h = (bar_width-le e.duration_ms m h.0 s, bars_within m es s h.1)

  -- Where the operations of the floats are monotone, no bar of a timeline whose longest duration fits
  -- into 64 bits is wider than forty characters.
  pub bar_width-max_duration :
      (es : List TimelineEntry)
      → max_duration es < 2 ^ 64
      → All (λ e. bar_width f e.duration_ms (max_duration es) ≤ 40) es
  unfolding max_duration
  bar_width-max_duration [] s = tt
  bar_width-max_duration (e ∷ es) s =
      let longest = max_from e.duration_ms es in
      let (front, rest) = max_from-le e.duration_ms longest es (omega arith) in
      (bar_width-le e.duration_ms longest front s, bars_within longest es s rest)
