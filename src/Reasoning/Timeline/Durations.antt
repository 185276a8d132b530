-- ===== src/Reasoning/Timeline/Durations.antt =====
-- The entries of a timeline, one for each step of the trace, and the time that they share out.
use sovereign_event_bus.Base.{
  ℕ, suc, ◌+◌, ◌-◌, ◌/◌, ◌≤◌, ◌≡◌, refl, subst, some, List, [], ◌∷◌, arith, Option-cases, inl, inr,
}
use sovereign_event_bus.Base.Text.{Text}
use sovereign_event_bus.Reasoning.Trace.{TracedStep, ReasoningTrace, description}
use sovereign_event_bus.Reasoning.Timeline.{
  TimelineEntry, TraceTimeline, elapsed_ms, entries_from, from_trace,
}

abbrev pub total_ms : List TimelineEntry → ℕ
total_ms [] = 0
total_ms (e ∷ es) = e.duration_ms + total_ms es

module _ {F64 : Type 0} where
  -- No step is stamped before the one in front of it.
  abbrev pub InOrder : ℕ → List (TracedStep F64) → Type 0
  InOrder prev [] = Unit
  InOrder prev (s ∷ ss) = (prev ≤ s.timestamp) × InOrder s.timestamp ss

  -- The time of the last step.
  abbrev pub last_time : ℕ → List (TracedStep F64) → ℕ
  last_time prev [] = prev
  last_time prev (s ∷ ss) = last_time s.timestamp ss

  last_time-le :
      (prev : ℕ) (ss : List (TracedStep F64)) → InOrder prev ss → prev ≤ last_time prev ss
  last_time-le prev [] h = omega arith
  last_time-le prev (s ∷ ss) h = omega (arith, h.0, last_time-le s.timestamp ss h.1)

  module _ (percent : F64 → Text) where
    -- The entry of each step.
    abbrev pub Describes : ℕ → List (TracedStep F64) → List TimelineEntry → Type 0
    Describes i [] [] = Unit
    Describes i (s ∷ ss) (e ∷ es) =
        (e.step_index ≡ i)
        × (e.timestamp ≡ s.timestamp)
        × (description percent s.step ≡ some e.description)
        × Describes (suc i) ss es
    Describes _ _ _ = ⊥

    entries_from-Describes :
        (i prev : ℕ) (ss : List (TracedStep F64)) (es : List TimelineEntry)
        → InOrder prev ss
        → entries_from percent i prev ss ≡ some es
        → Describes i ss es × (total_ms es ≤ (last_time prev ss - prev) / 1000000)
    unfolding entries_from elapsed_ms
    entries_from-Describes i prev [] [] o h = (tt, omega arith)
    entries_from-Describes i prev [] (e ∷ es) o h = cc
    entries_from-Describes i prev (s ∷ ss) es o h =
        elim (Option-cases (description percent s.step)) [
          | inl gone ↦ let h' = rw (entries_from, gone) at h in cc
          | inr (d, there) ↦ elim (Option-cases (entries_from percent (suc i) s.timestamp ss)) [
            | inl stuck ↦ let h' = rw (entries_from, there, stuck) at h in cc
            | inr (rest, rest_eq) ↦
                let (described, total) =
                  entries_from-Describes (suc i) s.timestamp ss rest o.1 rest_eq in
                let later = last_time-le s.timestamp ss o.1 in
                let h' = rw (entries_from, there, rest_eq) at h in
                let e : TimelineEntry = record {
                  step_index = i;
                  timestamp = s.timestamp;
                  description = d;
                  duration_ms = elapsed_ms s.timestamp prev;
                } in
                let same : (e ∷ rest) ≡ es = cc in
                subst
                  (λ l.
                    Describes i (s ∷ ss) l
                    × (total_ms l ≤ (last_time s.timestamp ss - prev) / 1000000))
                  same ((refl, refl, there, described), omega (arith, total, later, o.0))
          ]
        ]

    -- The timeline of a trace whose steps are stamped in order has one entry for each step, with its
    -- index, its time and its description, and the durations of the entries sum up to no more than
    -- the milliseconds from the start of the trace to its last step.
    pub from_trace-Describes :
        (t : ReasoningTrace F64) (timeline : TraceTimeline)
        → InOrder t.created_at t.steps
        → from_trace percent t ≡ some timeline
        → (timeline.trace_id ≡ t.trace_id)
          × Describes 0 t.steps timeline.entries
          × (total_ms timeline.entries ≤ (last_time t.created_at t.steps - t.created_at) / 1000000)
    unfolding from_trace
    from_trace-Describes t timeline o h =
        elim (Option-cases (entries_from percent 0 t.created_at t.steps)) [
          | inl gone ↦ let h' = rw (from_trace, gone) at h in cc
          | inr (es, there) ↦
              let h' = rw (from_trace, there) at h in
              let (described, total) = entries_from-Describes 0 t.created_at t.steps es o there in
              let made : TraceTimeline = record { trace_id = t.trace_id; entries = es } in
              let same : made ≡ timeline = cc in
              subst
                (λ l.
                  (l.trace_id ≡ t.trace_id)
                  × Describes 0 t.steps l.entries
                  × (total_ms l.entries
                      ≤ (last_time t.created_at t.steps - t.created_at) / 1000000))
                same (refl, described, total)
        ]
