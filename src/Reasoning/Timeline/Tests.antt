-- ===== src/Reasoning/Timeline/Tests.antt =====
-- Runs and witnesses for the timelines of streaming.rs, with fractions for the floats.
use sovereign_event_bus.Base.{ℕ, ◌≤◌, ◌≡◌, refl, none, some, List, [], ◌∷◌, All, arith}
use sovereign_event_bus.Base.Text.{codes}
use sovereign_event_bus.Base.Text.Slices.{decimal}
use sovereign_event_bus.Base.Float.Exact.{exact, exact-IsMonotone}
use sovereign_event_bus.Reasoning.Trace.{TracedStep, rebuttal, compose, ReasoningTrace, description}
use sovereign_event_bus.Reasoning.Timeline.{
  TimelineEntry, elapsed_ms, entries_from, from_trace, max_from, max_duration, bar_width,
}
use sovereign_event_bus.Reasoning.Timeline.Durations.{Describes, total_ms, from_trace-Describes}
use sovereign_event_bus.Reasoning.Timeline.Bars.{bar_width-max_duration}

abbrev steps : List (TracedStep ℕ)
steps =
    record {
      index = 0;
      timestamp = 3000000;
      step = rebuttal (codes "t") (codes "no");
      step_hash = [];
    }
    ∷ record { index = 1; timestamp = 5500000; step = compose [] (codes "and"); step_hash = [] }
    ∷ []

abbrev trace : ReasoningTrace ℕ
trace = record {
  trace_id = codes "id";
  agent_id = codes "ann";
  competency = codes "audit";
  steps = steps;
  parent_relations = [];
  initiating_query = none;
  mode = codes "live";
  duration_ms = 0;
  created_at = 1000000;
  signature = none;
  sequence_no = 0;
}

abbrev entries : List TimelineEntry
entries =
    record { step_index = 0; timestamp = 3000000; description = codes "Rebuttal"; duration_ms = 2 }
    ∷ record { step_index = 1; timestamp = 5500000; description = codes "Compose"; duration_ms = 2 }
    ∷ []

from_trace_two :
    from_trace decimal trace ≡ some (record { trace_id = codes "id"; entries = entries })
unfolding from_trace entries_from elapsed_ms description
from_trace_two = refl

from_trace-Describes_example :
    (codes "id" ≡ codes "id") × Describes decimal 0 steps entries × (total_ms entries ≤ 4)
from_trace-Describes_example =
    from_trace-Describes decimal trace (record { trace_id = codes "id"; entries = entries })
      (omega arith, (omega arith, tt)) from_trace_two

bar_width-max_duration_example :
    All (λ e. bar_width exact e.duration_ms (max_duration entries) ≤ 40) entries
unfolding max_duration max_from
bar_width-max_duration_example = bar_width-max_duration exact exact-IsMonotone entries (omega arith)
