-- ===== src/Reasoning/Knowledge/Tests.antt =====
-- Runs and witnesses for the layer L5 of integration.rs.
use sovereign_event_bus.Base.{ℕ, ◌≡◌, refl, none, some, true, false, [], ◌∷◌, any, ◌==◌}
use mathlib.Core.Option
use sovereign_event_bus.Base.Text.{Text, codes, text_eq}
use sovereign_event_bus.Base.Text.Slices.{slice_to}
use sovereign_event_bus.Base.Json.{object, end}
use sovereign_event_bus.Reasoning.Trace.{ReasoningTrace, retrieve}
use sovereign_event_bus.Reasoning.Knowledge.{new, link_traces, linking_line, query_related_traces}
use sovereign_event_bus.Reasoning.Knowledge.Related.{store_all, query_related_traces-store_all}

abbrev about : Text → Text → ReasoningTrace ℕ
about id symbol = record {
  trace_id = id;
  agent_id = codes "ann";
  competency = codes "audit";
  steps =
      record {
        index = 0;
        timestamp = 1;
        step = retrieve (codes "L1") symbol (object end);
        step_hash = [];
      }
      ∷ [];
  parent_relations = [];
  initiating_query = none;
  mode = codes "live";
  duration_ms = 0;
  created_at = 0;
  signature = none;
  sequence_no = 0;
}

-- Short identifiers panic, and only where the line is written.
link_traces_short :
    (link_traces true (codes "t") (codes "u") (codes "extends") ≡ none)
    × (link_traces false (codes "t") (codes "u") (codes "extends") ≡ some [])
unfolding link_traces linking_line slice_to Option.bind
link_traces_short = (refl, refl)

-- The trace `t` was stored again without the symbol.
query_related_traces-store_all_example :
    any
      (λ i. i == codes "t")
      (query_related_traces
        (codes "x")
        (store_all true (about (codes "t") (codes "x") ∷ about (codes "t") (codes "y") ∷ []) new))
    ≡ false
query_related_traces-store_all_example =
    query_related_traces-store_all true
      (about (codes "t") (codes "x") ∷ about (codes "t") (codes "y") ∷ []) (codes "x") (codes "t")
