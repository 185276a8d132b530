-- ===== src/Reasoning/Streaming/Tests.antt =====
-- Runs and witnesses for the stream manager of streaming.rs.
use sovereign_event_bus.Base.{ℕ, ◌+◌, ◌≡◌, List, [], ◌∷◌, ◌++◌, keep, map, length, ◌==◌}
use sovereign_event_bus.Base.Text.{Text, codes, text_eq}
use sovereign_event_bus.Base.Json.{object, end}
use sovereign_event_bus.Base.Map.{Map, keys, values}
use sovereign_event_bus.Base.Map.Laws.{IsDistinct}
use sovereign_event_bus.Reasoning.A2aProtocol.{
  A2aReasoningEvent, A2aProtocolHandler, queries, path, get_events, get_events_by_partition,
}
use sovereign_event_bus.Reasoning.Trace.{ReasoningTrace}
use sovereign_event_bus.Reasoning.Trace
use sovereign_event_bus.Reasoning.Mermaid.{generate_sequence_diagram}
use sovereign_event_bus.Reasoning.Streaming.{
  ReasoningStreamManager, new, store_trace, get_partition_events, get_traces, generate_diagrams,
}
use sovereign_event_bus.Reasoning.Streaming.Events.{
  emit_events, get_partition_events-emit_events, get_partition_events-get_events,
}
use sovereign_event_bus.Reasoning.Streaming.Diagrams.{
  IsGrouped, group_of, total_interactions, generate_diagrams-IsGrouped,
}

abbrev event : Text → ℕ → A2aReasoningEvent
event partition now = record {
  event_type = 0x0301;
  timestamp = now;
  partition = partition;
  payload = object end;
}

abbrev events : List A2aReasoningEvent
events =
    event (codes "reasoning/a") 1
    ∷ event (codes "reasoning/queries") 2
    ∷ event (codes "reasoning/a") 3
    ∷ []

abbrev handler : A2aProtocolHandler
handler = record { agent_id = codes "a"; event_log = events }

abbrev trace : Text → ReasoningTrace ℕ
trace id = record (Trace.new 0 (codes "ann") (codes "audit") 1) { trace_id = id }

get_partition_events-emit_events_example :
    get_partition_events (codes "reasoning/a") (emit_events events (new {F64 = ℕ}))
    ≡ get_partition_events (codes "reasoning/a") (new {F64 = ℕ})
      ++ keep (λ e. e.partition == codes "reasoning/a") events
get_partition_events-emit_events_example =
    get_partition_events-emit_events (codes "reasoning/a") events (new {F64 = ℕ})

get_partition_events-get_events_example :
    get_partition_events (path queries) (emit_events (get_events handler) (new {F64 = ℕ}))
    ≡ get_partition_events (path queries) (new {F64 = ℕ}) ++ get_events_by_partition handler queries
get_partition_events-get_events_example =
    get_partition_events-get_events handler queries (new {F64 = ℕ})

abbrev two : ReasoningStreamManager ℕ
two = store_trace (trace (codes "u")) (store_trace (trace (codes "t")) new)

generate_diagrams-IsGrouped_example :
    (groups : Map Text (List (ReasoningTrace ℕ))) × (generate_diagrams two
      ≡ map generate_sequence_diagram (values groups))
    × IsGrouped groups
    × IsDistinct (keys groups)
    × ((c : Text) → group_of c groups ≡ keep (λ t. t.competency == c) (get_traces two))
    × (total_interactions (generate_diagrams two) + length groups ≡ length (get_traces two))
generate_diagrams-IsGrouped_example = generate_diagrams-IsGrouped two
