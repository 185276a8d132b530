-- ===== src/Reasoning/Knowledge/Order.antt =====
-- The order of the stored traces, which the hash map leaves open, in the answers of integration.rs.
use sovereign_event_bus.Base.{◌≡◌, any, ◌==◌}
use mathlib.Core.List.{Permᴰ}
use sovereign_event_bus.Base.Text.{Text, text_eq}
use sovereign_event_bus.Reasoning.Trace.Views.{extract_symbols}
use sovereign_event_bus.Reasoning.Streaming.{get_traces}
use sovereign_event_bus.Base.Perms.{map-Perm}
use sovereign_event_bus.Reasoning.Streaming.Order.{keep-Perm, counts, get_summary-Perm}
use sovereign_event_bus.Reasoning.Knowledge.{L5KnowledgeIntegration, query_related_traces}

module _ {F64 : Type 0} where
  -- Two stores that hold the same traces in some other order answer a query for a symbol with the
  -- same identifiers, in some other order, and their summaries count as many traces, as many steps
  -- and as many different agents.
  pub query_related_traces-Perm :
      (symbol : Text) (m n : L5KnowledgeIntegration F64)
      → Permᴰ (get_traces m.stream_manager) (get_traces n.stream_manager)
      → Permᴰ (query_related_traces symbol m) (query_related_traces symbol n)
        × (counts m.stream_manager ≡ counts n.stream_manager)
  unfolding query_related_traces
  query_related_traces-Perm symbol m n d = (
    map-Perm (λ t. t.trace_id) (keep-Perm (λ t. any (λ s. s == symbol) (extract_symbols t)) d),
    get_summary-Perm m.stream_manager n.stream_manager d,
  )
