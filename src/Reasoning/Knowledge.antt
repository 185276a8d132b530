-- ===== src/Reasoning/Knowledge.antt =====
-- The layer L5 in seb/reasoning/src/integration.rs: the store of traces, and the queries on it. What
-- is written to the log is a list of lines; `none` in its place is a panic. The arguments of
-- `tracing::info!` are evaluated where the level is enabled only.
pub mod Related
pub mod Order
pub mod Tests
use sovereign_event_bus.Base.{
  ℕ, Option, none, some, Bool, List, [], ◌∷◌, ◌++◌, if◌then◌else◌, any, keep, map, ◌==◌,
}
use mathlib.Core.Option
use sovereign_event_bus.Base.Text.{Text, codes, text_eq}
use sovereign_event_bus.Base.Text.Slices.{slice_to}
use sovereign_event_bus.Base.Float.{Float}
use sovereign_event_bus.Reasoning.Trace.{ReasoningTrace}
use sovereign_event_bus.Reasoning.Trace.Views.{extract_symbols, each}
use sovereign_event_bus.Reasoning.Timeline.{TraceTimeline, render_ascii}
use sovereign_event_bus.Reasoning.Streaming.{
  ReasoningStreamManager, store_trace, get_traces, get_timeline,
}
use sovereign_event_bus.Reasoning.Streaming

pub record L5KnowledgeIntegration (F64 : Type 0) : Type 0 where
  pub stream_manager : ReasoningStreamManager F64

unfoldable pub indexed_line : (trace_id symbol : Text) → Option Text
indexed_line trace_id symbol =
    Option.map (λ short. codes "Indexed symbol '" ++ (symbol ++ (codes "' from trace " ++ short)))
      (slice_to trace_id 16)

unfoldable pub linking_line : (source_id target_id relation : Text) → Option Text
linking_line source_id target_id relation = Option.bind (slice_to source_id 16) (λ source.
    Option.map
      (λ target.
        codes "Linking traces: "
        ++ (source ++ (codes " --[" ++ (relation ++ (codes "]--> " ++ target)))))
      (slice_to target_id 16))

-- The two ids are not kept anywhere.
unfoldable pub link_traces :
    (info : Bool) → (source_id target_id relation : Text) → Option (List Text)
link_traces info source_id target_id relation =
    let line = Option.map (λ l. l ∷ []) (linking_line source_id target_id relation) in
    if info then line else some []

module _ {F64 : Type 0} where
  unfoldable pub new : L5KnowledgeIntegration F64
  new = record { stream_manager = Streaming.new }

  -- The trace is stored before a line is written.
  unfoldable pub store_reasoning_trace :
      (info : Bool)
      → ReasoningTrace F64
      → L5KnowledgeIntegration F64
      → L5KnowledgeIntegration F64 × Option (List Text)
  store_reasoning_trace info trace l5 =
      let symbols = extract_symbols trace in
      let lines = each (indexed_line trace.trace_id) symbols in
      (
        record l5 { stream_manager = store_trace trace l5.stream_manager },
        if info then lines else some [],
      )

  unfoldable pub query_related_traces : (symbol : Text) → L5KnowledgeIntegration F64 → List Text
  query_related_traces symbol l5 =
      map (λ t. t.trace_id)
        (keep (λ t. any (λ s. s == symbol) (extract_symbols t)) (get_traces l5.stream_manager))

unfoldable pub render_timeline : (f : Float) → Option TraceTimeline → Option (Option Text)
render_timeline f none = some none
render_timeline f (some timeline) = Option.map some (render_ascii f timeline)

-- `none` outside is a panic, inside it is an unknown trace.
unfoldable pub get_trace_timeline :
    (f : Float) (percent : f.W → Text) (trace_id : Text)
    → L5KnowledgeIntegration f.W
    → Option (Option Text)
get_trace_timeline f percent trace_id l5 =
    Option.bind (get_timeline percent trace_id l5.stream_manager) (render_timeline f)
