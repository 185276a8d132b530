-- ===== src/Reasoning/Streaming.antt =====
-- The stream manager of seb/reasoning/src/streaming.rs: subscriptions, the buffer of the events of
-- each partition, and the stored traces. The `RwLock`s make each method one step on its state. A
-- hash set is the list of its members, each once; the clock is an argument.
pub mod Events
pub mod Diagrams
pub mod Order
pub mod Tests
use sovereign_event_bus.Base.{
  ℕ, ◌+◌, Option, none, some, List, [], ◌∷◌, ◌++◌, if◌then◌else◌, any, map, length, ◌==◌,
}
use mathlib.Core.Option
use sovereign_event_bus.Base.Text.{Text, codes, text_eq}
use sovereign_event_bus.Base.Json.{Json, number, array, texts}
use sovereign_event_bus.Base.Map.{Map, get, insert, upsert, values}
use sovereign_event_bus.Reasoning.A2aProtocol.{
  A2aReasoningEvent, ReasoningPartition, agent_traces, challenges, compositions, queries, from_path,
}
use sovereign_event_bus.Reasoning.Trace.{ReasoningTrace}
use sovereign_event_bus.Reasoning.Mermaid.{MermaidSequenceDiagram, generate_sequence_diagram}
use sovereign_event_bus.Reasoning.Timeline.{TraceTimeline, from_trace}

pub data StreamingMode : Type 0 where
  live replay summary_only : StreamingMode

pub record ReasoningSubscription : Type 0 where
  pub partition : Text
  pub mode : StreamingMode
  pub agent_id : Option Text
  pub created_at : ℕ

pub record ReasoningStreamManager (F64 : Type 0) : Type 0 where
  pub subscriptions : List ReasoningSubscription
  pub event_buffer : Map Text (List A2aReasoningEvent)
  pub traces : Map Text (ReasoningTrace F64)

unfoldable pub agent_of : ReasoningPartition → Option Text
agent_of (agent_traces id) = some id
agent_of challenges = none
agent_of compositions = none
agent_of queries = none

-- A set that is collected from a list.
unfoldable pub collect_set : List Text → List Text
collect_set [] = []
collect_set (s ∷ ss) =
    let rest = collect_set ss in if any (λ t. t == s) rest then rest else s ∷ rest

unfoldable pub count_events : Map Text (List A2aReasoningEvent) → ℕ
count_events [] = 0
count_events ((p, es) ∷ m) = length es + count_events m

module _ {F64 : Type 0} where
  unfoldable pub new : ReasoningStreamManager F64
  new = record { subscriptions = []; event_buffer = []; traces = [] }

  -- The new subscription, and the manager that holds it.
  unfoldable pub subscribe_live :
      (now : ℕ)
      → Text
      → ReasoningStreamManager F64
      → ReasoningStreamManager F64 × ReasoningSubscription
  subscribe_live now partition m =
      let sub : ReasoningSubscription = record {
        partition = partition;
        mode = live;
        agent_id = Option.bind (from_path partition) agent_of;
        created_at = now;
      } in
      (record m { subscriptions = m.subscriptions ++ sub ∷ [] }, sub)

  unfoldable pub emit_event :
      A2aReasoningEvent → ReasoningStreamManager F64 → ReasoningStreamManager F64
  emit_event event m = record m {
    event_buffer = upsert event.partition [] (λ es. es ++ event ∷ []) m.event_buffer;
  }

  unfoldable pub store_trace :
      ReasoningTrace F64 → ReasoningStreamManager F64 → ReasoningStreamManager F64
  store_trace trace m = record m { traces = insert trace.trace_id trace m.traces }

  unfoldable pub get_partition_events : Text → ReasoningStreamManager F64 → List A2aReasoningEvent
  get_partition_events partition m = Option.get_or (get partition m.event_buffer) []

  unfoldable pub get_traces : ReasoningStreamManager F64 → List (ReasoningTrace F64)
  get_traces m = values m.traces

  unfoldable pub get_trace : Text → ReasoningStreamManager F64 → Option (ReasoningTrace F64)
  get_trace trace_id m = get trace_id m.traces

  -- `none` outside is the panic of a description, inside it is an unknown trace.
  unfoldable pub get_timeline :
      (F64 → Text) → Text → ReasoningStreamManager F64 → Option (Option TraceTimeline)
  get_timeline percent trace_id m = elim (get_trace trace_id m) [
    | none ↦ some none
    | some trace ↦ Option.map some (from_trace percent trace)
  ]

  unfoldable pub get_subscriptions : ReasoningStreamManager F64 → List ReasoningSubscription
  get_subscriptions m = m.subscriptions

  unfoldable pub group_by_competency :
      List (ReasoningTrace F64)
      → Map Text (List (ReasoningTrace F64))
      → Map Text (List (ReasoningTrace F64))
  group_by_competency [] groups = groups
  group_by_competency (t ∷ ts) groups =
      group_by_competency ts (upsert t.competency [] (λ g. g ++ t ∷ []) groups)

  unfoldable pub generate_diagrams : ReasoningStreamManager F64 → List MermaidSequenceDiagram
  generate_diagrams m =
      map generate_sequence_diagram (values (group_by_competency (get_traces m) []))

  unfoldable pub count_steps : List (ReasoningTrace F64) → ℕ
  count_steps [] = 0
  count_steps (t ∷ ts) = length t.steps + count_steps ts

  unfoldable pub get_summary : ReasoningStreamManager F64 → Map Text Json
  get_summary m =
      let ts = get_traces m in
      let agents = collect_set (map (λ t. t.agent_id) ts) in
      let competencies = collect_set (map (λ t. t.competency) ts) in
      insert (codes "competencies") (array (texts competencies)) (
        insert (codes "unique_agents") (number (length agents)) (
          insert (codes "total_steps") (number (count_steps ts)) (
            insert (codes "total_events") (number (count_events m.event_buffer))
              (insert (codes "total_traces") (number (length ts)) []))))
