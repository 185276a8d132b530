-- ===== src/Reasoning/Mermaid.antt =====
-- The sequence diagrams of seb/reasoning/src/streaming.rs.
pub mod Actors
pub mod Tests
use sovereign_event_bus.Base.{List, [], ◌∷◌, ◌++◌, Bool, if◌then◌else◌, any, ◌==◌, map}
use sovereign_event_bus.Base.Text.{Text, codes, text_eq}
use sovereign_event_bus.Reasoning.Trace.{ReasoningTrace}

pub record MermaidSequenceDiagram : Type 0 where
  pub title : Text
  pub actors : List Text
  pub interactions : List Text

unfoldable pub new : Text → MermaidSequenceDiagram
new title = record { title = title; actors = []; interactions = [] }

unfoldable pub add_actor : Text → MermaidSequenceDiagram → MermaidSequenceDiagram
add_actor actor d =
    if any (λ a. a == actor) d.actors then d else record d { actors = d.actors ++ actor ∷ [] }

unfoldable pub interaction : Text → Text → Text → Text
interaction from to label = from ++ (codes "->>" ++ (to ++ (codes ":" ++ label)))

unfoldable pub add_interaction :
    Text → Text → Text → MermaidSequenceDiagram → MermaidSequenceDiagram
add_interaction from to label d = record d {
  interactions = d.interactions ++ interaction from to label ∷ [];
}

unfoldable pub participant_lines : List Text → Text
participant_lines [] = []
participant_lines (actor ∷ rest) =
    codes "    participant " ++ (actor ++ (codes "\n" ++ participant_lines rest))

unfoldable pub interaction_lines : List Text → Text
interaction_lines [] = []
interaction_lines (line ∷ rest) = codes "    " ++ (line ++ (codes "\n" ++ interaction_lines rest))

unfoldable pub render : MermaidSequenceDiagram → Text
render d =
    codes "sequenceDiagram\n    title "
    ++ (d.title
        ++ (codes "\n"
            ++ (participant_lines d.actors ++ (codes "\n" ++ interaction_lines d.interactions))))

module _ {F64 : Type 0} where
  unfoldable pub add_actors :
      List (ReasoningTrace F64) → MermaidSequenceDiagram → MermaidSequenceDiagram
  add_actors [] d = d
  add_actors (t ∷ ts) d = add_actors ts (add_actor t.agent_id d)

  -- The second loop from the trace behind `prev` on.
  unfoldable pub add_interactions_after :
      ReasoningTrace F64
      → List (ReasoningTrace F64)
      → MermaidSequenceDiagram
      → MermaidSequenceDiagram
  add_interactions_after prev [] d = d
  add_interactions_after prev (t ∷ ts) d = add_interactions_after t ts (
      add_interaction prev.agent_id t.agent_id (codes "reasoning(" ++ (t.competency ++ codes ")"))
        d)

  unfoldable pub add_interactions :
      List (ReasoningTrace F64) → MermaidSequenceDiagram → MermaidSequenceDiagram
  add_interactions [] d = d
  add_interactions (t ∷ ts) d = add_interactions_after t ts d

  unfoldable pub generate_sequence_diagram : List (ReasoningTrace F64) → MermaidSequenceDiagram
  generate_sequence_diagram traces =
      add_interactions traces (add_actors traces (new (codes "Multi-Agent Reasoning")))
