-- ===== src/Reasoning/Mermaid/Tests.antt =====
-- Runs and witnesses for the sequence diagrams of streaming.rs.
use sovereign_event_bus.Base.{ℕ, ◌≡◌, refl, [], ◌∷◌, any, length, ◌==◌}
use sovereign_event_bus.Base.Text.{Text, codes, text_eq}
use sovereign_event_bus.Base.Map.Laws.{IsDistinct}
use sovereign_event_bus.Reasoning.Trace.{ReasoningTrace}
use sovereign_event_bus.Reasoning.Trace
use sovereign_event_bus.Reasoning.Mermaid.{
  generate_sequence_diagram, render, new, add_actor, add_actors, add_interaction, add_interactions,
  add_interactions_after, interaction, participant_lines, interaction_lines,
}
use sovereign_event_bus.Reasoning.Mermaid.Actors.{generate_sequence_diagram-actors}

abbrev by_kernel : ReasoningTrace ℕ
by_kernel = Trace.new 0 (codes "k") (codes "verify") 1

abbrev by_policy : ReasoningTrace ℕ
by_policy = Trace.new 0 (codes "p") (codes "allow") 1

render_two :
    render (generate_sequence_diagram (by_kernel ∷ by_policy ∷ []))
    ≡ codes
        "sequenceDiagram\n    title Multi-Agent Reasoning\n    participant k\n    participant p\n\n    k->>p:reasoning(allow)\n"
unfolding render generate_sequence_diagram new add_actor add_actors add_interaction add_interactions
    add_interactions_after interaction participant_lines interaction_lines Trace.new
render_two = refl

generate_sequence_diagram-actors_example :
    IsDistinct (generate_sequence_diagram (by_kernel ∷ by_policy ∷ by_kernel ∷ [])).actors
    × ((a : Text)
        → any
            (λ b. b == a)
            (generate_sequence_diagram (by_kernel ∷ by_policy ∷ by_kernel ∷ [])).actors
          ≡ any (λ t. t.agent_id == a) (by_kernel ∷ by_policy ∷ by_kernel ∷ []))
    × (length (generate_sequence_diagram (by_kernel ∷ by_policy ∷ by_kernel ∷ [])).interactions ≡ 2)
generate_sequence_diagram-actors_example =
    generate_sequence_diagram-actors (by_kernel ∷ by_policy ∷ by_kernel ∷ [])
