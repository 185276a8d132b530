-- ===== src/Reasoning/Mermaid/Actors.antt =====
-- What a sequence diagram holds of the traces that it was generated from.
use sovereign_event_bus.Base.{
  ◌+◌, ◌-◌, ◌≡◌, refl, List, [], ◌∷◌, ◌++◌, true, false, ◌||◌, any, ◌==◌, length, arith, Bool-cases,
  inl, inr, length-append, eq_of_beq, sym, ◌∙◌, ap,
}
use sovereign_event_bus.Base.Text.{Text, codes, text_eq, text_beq_iff}
use sovereign_event_bus.Base.Map.Laws.{IsDistinct}
use sovereign_event_bus.Reasoning.Trace.{ReasoningTrace}
use sovereign_event_bus.Reasoning.Mermaid.{
  MermaidSequenceDiagram, new, add_actor, add_actors, add_interaction, add_interactions_after,
  add_interactions, generate_sequence_diagram,
}

any-append :
    (a : Text) (xs ys : List Text)
    → any (λ b. b == a) (xs ++ ys) ≡ (any (λ b. b == a) xs || any (λ b. b == a) ys)
any-append a [] ys = refl
any-append a (x ∷ xs) ys = ground (arith, any-append a xs ys)

append-IsDistinct :
    (a : Text) (xs : List Text)
    → IsDistinct xs
    → any (λ b. b == a) xs ≡ false
    → IsDistinct (xs ++ a ∷ [])
append-IsDistinct a [] d h = (refl, tt)
append-IsDistinct a (x ∷ xs) d h =
    let apart = text_beq_iff x a in
    let back = text_beq_iff a x in
    let here = any-append x xs (a ∷ []) in
    let rest = append-IsDistinct a xs d.1 in ground (arith, rest)

add_actor-IsDistinct :
    (a : Text) (d : MermaidSequenceDiagram)
    → IsDistinct d.actors
    → IsDistinct (add_actor a d).actors
unfolding add_actor
add_actor-IsDistinct a d h = elim (Bool-cases (any (λ b. b == a) d.actors)) [
  | inl known ↦ rw known h
  | inr fresh ↦ rw fresh (append-IsDistinct a d.actors h fresh)
]

-- An actor that is known already adds nothing.
any-known :
    (a b : Text) (xs : List Text)
    → any (λ c. c == a) xs ≡ true
    → any (λ c. c == b) xs ≡ (any (λ c. c == b) xs || (a == b))
any-known a b xs known = elim (Bool-cases (a == b)) [
  | inl same ↦ let e = eq_of_beq a b same in rw (same, sym e, known) refl
  | inr other ↦ rw other (ground arith)
]

any-add_actor :
    (a b : Text) (d : MermaidSequenceDiagram)
    → any (λ c. c == b) (add_actor a d).actors ≡ (any (λ c. c == b) d.actors || (a == b))
unfolding add_actor
any-add_actor a b d = elim (Bool-cases (any (λ c. c == a) d.actors)) [
  | inl known ↦ rw known (any-known a b d.actors known)
  | inr fresh ↦ rw (fresh, any-append b d.actors (a ∷ [])) (ground arith)
]

module _ {F64 : Type 0} where
  add_actors-actors :
      (ts : List (ReasoningTrace F64)) (d : MermaidSequenceDiagram)
      → IsDistinct d.actors
      → IsDistinct (add_actors ts d).actors
        × ((a : Text)
            → any (λ b. b == a) (add_actors ts d).actors
              ≡ (any (λ b. b == a) d.actors || any (λ t. t.agent_id == a) ts))
  unfolding add_actors
  add_actors-actors [] d h = (h, λ a. ground arith)
  add_actors-actors (t ∷ ts) d h =
      let (apart, members) =
        add_actors-actors ts (add_actor t.agent_id d) (add_actor-IsDistinct t.agent_id d h) in
      (apart, λ a. ground (arith, members a, any-add_actor t.agent_id a d))

  add_actors-interactions :
      (ts : List (ReasoningTrace F64)) (d : MermaidSequenceDiagram)
      → (add_actors ts d).interactions ≡ d.interactions
  unfolding add_actors add_actor
  add_actors-interactions [] d = refl
  add_actors-interactions (t ∷ ts) d =
      let rest = add_actors-interactions ts (add_actor t.agent_id d) in ground (arith, rest)

  add_interactions_after-keeps :
      (prev : ReasoningTrace F64) (ts : List (ReasoningTrace F64)) (d : MermaidSequenceDiagram)
      → ((add_interactions_after prev ts d).actors ≡ d.actors)
        × (length (add_interactions_after prev ts d).interactions
            ≡ length d.interactions + length ts)
  unfolding add_interactions_after add_interaction
  add_interactions_after-keeps prev [] d = (refl, omega arith)
  add_interactions_after-keeps prev (t ∷ ts) d =
      let next = add_interactions_after-keeps t ts (add_interaction prev.agent_id t.agent_id _ d) in
      (next.0, next.1 ∙ ap (λ n. n + length ts) (length-append d.interactions _) ∙ omega arith)

  -- The diagram of a list of traces names each of their agents once and nobody else, and has one
  -- interaction fewer than there are traces, and none where there is no trace.
  pub generate_sequence_diagram-actors :
      (ts : List (ReasoningTrace F64))
      → IsDistinct (generate_sequence_diagram ts).actors
        × ((a : Text)
            → any (λ b. b == a) (generate_sequence_diagram ts).actors
              ≡ any (λ t. t.agent_id == a) ts)
        × (length (generate_sequence_diagram ts).interactions ≡ length ts - 1)
  unfolding generate_sequence_diagram add_interactions new add_actors
  generate_sequence_diagram-actors [] = (tt, λ a. refl, omega arith)
  generate_sequence_diagram-actors (t ∷ ts) =
      let start : MermaidSequenceDiagram = new (codes "Multi-Agent Reasoning") in
      let (apart, members) = add_actors-actors (t ∷ ts) start tt in
      let (same, many) = add_interactions_after-keeps t ts (add_actors (t ∷ ts) start) in
      rw same (apart, members, rw (many, add_actors-interactions (t ∷ ts) start) (omega arith))
