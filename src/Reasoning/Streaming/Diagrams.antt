-- ===== src/Reasoning/Streaming/Diagrams.antt =====
-- The diagrams that the stream manager makes of its traces, one for each competency.
use sovereign_event_bus.Base.{
  ℕ, ◌+◌, ◌≡◌, refl, ap, sym, ◌∙◌, true, Bool-cases, inl, inr, List, [], ◌∷◌, ◌++◌, length,
  length-append, keep, append-nil, append_assoc, if◌then◌else◌, ◌==◌, ◌≤◌, map, arith, all, ==_refl,
  eq_of_beq,
}
use mathlib.Core.Option
use sovereign_event_bus.Base.Text.{Text, text_eq, text_beq}
use sovereign_event_bus.Base.Map.{Map, get, keys, upsert, values}
use sovereign_event_bus.Base.Map.Laws.{IsDistinct, get-upsert, upsert-IsDistinct}
use sovereign_event_bus.Reasoning.Trace.{ReasoningTrace}
use sovereign_event_bus.Reasoning.Mermaid.{MermaidSequenceDiagram, generate_sequence_diagram}
use sovereign_event_bus.Reasoning.Mermaid.Actors.{generate_sequence_diagram-actors}
use sovereign_event_bus.Reasoning.Streaming.{
  ReasoningStreamManager, get_traces, group_by_competency, generate_diagrams,
}

abbrev pub total_interactions : List MermaidSequenceDiagram → ℕ
total_interactions [] = 0
total_interactions (d ∷ ds) = length d.interactions + total_interactions ds

module _ {F64 : Type 0} where
  -- No group is empty, and each holds the traces of its competency only.
  abbrev pub IsGrouped : Map Text (List (ReasoningTrace F64)) → Type 0
  IsGrouped [] = Unit
  IsGrouped ((c, ts) ∷ groups) =
      (1 ≤ length ts) × (all (λ t. t.competency == c) ts ≡ true) × IsGrouped groups

  -- The traces of all the groups.
  abbrev pub grouped : Map Text (List (ReasoningTrace F64)) → ℕ
  grouped [] = 0
  grouped ((c, ts) ∷ groups) = length ts + grouped groups

  all-append :
      (c : Text) (ts : List (ReasoningTrace F64)) (t : ReasoningTrace F64)
      → all (λ t. t.competency == c) ts ≡ true
      → (c == t.competency) ≡ true
      → all (λ t. t.competency == c) (ts ++ t ∷ []) ≡ true
  all-append c [] t h e =
      let back = ap (λ s. text_beq s c) (sym (eq_of_beq c t.competency e)) in
      rw (back, ==_refl c) refl
  all-append c (u ∷ ts) t h e = ground (arith, all-append c ts t)

  add_to_group :
      (t : ReasoningTrace F64) (groups : Map Text (List (ReasoningTrace F64)))
      → IsGrouped groups
      → IsGrouped (upsert t.competency [] (λ g. g ++ t ∷ []) groups)
        × (grouped (upsert t.competency [] (λ g. g ++ t ∷ []) groups) ≡ grouped groups + 1)
  unfolding upsert
  add_to_group t [] h = ((omega arith, rw (==_refl t.competency) refl, tt), refl)
  add_to_group t ((c, ts) ∷ groups) h = elim (Bool-cases (c == t.competency)) [
    | inl here ↦ rw here (
      (rw (length-append ts (t ∷ [])) (omega arith), all-append c ts t h.1 here, h.2),
      rw (length-append ts (t ∷ [])) (omega arith),
    )
    | inr other ↦
        let (rest, many) = add_to_group t groups h.2 in
        rw other ((h.0, h.1, rest), omega (arith, many))
  ]

  group_all :
      (ts : List (ReasoningTrace F64)) (groups : Map Text (List (ReasoningTrace F64)))
      → IsGrouped groups
      → IsDistinct (keys groups)
      → IsGrouped (group_by_competency ts groups)
        × IsDistinct (keys (group_by_competency ts groups))
        × (grouped (group_by_competency ts groups) ≡ grouped groups + length ts)
  unfolding group_by_competency
  group_all [] groups h d = (h, d, omega arith)
  group_all (t ∷ ts) groups h d =
      let (full, many) = add_to_group t groups h in
      let (rest, apart, all_many) =
        group_all ts (upsert t.competency [] (λ g. g ++ t ∷ []) groups) full
          (upsert-IsDistinct t.competency [] (λ g. g ++ t ∷ []) groups d) in
      (rest, apart, omega (arith, many, all_many))

  interactions_of_groups :
      (groups : Map Text (List (ReasoningTrace F64)))
      → IsGrouped groups
      → total_interactions (map generate_sequence_diagram (values groups)) + length groups
        ≡ grouped groups
  interactions_of_groups [] h = refl
  interactions_of_groups ((c, ts) ∷ groups) h =
      omega (arith, (generate_sequence_diagram-actors ts).2, interactions_of_groups groups h.2, h.0)

  -- The group of a competency, empty where there is none.
  abbrev pub group_of : Text → Map Text (List (ReasoningTrace F64)) → List (ReasoningTrace F64)
  group_of c groups = Option.get_or (get c groups) []

  group_of-upsert :
      (c : Text) (t : ReasoningTrace F64) (groups : Map Text (List (ReasoningTrace F64)))
      → group_of c (upsert t.competency [] (λ g. g ++ t ∷ []) groups)
        ≡ (if t.competency == c then group_of c groups ++ t ∷ [] else group_of c groups)
  group_of-upsert c t groups =
      rw (get-upsert t.competency c [] (λ g. g ++ t ∷ []) groups)
        (elim (Bool-cases (t.competency == c)) [
          | inl same ↦ rw same refl
          | inr other ↦ rw other refl
        ])

  group_of-group_by_competency :
      (c : Text) (ts : List (ReasoningTrace F64)) (groups : Map Text (List (ReasoningTrace F64)))
      → group_of c (group_by_competency ts groups)
        ≡ group_of c groups ++ keep (λ t. t.competency == c) ts
  unfolding group_by_competency
  group_of-group_by_competency c [] groups = sym (append-nil (group_of c groups))
  group_of-group_by_competency c (t ∷ ts) groups =
      rw
        (
          group_of-group_by_competency c ts (upsert t.competency [] (λ g. g ++ t ∷ []) groups),
          group_of-upsert c t groups,
        )
        (elim (Bool-cases (t.competency == c)) [
          | inl same ↦
              rw
                (same, append_assoc (group_of c groups) (t ∷ []) (keep (λ u. u.competency == c) ts))
                refl
          | inr other ↦ rw other refl
        ])

  -- The diagrams of a manager are those of the groups of its traces, one for each competency. The
  -- group of a competency is exactly the traces of the manager with that competency, in the order
  -- in which the manager lists them, and no group is empty; so the interactions and the diagrams
  -- together are as many as the traces.
  pub generate_diagrams-IsGrouped :
      (m : ReasoningStreamManager F64)
      → (groups : Map Text (List (ReasoningTrace F64))) × (generate_diagrams m
          ≡ map generate_sequence_diagram (values groups))
        × IsGrouped groups
        × IsDistinct (keys groups)
        × ((c : Text) → group_of c groups ≡ keep (λ t. t.competency == c) (get_traces m))
        × (total_interactions (generate_diagrams m) + length groups ≡ length (get_traces m))
  unfolding generate_diagrams get
  generate_diagrams-IsGrouped m =
      let groups : Map Text (List (ReasoningTrace F64)) = group_by_competency (get_traces m) [] in
      let (full, apart, many) = group_all (get_traces m) [] tt tt in
      let count : grouped groups ≡ length (get_traces m) = omega (arith, many) in
      (
        groups,
        refl,
        full,
        apart,
        λ c. group_of-group_by_competency c (get_traces m) [],
        interactions_of_groups groups full ∙ count,
      )
