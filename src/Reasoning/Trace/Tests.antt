-- ===== src/Reasoning/Trace/Tests.antt =====
-- Runs and witnesses for trace.rs, with the floats as whole percents.
use sovereign_event_bus.Base.{
  ℕ, ◌≡◌, refl, none, some, Bool, true, false, List, [], ◌∷◌, length, any, ◌==◌,
}
use sovereign_event_bus.Base.Text.{Text, codes, text_eq}
use sovereign_event_bus.Base.Text.Slices.{decimal, slice_to}
use sovereign_event_bus.Base.Json.{number}
use sovereign_event_bus.Reasoning.Trace.{
  ReasoningStep, retrieve, challenge, conclude, check_authorization, ReasoningTrace, extends,
  composes, description, parent_ids, has_cycles, has_cycles_internal, visit_all, into_parents,
  is_visited,
}
use sovereign_event_bus.Reasoning.Trace.Views.{
  extract_symbols, all_symbols, step_symbols, sort, insert_sorted, dedup, dedup_after,
}
use sovereign_event_bus.Reasoning.Trace.Symbols.{mentioned_in, Ascending, extract_symbols-Ascending}
use sovereign_event_bus.Reasoning.Trace.Cycles.{has_cycles-returns}
use sovereign_event_bus.Reasoning.Trace.Ancestors.{Ancestor, has_cycles-Ancestor}
use sovereign_event_bus.Reasoning.Trace.Addresses.{Numbered, add_steps, add_steps-Numbered}

abbrev root : ReasoningTrace ℕ
root = record {
  trace_id = codes "a";
  agent_id = codes "ann";
  competency = codes "audit";
  steps = [];
  parent_relations = [];
  initiating_query = none;
  mode = codes "live";
  duration_ms = 0;
  created_at = 0;
  signature = none;
  sequence_no = 0;
}

-- It extends the other trace, and composes it too.
abbrev twice : ReasoningTrace ℕ
twice = record root {
  trace_id = codes "b";
  parent_relations = extends (codes "a") ∷ composes (codes "a" ∷ []) ∷ [];
}

-- It extends the other trace.
abbrev once : ReasoningTrace ℕ
once = record root { trace_id = codes "c"; parent_relations = extends (codes "a") ∷ [] }

has_cycles-once : has_cycles (root ∷ twice ∷ once ∷ []) once ≡ some false
unfolding has_cycles has_cycles_internal into_parents visit_all is_visited parent_ids
has_cycles-once = refl

-- The identifier of fewer than eight bytes panics.
description_short : description {F64 = ℕ} decimal (challenge (codes "abc") 0 (codes "no")) ≡ none
unfolding description slice_to
description_short = refl

-- The symbols of a trace in order, each once.
extract_symbols-sort :
    extract_symbols (record root {
      steps =
          record {
            index = 0;
            timestamp = 0;
            step = check_authorization (codes "p") (codes "b") (codes "b") true (codes "");
            step_hash = codes "h";
          }
          ∷ record {
            index = 1;
            timestamp = 0;
            step = retrieve (codes "L1") (codes "a") (number 1);
            step_hash = codes "h";
          }
          ∷ [];
    })
    ≡ codes "a" ∷ codes "b" ∷ codes "p" ∷ []
unfolding extract_symbols all_symbols step_symbols sort insert_sorted dedup dedup_after
extract_symbols-sort = refl

abbrev show_step : ReasoningStep ℕ → Text
show_step s = codes "step"

abbrev show_trace : ReasoningTrace ℕ → Text
show_trace t = t.agent_id

abbrev blake3 : Text → Text
blake3 t = codes "h"

abbrev added : List (ℕ × ReasoningStep ℕ)
added = (1, retrieve (codes "L1") (codes "x") (number 1)) ∷ (2, conclude (codes "done") 90) ∷ []

has_cycles-returns_example : (found : Bool) × (has_cycles (root ∷ twice ∷ []) twice ≡ some found)
has_cycles-returns_example = has_cycles-returns (root ∷ twice ∷ []) twice

has_cycles-Ancestor_example : ¬ Ancestor (root ∷ twice ∷ once ∷ []) (codes "c") (codes "c")
has_cycles-Ancestor_example = has_cycles-Ancestor (root ∷ twice ∷ once ∷ []) once has_cycles-once

add_steps-Numbered_example :
    Numbered show_step blake3 0 (add_steps show_step blake3 added root).steps
    × (length (add_steps show_step blake3 added root).steps ≡ 2)
add_steps-Numbered_example = add_steps-Numbered show_step blake3 added root tt

abbrev checked : ReasoningTrace ℕ
checked = record root {
  steps =
      record {
        index = 0;
        timestamp = 0;
        step = check_authorization (codes "p") (codes "b") (codes "b") true (codes "");
        step_hash = codes "h";
      }
      ∷ [];
}

extract_symbols-Ascending_example :
    Ascending (extract_symbols checked)
    × ((x : Text)
        → any (λ s. s == x) (extract_symbols checked)
          ≡ any (λ s. mentioned_in x s.step) checked.steps)
extract_symbols-Ascending_example = extract_symbols-Ascending checked
