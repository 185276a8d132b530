-- ===== src/Reasoning/Trace.antt =====
-- seb/reasoning/src/trace.rs: traces of reasoning, their content addresses and signatures, and the
-- search for cycles among their parents. `F64` is the type of the floats, of which the code asks
-- the text of the whole percents only; the clock, serde_json and blake3 are arguments.
pub mod Cycles
pub mod Ancestors
pub mod Views
pub mod Symbols
pub mod Addresses
pub mod Tests
use sovereign_event_bus.Base.{
  ℕ, zero, suc, ◌==◌, Option, none, some, Bool, true, false, List, [], ◌∷◌, ◌++◌, if◌then◌else◌,
  length, any, find, is_empty, not, map,
}
use mathlib.Core.Option
use sovereign_event_bus.Base.Text.{Text, codes, text_eq}
use sovereign_event_bus.Base.Text.Lines.{join}
use sovereign_event_bus.Base.Text.Slices.{decimal, slice_to}
use sovereign_event_bus.Base.Json.{Json}

pub data ReasoningStep (F64 : Type 0) : Type 0 where
  retrieve : (source symbol : Text) (result : Json) → ReasoningStep F64
  verify_step : (target method : Text) (valid : Bool) (error : Option Text) → ReasoningStep F64
  apply_rule : (rule_id : Text) (premises : List Text) (conclusion : Text) → ReasoningStep F64
  check_authorization :
      (principal action resource : Text) (allowed : Bool) (reason : Text) → ReasoningStep F64
  challenge :
      (target_trace_id : Text) (target_step_index : ℕ) (counter_evidence : Text) → ReasoningStep F64
  rebuttal : (challenge_trace_id answer : Text) → ReasoningStep F64
  conclude : (conclusion : Text) (confidence : F64) → ReasoningStep F64
  compose : (sub_trace_ids : List Text) (composition_rule : Text) → ReasoningStep F64

-- `none` is the panic of `&target_trace_id[0..8]` on an identifier of fewer than eight bytes.
unfoldable pub description :
    {F64 : Type 0} → (percent : F64 → Text) → ReasoningStep F64 → Option Text
description percent (retrieve source symbol result) =
    some (codes "Retrieve(" ++ (symbol ++ codes ")"))
description percent (verify_step target method valid error) =
    some (codes "Verify(" ++ (method ++ codes ")"))
description percent (apply_rule rule_id premises conclusion) =
    some (codes "ApplyRule(" ++ (rule_id ++ codes ")"))
description percent (check_authorization principal action resource allowed reason) =
    some (codes "CheckAuth(" ++ (action ++ codes ")"))
description percent (challenge target_trace_id target_step_index counter_evidence) =
    Option.map (λ s. codes "Challenge(" ++ (s ++ codes ")")) (slice_to target_trace_id 8)
description percent (rebuttal challenge_trace_id answer) = some (codes "Rebuttal")
description percent (conclude conclusion confidence) =
    some (codes "Conclude(conf=" ++ (percent confidence ++ codes ")"))
description percent (compose sub_trace_ids composition_rule) = some (codes "Compose")

pub record TracedStep (F64 : Type 0) : Type 0 where
  pub index : ℕ
  pub timestamp : ℕ
  pub step : ReasoningStep F64
  pub step_hash : Text

pub data TraceRelation : Type 0 where
  extends : (parent_trace_id : Text) → TraceRelation
  challenges : (parent_trace_id : Text) → TraceRelation
  rebuts : (challenge_trace_id : Text) → TraceRelation
  composes : (sub_trace_ids : List Text) → TraceRelation

pub record ReasoningTrace (F64 : Type 0) : Type 0 where
  pub trace_id : Text
  pub agent_id : Text
  pub competency : Text
  pub steps : List (TracedStep F64)
  pub parent_relations : List TraceRelation
  pub initiating_query : Option Text
  pub mode : Text
  pub duration_ms : ℕ
  pub created_at : ℕ
  pub signature : Option (List ℕ)
  pub sequence_no : ℕ

unfoldable pub parent_ids : List TraceRelation → List Text
parent_ids [] = []
parent_ids (extends id ∷ rest) = id ∷ parent_ids rest
parent_ids (challenges id ∷ rest) = id ∷ parent_ids rest
parent_ids (rebuts id ∷ rest) = id ∷ parent_ids rest
parent_ids (composes ids ∷ rest) = ids ++ parent_ids rest

-- Whether a cycle was found, with the visited set; `none` where the fuel runs out.
abbrev pub Visit : Type 0
Visit = Option (Bool × List Text)

-- The loop over the parents, which returns at the first cycle.
abbrev pub go_on : (List Text → Visit) → Visit → Visit
go_on rest none = none
go_on rest (some (true, visited)) = some (true, visited)
go_on rest (some (false, visited)) = rest visited

unfoldable pub visit_all : (Text → List Text → Visit) → List Text → List Text → Visit
visit_all visit [] visited = some (false, visited)
visit_all visit (id ∷ ids) visited = go_on (visit_all visit ids) (visit id visited)

unfoldable pub is_visited : Text → List Text → Bool
is_visited id visited = any (λ v. v == id) visited

module _ {F64 : Type 0} where
  unfoldable pub new : (now : ℕ) → Text → Text → ℕ → ReasoningTrace F64
  new now agent_id competency sequence_no = record {
    trace_id = [];
    agent_id = agent_id;
    competency = competency;
    steps = [];
    parent_relations = [];
    initiating_query = none;
    mode = codes "live";
    duration_ms = 0;
    created_at = now;
    signature = none;
    sequence_no = sequence_no;
  }

  unfoldable pub add_step :
      (step_json : ReasoningStep F64 → Text) (blake3_hex : Text → Text) (now : ℕ)
      → ReasoningStep F64
      → ReasoningTrace F64
      → ReasoningTrace F64
  add_step step_json blake3_hex now step t = record t {
    steps =
        t.steps
        ++ record {
          index = length t.steps;
          timestamp = now;
          step = step;
          step_hash = blake3_hex (step_json step);
        }
          ∷ [];
  }

  unfoldable pub add_parent : TraceRelation → ReasoningTrace F64 → ReasoningTrace F64
  add_parent relation t = record t { parent_relations = t.parent_relations ++ relation ∷ [] }

  unfoldable pub set_query : Text → ReasoningTrace F64 → ReasoningTrace F64
  set_query query t = record t { initiating_query = some query }

  unfoldable pub set_mode : Text → ReasoningTrace F64 → ReasoningTrace F64
  set_mode mode t = record t { mode = mode }

  -- The trace without the two fields that are no part of its address.
  unfoldable pub cleared : ReasoningTrace F64 → ReasoningTrace F64
  cleared t = record t { trace_id = []; signature = none }

  module _ (trace_json : ReasoningTrace F64 → Text) (blake3_hex : Text → Text) where
    -- The new trace and the identifier that is returned.
    unfoldable pub finalize : ReasoningTrace F64 → ReasoningTrace F64 × Text
    finalize t = let id = blake3_hex (trace_json (cleared t)) in (record t { trace_id = id }, id)

    -- The key is not read.
    unfoldable pub sign : List ℕ → ReasoningTrace F64 → ReasoningTrace F64
    unfolding finalize
    sign key t =
        let (named, id) = finalize (record t { signature = none }) in
        record named { signature = some (blake3_hex id) }

  unfoldable pub verify : List ℕ → ReasoningTrace F64 → Bool
  verify key t = elim t.signature [ none ↦ false | some s ↦ not (is_empty s) ]

  -- What is done with the trace that was found.
  unfoldable pub into_parents :
      (Text → List Text → Visit) → Option (ReasoningTrace F64) → List Text → Visit
  into_parents visit none visited = some (false, visited)
  into_parents visit (some t) visited = visit_all visit (parent_ids t.parent_relations) visited

  unfoldable pub has_cycles_internal : ℕ → List (ReasoningTrace F64) → Text → List Text → Visit
  has_cycles_internal zero all_traces id visited = none
  has_cycles_internal (suc fuel) all_traces id visited =
      let into = has_cycles_internal fuel all_traces in
      if is_visited id visited
      then some (true, visited)
      else into_parents into (find (λ t. t.trace_id == id) all_traces) (id ∷ visited)

  -- The fuel is one more than there are traces.
  unfoldable pub has_cycles : List (ReasoningTrace F64) → ReasoningTrace F64 → Option Bool
  has_cycles all_traces self =
      Option.map (λ r. r.0)
        (has_cycles_internal (suc (length all_traces)) all_traces self.trace_id [])
