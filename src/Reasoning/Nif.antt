-- ===== src/Reasoning/Nif.antt =====
-- The functions that integration.rs of seb/reasoning/src offers to Erlang.
use sovereign_event_bus.Base.{
  ℕ, ◌≡◌, refl, Option, Option-cases, inl, inr, Bool, true, List, [], ◌++◌, length,
}
use mathlib.Core.Option
use sovereign_event_bus.Base.Text.{Text, codes}
use sovereign_event_bus.Base.Text.Slices.{decimal, utf8_len}
use sovereign_event_bus.Base.Json.{Json}
use sovereign_event_bus.Reasoning.A2aProtocol.{path, from_path}
use sovereign_event_bus.Reasoning.A2aProtocol.Partitions.{from_path-path}

unfoldable pub seb_reasoning_subscribe : (partition_path mode : Text) → Text
seb_reasoning_subscribe partition_path mode =
    codes "subscription:"
    ++ Option.get_or (Option.map path (from_path partition_path)) partition_path

unfoldable pub seb_reasoning_emit_step :
    (trace_id : Text) (step_index : ℕ) (step_json : Json) → Bool
seb_reasoning_emit_step trace_id step_index step_json = true

unfoldable pub seb_reasoning_challenge :
    (target_trace_id counter_evidence : Text) (step_index : Option ℕ) → Text
seb_reasoning_challenge target_trace_id counter_evidence step_index =
    codes "challenge:"
    ++ (target_trace_id
        ++ (codes ":"
            ++ (decimal (utf8_len counter_evidence)
                ++ (codes ":" ++ decimal (Option.get_or step_index 0)))))

unfoldable pub seb_reasoning_compose : (sub_trace_ids : List Text) (composition_rule : Text) → Text
seb_reasoning_compose sub_trace_ids composition_rule =
    codes "composition:" ++ (decimal (length sub_trace_ids) ++ (codes ":" ++ composition_rule))

unfoldable pub seb_reasoning_query : (query_type : Text) (query_data : Json) → List Text
seb_reasoning_query query_type query_data = []

-- The subscription names the path that was asked for, whether it is the path of a partition or not.
pub seb_reasoning_subscribe-path :
    (partition_path mode : Text)
    → seb_reasoning_subscribe partition_path mode ≡ codes "subscription:" ++ partition_path
unfolding seb_reasoning_subscribe
seb_reasoning_subscribe-path partition_path mode = elim (Option-cases (from_path partition_path)) [
  | inl unknown ↦ rw unknown refl
  | inr (p, known) ↦
      let same = ((from_path-path partition_path p).0 known).0 in rw (known, same) refl
]
