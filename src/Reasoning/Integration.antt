-- ===== src/Reasoning/Integration.antt =====
-- The hooks of the layers L1 and L3 in seb/reasoning/src/integration.rs. Each call reads the clock
-- several times: `clock i` is its reading number i. The literals of floats, given in hundredths, and
-- what serde_json and blake3 return are arguments. `json!` sorts the keys of an object.
pub mod Hooks
pub mod Logs
pub mod Matching
pub mod Tests
use sovereign_event_bus.Base.{ℕ, some, none, Option, Bool, true, if◌then◌else◌, ◌++◌}
use sovereign_event_bus.Base.Text.{Text, codes}
use sovereign_event_bus.Base.Text.Slices.{decimal}
use sovereign_event_bus.Base.Json.{Json, number, hundredths, text, boolean, object, field, end}
use sovereign_event_bus.Reasoning.A2aProtocol.{
  A2aProtocolHandler, emit_trace_start, emit_trace_complete,
}
use sovereign_event_bus.Reasoning.A2aProtocol
use sovereign_event_bus.Reasoning.Trace.{
  ReasoningStep, retrieve, verify_step, check_authorization, conclude, ReasoningTrace, set_query,
  add_step, finalize,
}
use sovereign_event_bus.Reasoning.Trace

-- What the traces of the hooks are made with.
pub record Codec (F64 : Type 0) : Type 0 where
  pub literal : ℕ → F64
  pub step_json : ReasoningStep F64 → Text
  pub trace_json : ReasoningTrace F64 → Text
  pub blake3_hex : Text → Text

pub record L1KernelIntegration : Type 0 where
  pub protocol_handler : A2aProtocolHandler

pub record L3PolicyIntegration : Type 0 where
  pub protocol_handler : A2aProtocolHandler

unfoldable pub new_l1 : Text → L1KernelIntegration
new_l1 agent_id = record { protocol_handler = A2aProtocol.new agent_id }

unfoldable pub new_l3 : Text → L3PolicyIntegration
new_l3 agent_id = record { protocol_handler = A2aProtocol.new agent_id }

module _ {F64 : Type 0} (codec : Codec F64) (clock : ℕ → ℕ) where
  open codec use {literal, step_json, trace_json, blake3_hex}

  unfoldable pub append_trace : (offset : ℕ) (event_hash : Text) → ReasoningTrace F64
  append_trace offset event_hash =
      add_step step_json blake3_hex (clock 2)
        (retrieve (codes "L1::WAL") (codes "offset_" ++ decimal offset) (
          object (
            field (codes "hash") (text event_hash) (
              field (codes "offset") (number offset)
                (field (codes "timestamp") (number (clock 1)) end)))))
        (set_query (codes "append offset " ++ decimal offset)
          (Trace.new (clock 0) (codes "kernel_001") (codes "append") 1))

  unfoldable pub on_kernel_append :
      (offset : ℕ) (event_hash : Text) → L1KernelIntegration → L1KernelIntegration
  on_kernel_append offset event_hash l1 =
      let (trace, trace_id) = finalize trace_json blake3_hex (append_trace offset event_hash) in
      record l1 {
        protocol_handler =
            emit_trace_start (clock 3) (codes "append") trace_id trace.initiating_query
              l1.protocol_handler;
      }

  unfoldable pub commit_trace : (offset : ℕ) → ReasoningTrace F64
  commit_trace offset =
      add_step step_json blake3_hex (clock 1)
        (check_authorization (codes "kernel") (codes "commit_offset")
          (codes "offset_" ++ decimal offset) true (codes "monotonic_and_valid"))
        (Trace.new (clock 0) (codes "kernel_001") (codes "commit") 2)

  unfoldable pub on_kernel_commit :
      (offset : ℕ) (tip_hash : Text) → L1KernelIntegration → L1KernelIntegration
  on_kernel_commit offset tip_hash l1 =
      let (trace, trace_id) = finalize trace_json blake3_hex (commit_trace offset) in
      record l1 {
        protocol_handler =
            emit_trace_complete (clock 2) trace_id 5 1 (some (hundredths 99)) l1.protocol_handler;
      }

  unfoldable pub rotate_trace : (segment_id : ℕ) → ReasoningTrace F64
  rotate_trace segment_id =
      add_step step_json blake3_hex (clock 2)
        (conclude (codes "Segment rotated successfully") (literal 100))
        (add_step step_json blake3_hex (clock 1)
          (verify_step (codes "segment_" ++ decimal segment_id) (codes "prev_hash_chain") true none)
          (Trace.new (clock 0) (codes "kernel_001") (codes "rotate") 3))

  unfoldable pub on_kernel_rotate :
      (segment_id : ℕ) (prev_hash : Text) → L1KernelIntegration → L1KernelIntegration
  on_kernel_rotate segment_id prev_hash l1 =
      let (trace, trace_id) = finalize trace_json blake3_hex (rotate_trace segment_id) in
      record l1 {
        protocol_handler =
            emit_trace_complete (clock 3) trace_id 10 2 (some (hundredths 100)) l1.protocol_handler;
      }

  unfoldable pub authorize_trace :
      (principal action resource : Text) (allowed : Bool) (reason : Text) → ReasoningTrace F64
  authorize_trace principal action resource allowed reason =
      add_step step_json blake3_hex (clock 3)
        (conclude (codes "Authorization: " ++ (if allowed then codes "ALLOW" else codes "DENY"))
          (literal 95))
        (add_step step_json blake3_hex (clock 2)
          (check_authorization principal action resource allowed reason)
          (add_step step_json blake3_hex (clock 1)
            (retrieve (codes "L3::Datalog") (codes "policy_" ++ action) (
              object (
                field (codes "action") (text action) (
                  field (codes "allowed") (boolean allowed)
                    (field (codes "principal") (text principal) end)))))
            (set_query
              (codes "authorize "
                ++ (principal ++ (codes " " ++ (action ++ (codes " " ++ resource)))))
              (Trace.new (clock 0) (codes "policy_001") (codes "authorize") 1))))

  unfoldable pub on_policy_authorize :
      (principal action resource : Text) (allowed : Bool) (reason : Text)
      → L3PolicyIntegration
      → L3PolicyIntegration
  on_policy_authorize principal action resource allowed reason l3 =
      let (trace, trace_id) =
        finalize trace_json blake3_hex (authorize_trace principal action resource allowed reason) in
      record l3 {
        protocol_handler =
            emit_trace_start (clock 4) (codes "authorize") trace_id trace.initiating_query
              l3.protocol_handler;
      }

  unfoldable pub anomaly_trace : (anomaly_type : Text) (details : Json) → ReasoningTrace F64
  anomaly_trace anomaly_type details =
      add_step step_json blake3_hex (clock 2)
        (conclude (codes "Anomaly detected: " ++ anomaly_type) (literal 85))
        (add_step step_json blake3_hex (clock 1)
          (retrieve (codes "L3::Anomaly") anomaly_type details)
          (Trace.new (clock 0) (codes "policy_001") (codes "anomaly") 2))

  unfoldable pub on_policy_anomaly :
      (anomaly_type : Text) (details : Json) → L3PolicyIntegration → L3PolicyIntegration
  on_policy_anomaly anomaly_type details l3 =
      let (trace, trace_id) = finalize trace_json blake3_hex (anomaly_trace anomaly_type details) in
      record l3 {
        protocol_handler =
            emit_trace_complete (clock 3) trace_id 15 2 (some (hundredths 85)) l3.protocol_handler;
      }
