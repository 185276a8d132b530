-- ===== src/Reasoning/A2aProtocol.antt =====
-- seb/reasoning/src/a2a_protocol.rs: the events that agents send each other, the partitions of the
-- bus that they go to, and the handler that logs what an agent emits. The clock, the fresh
-- identifiers, the text of a JSON value and blake3 are arguments. A derived `Serialize` makes the
-- object of the fields, in their order; a float stands as its JSON value.
pub mod Partitions
pub mod Emissions
pub mod Tests
use sovereign_event_bus.Base.{
  ℕ, nat_eq, ◌==◌, Option, none, some, Bool, true, false, List, [], ◌∷◌, ◌++◌, if◌then◌else◌, keep,
  is_empty, not, ◌&&◌,
}
use sovereign_event_bus.Base.Text.{Text, codes, text_eq, starts_with, strip_prefix}
use sovereign_event_bus.Base.Json.{Json, number, text, array, object, field, end, texts, optional}

pub data ReasoningEventType : Type 0 where
  trace_start step trace_complete challenge composition query response : ReasoningEventType

unfoldable pub as_u16 : ReasoningEventType → ℕ
as_u16 trace_start = 0x0300
as_u16 step = 0x0301
as_u16 trace_complete = 0x0302
as_u16 challenge = 0x0303
as_u16 composition = 0x0304
as_u16 query = 0x0305
as_u16 response = 0x0306

unfoldable pub from_u16 : ℕ → Option ReasoningEventType
from_u16 val =
    if val == 0x0300
    then some trace_start
    else if val == 0x0301
    then some step
    else if val == 0x0302
    then some trace_complete
    else if val == 0x0303
    then some challenge
    else if val == 0x0304
    then some composition
    else if val == 0x0305
    then some query
    else if val == 0x0306
    then some response
    else none

pub data ReasoningPartition : Type 0 where
  agent_traces : Text → ReasoningPartition
  challenges compositions queries : ReasoningPartition

unfoldable pub path : ReasoningPartition → Text
path (agent_traces agent_id) = codes "reasoning/" ++ agent_id
path challenges = codes "reasoning/challenges"
path compositions = codes "reasoning/compositions"
path queries = codes "reasoning/queries"

-- What stands behind the prefix, if it is the name of an agent.
unfoldable pub agent_partition : Text → Option ReasoningPartition
agent_partition agent_id =
    if not (is_empty agent_id)
      && (not (agent_id == codes "challenges")
          && (not (agent_id == codes "compositions") && not (agent_id == codes "queries")))
    then some (agent_traces agent_id)
    else none

-- The `?` behind `strip_prefix`.
unfoldable pub behind_prefix : Option Text → Option ReasoningPartition
unfolding agent_partition
behind_prefix none = none
behind_prefix (some agent_id) = agent_partition agent_id

unfoldable pub from_path : Text → Option ReasoningPartition
from_path p =
    if p == codes "reasoning/challenges"
    then some challenges
    else if p == codes "reasoning/compositions"
    then some compositions
    else if p == codes "reasoning/queries"
    then some queries
    else if starts_with p (codes "reasoning/")
    then behind_prefix (strip_prefix p (codes "reasoning/"))
    else none

pub record TraceStartPayload : Type 0 where
  pub trace_id : Text
  pub agent_id : Text
  pub competency : Text
  pub query_text : Option Text

pub record StepPayload : Type 0 where
  pub trace_id : Text
  pub step_index : ℕ
  pub step_json : Json
  pub step_hash : Text

pub record TraceCompletePayload : Type 0 where
  pub trace_id : Text
  pub duration_ms : ℕ
  pub step_count : ℕ
  pub confidence : Option Json

pub record ChallengePayload : Type 0 where
  pub challenge_trace_id : Text
  pub target_trace_id : Text
  pub target_step_index : Option ℕ
  pub counter_evidence : Text

pub record CompositionPayload : Type 0 where
  pub composition_trace_id : Text
  pub sub_trace_ids : List Text
  pub composition_rule : Text

unfoldable pub trace_start_value : TraceStartPayload → Json
trace_start_value p = object (
    field (codes "trace_id") (text p.trace_id) (
      field (codes "agent_id") (text p.agent_id) (
        field (codes "competency") (text p.competency)
          (field (codes "query") (optional text p.query_text) end))))

unfoldable pub step_value : StepPayload → Json
step_value p = object (
    field (codes "trace_id") (text p.trace_id) (
      field (codes "step_index") (number p.step_index)
        (field (codes "step_json") p.step_json (field (codes "step_hash") (text p.step_hash) end))))

unfoldable pub trace_complete_value : TraceCompletePayload → Json
trace_complete_value p = object (
    field (codes "trace_id") (text p.trace_id) (
      field (codes "duration_ms") (number p.duration_ms) (
        field (codes "step_count") (number p.step_count)
          (field (codes "confidence") (optional (λ j. j) p.confidence) end))))

unfoldable pub challenge_value : ChallengePayload → Json
challenge_value p = object (
    field (codes "challenge_trace_id") (text p.challenge_trace_id) (
      field (codes "target_trace_id") (text p.target_trace_id) (
        field (codes "target_step_index") (optional number p.target_step_index)
          (field (codes "counter_evidence") (text p.counter_evidence) end))))

unfoldable pub composition_value : CompositionPayload → Json
composition_value p = object (
    field (codes "composition_trace_id") (text p.composition_trace_id) (
      field (codes "sub_trace_ids") (array (texts p.sub_trace_ids))
        (field (codes "composition_rule") (text p.composition_rule) end)))

pub record A2aReasoningEvent : Type 0 where
  pub event_type : ℕ
  pub timestamp : ℕ
  pub partition : Text
  pub payload : Json

unfoldable pub new_event : ℕ → ReasoningEventType → ReasoningPartition → A2aReasoningEvent
new_event now event_type partition = record {
  event_type = as_u16 event_type;
  timestamp = now;
  partition = path partition;
  payload = object end;
}

unfoldable pub with_trace_start : ℕ → Text → Text → Text → Option Text → A2aReasoningEvent
with_trace_start now agent_id competency trace_id query_text =
    record (new_event now trace_start (agent_traces agent_id)) {
      payload = trace_start_value (record {
        trace_id = trace_id;
        agent_id = agent_id;
        competency = competency;
        query_text = query_text;
      });
    }

-- The steps of all agents go to the partition of the queries.
unfoldable pub with_step :
    (to_string : Json → Text) (blake3_hex : Text → Text) → ℕ → Text → ℕ → Json → A2aReasoningEvent
with_step to_string blake3_hex now trace_id step_index step_json =
    record (new_event now step queries) {
      payload = step_value (record {
        trace_id = trace_id;
        step_index = step_index;
        step_json = step_json;
        step_hash = blake3_hex (to_string step_json);
      });
    }

unfoldable pub with_challenge : (uuid : Text) → ℕ → Text → Text → Option ℕ → A2aReasoningEvent
with_challenge uuid now target_trace_id counter_evidence target_step_index =
    record (new_event now challenge challenges) {
      payload = challenge_value (record {
        challenge_trace_id = uuid;
        target_trace_id = target_trace_id;
        target_step_index = target_step_index;
        counter_evidence = counter_evidence;
      });
    }

unfoldable pub with_composition : ℕ → Text → List Text → Text → A2aReasoningEvent
with_composition now composition_trace_id sub_trace_ids composition_rule =
    record (new_event now composition compositions) {
      payload = composition_value (record {
        composition_trace_id = composition_trace_id;
        sub_trace_ids = sub_trace_ids;
        composition_rule = composition_rule;
      });
    }

pub record A2aProtocolHandler : Type 0 where
  pub agent_id : Text
  pub event_log : List A2aReasoningEvent

unfoldable pub new : Text → A2aProtocolHandler
new agent_id = record { agent_id = agent_id; event_log = [] }

-- `log.push(event)` under the lock of the log.
unfoldable pub push_event : A2aReasoningEvent → A2aProtocolHandler → A2aProtocolHandler
push_event event h = record h { event_log = h.event_log ++ event ∷ [] }

unfoldable pub emit_trace_start :
    ℕ → Text → Text → Option Text → A2aProtocolHandler → A2aProtocolHandler
emit_trace_start now competency trace_id query_text h =
    push_event (with_trace_start now h.agent_id competency trace_id query_text) h

unfoldable pub emit_step :
    (to_string : Json → Text) (blake3_hex : Text → Text)
    → ℕ
    → Text
    → ℕ
    → Json
    → A2aProtocolHandler
    → A2aProtocolHandler
emit_step to_string blake3_hex now trace_id step_index step_json h =
    push_event (with_step to_string blake3_hex now trace_id step_index step_json) h

unfoldable pub emit_trace_complete :
    ℕ → Text → ℕ → ℕ → Option Json → A2aProtocolHandler → A2aProtocolHandler
emit_trace_complete now trace_id duration_ms step_count confidence h =
    push_event
      (record (new_event now trace_complete (agent_traces h.agent_id)) {
        payload = trace_complete_value (record {
          trace_id = trace_id;
          duration_ms = duration_ms;
          step_count = step_count;
          confidence = confidence;
        });
      })
      h

unfoldable pub emit_challenge :
    (uuid : Text) → ℕ → Text → Text → Option ℕ → A2aProtocolHandler → A2aProtocolHandler
emit_challenge uuid now target_trace_id counter_evidence target_step_index h =
    push_event (with_challenge uuid now target_trace_id counter_evidence target_step_index) h

unfoldable pub emit_composition :
    ℕ → Text → List Text → Text → A2aProtocolHandler → A2aProtocolHandler
emit_composition now composition_trace_id sub_trace_ids composition_rule h =
    push_event (with_composition now composition_trace_id sub_trace_ids composition_rule) h

unfoldable pub get_events : A2aProtocolHandler → List A2aReasoningEvent
get_events h = h.event_log

unfoldable pub get_events_by_partition :
    A2aProtocolHandler → ReasoningPartition → List A2aReasoningEvent
get_events_by_partition h partition = keep (λ e. e.partition == path partition) h.event_log

unfoldable pub get_events_by_type : A2aProtocolHandler → ReasoningEventType → List A2aReasoningEvent
get_events_by_type h event_type = keep (λ e. e.event_type == as_u16 event_type) h.event_log
