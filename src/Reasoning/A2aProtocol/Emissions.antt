-- ===== src/Reasoning/A2aProtocol/Emissions.antt =====
-- What the log of a2a_protocol.rs holds after a sequence of emissions.
use sovereign_event_bus.Base.{
  ℕ, nat_eq, ◌==◌, ◌≡◌, refl, ap, sym, ◌∙◌, Option, Bool, true, false, List, [], ◌∷◌, ◌++◌, map,
  map-append, keep, ==_refl, arith, append-nil, append_assoc,
}
use sovereign_event_bus.Base.Text.{Text, codes, text_eq, text_beq}
use sovereign_event_bus.Base.Json.{Json}
use sovereign_event_bus.Reasoning.A2aProtocol.{
  ReasoningEventType, trace_start, step, trace_complete, challenge, composition, as_u16,
  ReasoningPartition, agent_traces, challenges, compositions, queries, path, A2aReasoningEvent,
  new_event, with_trace_start, with_step, with_challenge, with_composition, A2aProtocolHandler, new,
  push_event, emit_trace_start, emit_step, emit_trace_complete, emit_challenge, emit_composition,
  get_events, get_events_by_partition,
}
use sovereign_event_bus.Reasoning.A2aProtocol.Partitions.{IsOwn, text_beq-false}

-- A call of the handler with its arguments.
pub data Emission : Type 0 where
  starts : ℕ → Text → Text → Option Text → Emission
  steps : ℕ → Text → ℕ → Json → Emission
  completes : ℕ → Text → ℕ → ℕ → Option Json → Emission
  challenges_trace : Text → ℕ → Text → Text → Option ℕ → Emission
  composes : ℕ → Text → List Text → Text → Emission

unfoldable pub type_of : Emission → ReasoningEventType
type_of (starts now competency trace_id query_text) = trace_start
type_of (steps now trace_id step_index step_json) = step
type_of (completes now trace_id duration_ms step_count confidence) = trace_complete
type_of (challenges_trace uuid now target evidence step_index) = challenge
type_of (composes now trace_id sub_trace_ids rule) = composition

-- Where an emission goes: starts and ends to the agent's own partition, steps to the queries.
unfoldable pub home : Text → Emission → ReasoningPartition
home agent_id (starts now competency trace_id query_text) = agent_traces agent_id
home agent_id (steps now trace_id step_index step_json) = queries
home agent_id (completes now trace_id duration_ms step_count confidence) = agent_traces agent_id
home agent_id (challenges_trace uuid now target evidence step_index) = challenges
home agent_id (composes now trace_id sub_trace_ids rule) = compositions

abbrev pub stamp : A2aReasoningEvent → ℕ × Text
stamp e = (e.event_type, e.partition)

module _ (to_string : Json → Text) (blake3_hex : Text → Text) where
  unfoldable pub emit : Emission → A2aProtocolHandler → A2aProtocolHandler
  emit (starts now competency trace_id query_text) h =
      emit_trace_start now competency trace_id query_text h
  emit (steps now trace_id step_index step_json) h =
      emit_step to_string blake3_hex now trace_id step_index step_json h
  emit (completes now trace_id duration_ms step_count confidence) h =
      emit_trace_complete now trace_id duration_ms step_count confidence h
  emit (challenges_trace uuid now target evidence step_index) h =
      emit_challenge uuid now target evidence step_index h
  emit (composes now trace_id sub_trace_ids rule) h =
      emit_composition now trace_id sub_trace_ids rule h

  unfoldable pub emit_all : List Emission → A2aProtocolHandler → A2aProtocolHandler
  emit_all [] h = h
  emit_all (op ∷ ops) h = emit_all ops (emit op h)

  emit-event :
      (op : Emission) (h : A2aProtocolHandler)
      → (e : A2aReasoningEvent) × (emit op h ≡ push_event e h)
        × (stamp e ≡ (as_u16 (type_of op), path (home h.agent_id op)))
  unfolding emit type_of home emit_trace_start emit_step emit_trace_complete emit_challenge
      emit_composition with_trace_start with_step with_challenge with_composition new_event
  emit-event (starts now competency trace_id query_text) h = (_, refl, refl)
  emit-event (steps now trace_id step_index step_json) h = (_, refl, refl)
  emit-event (completes now trace_id duration_ms step_count confidence) h = (_, refl, refl)
  emit-event (challenges_trace uuid now target evidence step_index) h = (_, refl, refl)
  emit-event (composes now trace_id sub_trace_ids rule) h = (_, refl, refl)

  emit_all-stamps :
      (ops : List Emission) (h : A2aProtocolHandler)
      → ((emit_all ops h).agent_id ≡ h.agent_id)
        × (map stamp (emit_all ops h).event_log
            ≡ map stamp h.event_log
              ++ map (λ op. (as_u16 (type_of op), path (home h.agent_id op))) ops)
  unfolding emit_all push_event
  emit_all-stamps [] h = (refl, sym (append-nil (map stamp h.event_log)))
  emit_all-stamps (op ∷ ops) h =
      let (e, made, mark) = emit-event op h in
      let (same, rest) = emit_all-stamps ops (push_event e h) in
      rw (emit_all, made)
        (
          same,
          rw (
            rest,
            map-append stamp h.event_log (e ∷ []),
            append_assoc (map stamp h.event_log) (stamp e ∷ [])
                (map (λ o. (as_u16 (type_of o), path (home h.agent_id o))) ops),
            mark,
          ),
        )

  -- The log of a new handler has one event for each emission, in their order, with the code of its
  -- type and the path of its partition: the agent's own one for the start and the end of a trace,
  -- the one of the queries for a step, the global ones for a challenge and a composition.
  pub get_events-emit_all :
      (ops : List Emission) (agent_id : Text)
      → map stamp (get_events (emit_all ops (new agent_id)))
        ≡ map (λ op. (as_u16 (type_of op), path (home agent_id op))) ops
  unfolding get_events new
  get_events-emit_all ops agent_id = (emit_all-stamps ops (new agent_id)).1

-- Whether an emission is the start or the end of a trace.
abbrev pub is_bound : Emission → Bool
is_bound (starts now competency trace_id query_text) = true
is_bound (steps now trace_id step_index step_json) = false
is_bound (completes now trace_id duration_ms step_count confidence) = true
is_bound (challenges_trace uuid now target evidence step_index) = false
is_bound (composes now trace_id sub_trace_ids rule) = false

map-keep {ℓ κ} :
    {A : Type ℓ} {B : Type κ} (f : A → B) (p : B → Bool) (xs : List A)
    → map f (keep (λ x. p (f x)) xs) ≡ keep p (map f xs)
map-keep f p [] = refl
map-keep f p (x ∷ xs) = ground (arith, map-keep f p xs)

keep_same {ℓ} :
    {A : Type ℓ} (p q : A → Bool) (xs : List A) → ((x : A) → p x ≡ q x) → keep p xs ≡ keep q xs
keep_same p q [] same = refl
keep_same p q (x ∷ xs) same = ground (arith, same x, keep_same p q xs same)

home-is_bound :
    (agent_id : Text)
    → IsOwn (agent_traces agent_id)
    → (op : Emission)
    → text_beq (path (home agent_id op)) (path (agent_traces agent_id)) ≡ is_bound op
unfolding home path
home-is_bound agent_id own (starts now competency trace_id query_text) = ==_refl agent_id
home-is_bound agent_id own (steps now trace_id step_index step_json) =
    text_beq-false (codes "queries") agent_id (λ e. own.3 (sym e))
home-is_bound agent_id own (completes now trace_id duration_ms step_count confidence) =
    ==_refl agent_id
home-is_bound agent_id own (challenges_trace uuid now target evidence step_index) =
    text_beq-false (codes "challenges") agent_id (λ e. own.1 (sym e))
home-is_bound agent_id own (composes now trace_id sub_trace_ids rule) =
    text_beq-false (codes "compositions") agent_id (λ e. own.2 (sym e))

bound-marks :
    (agent_id : Text) (ops : List Emission)
    → map {B = ℕ × Text} (λ op. (as_u16 (type_of op), path (home agent_id op))) (keep is_bound ops)
      ≡ map {B = ℕ × Text}
          (λ op. (as_u16 (type_of op), path (agent_traces agent_id)))
          (keep is_bound ops)
unfolding home type_of
bound-marks agent_id [] = refl
bound-marks agent_id (starts now competency trace_id query_text ∷ ops) =
    ap (λ (l : List (ℕ × Text)). (as_u16 trace_start, path (agent_traces agent_id)) ∷ l)
      (bound-marks agent_id ops)
bound-marks agent_id (steps now trace_id step_index step_json ∷ ops) = bound-marks agent_id ops
bound-marks agent_id (completes now trace_id duration_ms step_count confidence ∷ ops) =
    ap (λ (l : List (ℕ × Text)). (as_u16 trace_complete, path (agent_traces agent_id)) ∷ l)
      (bound-marks agent_id ops)
bound-marks agent_id (challenges_trace uuid now target evidence step_index ∷ ops) =
    bound-marks agent_id ops
bound-marks agent_id (composes now trace_id sub_trace_ids rule ∷ ops) = bound-marks agent_id ops

module _ (to_string : Json → Text) (blake3_hex : Text → Text) where
  -- An agent with a name of its own finds in its own partition one event for each start and each
  -- end of a trace that it emitted, in their order and with the code of its type, and nothing else:
  -- none of the steps, which went to the partition of the queries.
  pub get_events_by_partition-emit_all :
      (ops : List Emission) (agent_id : Text)
      → IsOwn (agent_traces agent_id)
      → map stamp (
          get_events_by_partition
            (emit_all to_string blake3_hex ops (new agent_id))
            (agent_traces agent_id))
        ≡ map (λ op. (as_u16 (type_of op), path (agent_traces agent_id))) (keep is_bound ops)
  unfolding get_events_by_partition get_events
  get_events_by_partition-emit_all ops agent_id own =
      let h = emit_all to_string blake3_hex ops (new agent_id) in
      let mine : ℕ × Text → Bool = λ s. s.1 == path (agent_traces agent_id) in
      let marks : Emission → ℕ × Text = λ op. (as_u16 (type_of op), path (home agent_id op)) in
      map-keep stamp mine h.event_log
      ∙ ap (keep mine) (get_events-emit_all to_string blake3_hex ops agent_id)
      ∙ sym (map-keep marks mine ops)
      ∙ ap (map marks) (keep_same (λ op. mine (marks op)) is_bound ops (home-is_bound agent_id own))
      ∙ bound-marks agent_id ops
