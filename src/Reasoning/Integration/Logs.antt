-- ===== src/Reasoning/Integration/Logs.antt =====
-- What the log of the protocol handler says of the traces that are started and completed.
use sovereign_event_bus.Base.{
  nat_eq, ◌≡◌, refl, ap, sym, ◌∙◌, Option, none, some, if◌then◌else◌, Bool-cases, inl, inr, List,
  [], ◌∷◌, ◌++◌, append-nil, append_assoc, ◌==◌,
}
use sovereign_event_bus.Base.Text.{Text, codes, text_eq}
use sovereign_event_bus.Base.Json.{Json, text, object, Fields, end, field}
use sovereign_event_bus.Reasoning.A2aProtocol.{
  ReasoningEventType, trace_start, trace_complete, as_u16, A2aReasoningEvent, new_event,
  with_trace_start, with_step, with_challenge, with_composition, A2aProtocolHandler, push_event,
  emit_trace_start, emit_step, emit_trace_complete, emit_challenge, emit_composition, get_events,
}
use sovereign_event_bus.Reasoning.A2aProtocol
use sovereign_event_bus.Reasoning.A2aProtocol.Emissions.{
  emit, emit_all, Emission, starts, steps, completes, challenges_trace, composes,
}

-- The traces that are started, and those that are completed, by a list of emissions.
abbrev pub started : List Emission → List Text
started [] = []
started (starts now competency trace_id query ∷ ops) = trace_id ∷ started ops
started (_ ∷ ops) = started ops

abbrev pub completed : List Emission → List Text
completed [] = []
completed (completes now trace_id duration_ms step_count confidence ∷ ops) =
    trace_id ∷ completed ops
completed (_ ∷ ops) = completed ops

abbrev as_text : Json → Option Text
as_text (text t) = some t
as_text _ = none

abbrev text_field : Text → Fields → Option Text
text_field key end = none
text_field key (field k v rest) = if k == key then as_text v else text_field key rest

-- The identifier of the trace that an event is about.
abbrev id_in : Json → Option Text
id_in (object fields) = text_field (codes "trace_id") fields
id_in _ = none

abbrev in_front : Option Text → List Text → List Text
in_front none ids = ids
in_front (some id) ids = id ∷ ids

-- The traces that the events of a type are about.
abbrev pub named_in : ReasoningEventType → List A2aReasoningEvent → List Text
named_in t [] = []
named_in t (e ∷ es) =
    if e.event_type == as_u16 t then in_front (id_in e.payload) (named_in t es) else named_in t es

in_front-append :
    (o : Option Text) (ids more : List Text) → in_front o (ids ++ more) ≡ in_front o ids ++ more
in_front-append none ids more = refl
in_front-append (some id) ids more = refl

pub named_in-append :
    (t : ReasoningEventType) (es fs : List A2aReasoningEvent)
    → named_in t (es ++ fs) ≡ named_in t es ++ named_in t fs
named_in-append t [] fs = refl
named_in-append t (e ∷ es) fs = elim (Bool-cases (e.event_type == as_u16 t)) [
  | inl same ↦ rw (same, named_in-append t es fs, in_front-append (id_in e.payload) (named_in t es))
  | inr other ↦ rw other (named_in-append t es fs)
]

module _ (to_string : Json → Text) (blake3_hex : Text → Text) where
  -- One emission adds what it starts and what it completes.
  named_in-emit :
      (op : Emission) (h : A2aProtocolHandler)
      → (named_in trace_start (emit to_string blake3_hex op h).event_log
          ≡ named_in trace_start h.event_log ++ started (op ∷ []))
        × (named_in trace_complete (emit to_string blake3_hex op h).event_log
            ≡ named_in trace_complete h.event_log ++ completed (op ∷ []))
  unfolding emit emit_trace_start emit_step emit_trace_complete emit_challenge emit_composition
      with_trace_start with_step with_challenge with_composition new_event push_event as_u16
      A2aProtocol.trace_start_value A2aProtocol.trace_complete_value
  named_in-emit (starts now competency trace_id query) h =
      (named_in-append trace_start h.event_log _, named_in-append trace_complete h.event_log _)
  named_in-emit (steps now trace_id step_index step_json) h =
      (named_in-append trace_start h.event_log _, named_in-append trace_complete h.event_log _)
  named_in-emit (completes now trace_id duration_ms step_count confidence) h =
      (named_in-append trace_start h.event_log _, named_in-append trace_complete h.event_log _)
  named_in-emit (challenges_trace uuid now target evidence step_index) h =
      (named_in-append trace_start h.event_log _, named_in-append trace_complete h.event_log _)
  named_in-emit (composes now trace_id sub_trace_ids rule) h =
      (named_in-append trace_start h.event_log _, named_in-append trace_complete h.event_log _)

  started-cons :
      (op : Emission) (ops : List Emission) → started (op ∷ ops) ≡ started (op ∷ []) ++ started ops
  started-cons (starts now competency trace_id query) ops = refl
  started-cons (steps now trace_id step_index step_json) ops = refl
  started-cons (completes now trace_id duration_ms step_count confidence) ops = refl
  started-cons (challenges_trace uuid now target evidence step_index) ops = refl
  started-cons (composes now trace_id sub_trace_ids rule) ops = refl

  completed-cons :
      (op : Emission) (ops : List Emission)
      → completed (op ∷ ops) ≡ completed (op ∷ []) ++ completed ops
  completed-cons (starts now competency trace_id query) ops = refl
  completed-cons (steps now trace_id step_index step_json) ops = refl
  completed-cons (completes now trace_id duration_ms step_count confidence) ops = refl
  completed-cons (challenges_trace uuid now target evidence step_index) ops = refl
  completed-cons (composes now trace_id sub_trace_ids rule) ops = refl

  pub named_in-emit_all :
      (ops : List Emission) (h : A2aProtocolHandler)
      → (named_in trace_start (emit_all to_string blake3_hex ops h).event_log
          ≡ named_in trace_start h.event_log ++ started ops)
        × (named_in trace_complete (emit_all to_string blake3_hex ops h).event_log
            ≡ named_in trace_complete h.event_log ++ completed ops)
  unfolding emit_all
  named_in-emit_all [] h = (
    sym (append-nil (named_in trace_start h.event_log)),
    sym (append-nil (named_in trace_complete h.event_log)),
  )
  named_in-emit_all (op ∷ ops) h =
      let (here, here') = named_in-emit op h in
      let (rest, rest') = named_in-emit_all ops (emit to_string blake3_hex op h) in
      (
        rest
            ∙ ap (λ (l : List Text). l ++ started ops) here
            ∙ append_assoc (named_in trace_start h.event_log) (started (op ∷ [])) (started ops)
            ∙ ap (λ (l : List Text). named_in trace_start h.event_log ++ l)
                (sym (started-cons op ops)),
        rest'
            ∙ ap (λ (l : List Text). l ++ completed ops) here'
            ∙ append_assoc (named_in trace_complete h.event_log) (completed (op ∷ []))
                (completed ops)
            ∙ ap (λ (l : List Text). named_in trace_complete h.event_log ++ l)
                (sym (completed-cons op ops)),
      )
