-- ===== src/Reasoning/Integration/Matching.antt =====
-- The traces that the hooks of integration.rs start, and those that they complete.
use sovereign_event_bus.Base.{
  nat_eq, ◌≡◌, ◌≢◌, refl, ap, sym, ◌∙◌, Bool, true, false, ◌||◌, List, [], ◌∷◌, ◌++◌, map, All,
  All-append, ◌==◌,
}
use sovereign_event_bus.Base.Text.{Text, codes, text_eq}
use sovereign_event_bus.Base.Json.{Json}
use sovereign_event_bus.Reasoning.A2aProtocol.{
  ReasoningEventType, trace_start, trace_complete, as_u16, A2aReasoningEvent, new_event,
  with_trace_start, with_step, with_challenge, with_composition, A2aProtocolHandler, push_event,
  emit_trace_start, emit_step, emit_trace_complete, emit_challenge, emit_composition, get_events,
}
use sovereign_event_bus.Reasoning.A2aProtocol
use sovereign_event_bus.Reasoning.A2aProtocol.Emissions.{
  emit_all, Emission, starts, steps, completes, challenges_trace, composes,
}
use sovereign_event_bus.Reasoning.Trace.{ReasoningTrace, new, add_step, set_query}
use sovereign_event_bus.Reasoning.Integration.{
  Codec, new_l1, new_l3, append_trace, commit_trace, rotate_trace, authorize_trace, anomaly_trace,
}
use sovereign_event_bus.Reasoning.Integration.Hooks.{
  KernelCall, appends, commits, rotates, PolicyCall, authorizes, reports, kernel_emission,
  policy_emission, id_of, call_kernel_all, call_policy_all, call_kernel_all-emit_all,
  call_policy_all-emit_all,
}
use sovereign_event_bus.Reasoning.Integration.Logs.{
  started, completed, named_in, named_in-append, named_in-emit_all,
}

-- The competencies of the traces whose start is emitted.
abbrev opens : Text → Bool
opens competency = competency == codes "append" || competency == codes "authorize"

module _ {F64 : Type 0} (codec : Codec F64) where
  -- Traces of different competencies have different identifiers.
  abbrev pub Separates : Type 0
  Separates =
      (t u : ReasoningTrace F64) → id_of codec t ≡ id_of codec u → t.competency ≡ u.competency

  -- An identifier of a trace whose competency is, or is not, one of those that are started.
  abbrev Names : Bool → Text → Type 0
  Names opened id = (t : ReasoningTrace F64) × (id_of codec t ≡ id) × (opens t.competency ≡ opened)

  abbrev Marked : Emission → Type 0
  Marked (starts now competency trace_id query) = Names true trace_id
  Marked (steps now trace_id step_index step_json) = Unit
  Marked (completes now trace_id duration_ms step_count confidence) = Names false trace_id
  Marked (challenges_trace uuid now target evidence step_index) = Unit
  Marked (composes now trace_id sub_trace_ids rule) = Unit

  kernel_emissions-Marked : (cs : List KernelCall) → All Marked (map (kernel_emission codec) cs)
  unfolding kernel_emission append_trace commit_trace rotate_trace add_step set_query new
  kernel_emissions-Marked [] = tt
  kernel_emissions-Marked (appends clock offset event_hash ∷ cs) =
      ((_, refl, refl), kernel_emissions-Marked cs)
  kernel_emissions-Marked (commits clock offset tip_hash ∷ cs) =
      ((_, refl, refl), kernel_emissions-Marked cs)
  kernel_emissions-Marked (rotates clock segment_id prev_hash ∷ cs) =
      ((_, refl, refl), kernel_emissions-Marked cs)

  policy_emissions-Marked : (ps : List PolicyCall) → All Marked (map (policy_emission codec) ps)
  unfolding policy_emission authorize_trace anomaly_trace add_step set_query new
  policy_emissions-Marked [] = tt
  policy_emissions-Marked (authorizes clock principal action resource allowed reason ∷ ps) =
      ((_, refl, refl), policy_emissions-Marked ps)
  policy_emissions-Marked (reports clock anomaly_type details ∷ ps) =
      ((_, refl, refl), policy_emissions-Marked ps)

  Marked-parts :
      (ops : List Emission)
      → All Marked ops
      → All (Names true) (started ops) × All (Names false) (completed ops)
  Marked-parts [] h = (tt, tt)
  Marked-parts (starts now competency trace_id query ∷ ops) h =
      let (left, right) = Marked-parts ops h.1 in ((h.0, left), right)
  Marked-parts (steps now trace_id step_index step_json ∷ ops) h = Marked-parts ops h.1
  Marked-parts (completes now trace_id duration_ms step_count confidence ∷ ops) h =
      let (left, right) = Marked-parts ops h.1 in (left, (h.0, right))
  Marked-parts (challenges_trace uuid now target evidence step_index ∷ ops) h = Marked-parts ops h.1
  Marked-parts (composes now trace_id sub_trace_ids rule ∷ ops) h = Marked-parts ops h.1

  -- What the two layers have written to their logs.
  abbrev pub log_of :
      List KernelCall → List PolicyCall → (agent_id other_agent_id : Text) → List A2aReasoningEvent
  log_of cs ps agent_id other_agent_id =
      get_events (call_kernel_all codec cs (new_l1 agent_id)).protocol_handler
      ++ get_events (call_policy_all codec ps (new_l3 other_agent_id)).protocol_handler

  module _ (apart : Separates) where
    Names-apart : (s d : Text) → Names true s → Names false d → s ≢ d
    Names-apart s d (t, named, opened) (u, other, shut) e =
        let same = apart t u (named ∙ e ∙ sym other) in
        let both : true ≡ false = sym opened ∙ ap opens same ∙ shut in cc

    apart_from_each :
        (s : Text) (ds : List Text) → Names true s → All (Names false) ds → All (λ d. s ≢ d) ds
    apart_from_each s [] n h = tt
    apart_from_each s (d ∷ ds) n h = (Names-apart s d n h.0, apart_from_each s ds n h.1)

    every_apart :
        (ss ds : List Text)
        → All (Names true) ss
        → All (Names false) ds
        → All (λ s. All (λ d. s ≢ d) ds) ss
    every_apart [] ds h k = tt
    every_apart (s ∷ ss) ds h k = (apart_from_each s ds h.0 k, every_apart ss ds h.1 k)

    -- Where traces of different competencies have different identifiers, no trace whose start a hook
    -- of L1 or L3 writes to the log of its layer has an end in the log of either layer, whatever
    -- hooks are called before or after it.
    pub started-completed :
        (cs : List KernelCall) (ps : List PolicyCall) (agent_id other_agent_id : Text)
        → All
            (λ s. All (λ d. s ≢ d) (named_in trace_complete (log_of cs ps agent_id other_agent_id)))
            (named_in trace_start (log_of cs ps agent_id other_agent_id))
    unfolding new_l1 new_l3 get_events A2aProtocol.new
    started-completed cs ps agent_id other_agent_id =
        let show : Json → Text = λ j. [] in
        let ops = map (kernel_emission codec) cs in
        let ops' = map (policy_emission codec) ps in
        let log = (emit_all show codec.blake3_hex ops (A2aProtocol.new agent_id)).event_log in
        let log' =
          (emit_all show codec.blake3_hex ops' (A2aProtocol.new other_agent_id)).event_log in
        let (starts_here, ends_here) =
          named_in-emit_all show codec.blake3_hex ops (A2aProtocol.new agent_id) in
        let (starts_there, ends_there) =
          named_in-emit_all show codec.blake3_hex ops' (A2aProtocol.new other_agent_id) in
        let (left, right) = Marked-parts ops (kernel_emissions-Marked cs) in
        let (left', right') = Marked-parts ops' (policy_emissions-Marked ps) in
        rw
          (
            call_kernel_all-emit_all codec show cs (new_l1 agent_id),
            call_policy_all-emit_all codec show ps (new_l3 other_agent_id),
            named_in-append trace_start log log',
            named_in-append trace_complete log log',
            starts_here,
            ends_here,
            starts_there,
            ends_there,
          )
          (every_apart (started ops ++ started ops') (completed ops ++ completed ops')
            (All-append (Names true) (started ops) (started ops') left left')
            (All-append (Names false) (completed ops) (completed ops') right right'))
