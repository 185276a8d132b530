-- ===== src/Reasoning/Integration/Hooks.antt =====
-- What the hooks of integration.rs emit: each call is one emission of the protocol handler.
use sovereign_event_bus.Base.{ℕ, ◌≡◌, refl, ap, ap₂, ◌∙◌, some, Bool, List, [], ◌∷◌, map}
use sovereign_event_bus.Base.Text.{Text, codes}
use sovereign_event_bus.Base.Json.{Json, hundredths}
use sovereign_event_bus.Reasoning.A2aProtocol.{
  ReasoningEventType, trace_start, trace_complete, as_u16, agent_traces, path, get_events,
}
use sovereign_event_bus.Reasoning.A2aProtocol.Emissions.{
  Emission, starts, completes, emit, emit_all, stamp, type_of, home, get_events-emit_all,
}
use sovereign_event_bus.Reasoning.Trace.{ReasoningTrace, finalize}
use sovereign_event_bus.Reasoning.Integration.{
  Codec, L1KernelIntegration, L3PolicyIntegration, new_l1, new_l3, append_trace, on_kernel_append,
  commit_trace, on_kernel_commit, rotate_trace, on_kernel_rotate, authorize_trace,
  on_policy_authorize, anomaly_trace, on_policy_anomaly,
}

-- A call of a hook of L1 with the readings of the clock during it.
pub data KernelCall : Type 0 where
  appends : (clock : ℕ → ℕ) (offset : ℕ) (event_hash : Text) → KernelCall
  commits : (clock : ℕ → ℕ) (offset : ℕ) (tip_hash : Text) → KernelCall
  rotates : (clock : ℕ → ℕ) (segment_id : ℕ) (prev_hash : Text) → KernelCall

pub data PolicyCall : Type 0 where
  authorizes :
      (clock : ℕ → ℕ) (principal action resource : Text) (allowed : Bool) (reason : Text)
      → PolicyCall
  reports : (clock : ℕ → ℕ) (anomaly_type : Text) (details : Json) → PolicyCall

unfoldable pub kernel_type : KernelCall → ReasoningEventType
kernel_type (appends clock offset event_hash) = trace_start
kernel_type (commits clock offset tip_hash) = trace_complete
kernel_type (rotates clock segment_id prev_hash) = trace_complete

unfoldable pub policy_type : PolicyCall → ReasoningEventType
policy_type (authorizes clock principal action resource allowed reason) = trace_start
policy_type (reports clock anomaly_type details) = trace_complete

-- The type and the partition of an emission.
abbrev mark : Text → Emission → ℕ × Text
mark agent_id op = (as_u16 (type_of op), path (home agent_id op))

map_same {ℓ κ μ} :
    {A : Type ℓ} {B : Type κ} {C : Type μ} (f : B → C) (g : A → B) (h : A → C)
    → ((a : A) → f (g a) ≡ h a)
    → (xs : List A) → map f (map g xs) ≡ map h xs
map_same f g h same [] = refl
map_same f g h same (x ∷ xs) = ap₂ (◌∷◌) (same x) (map_same f g h same xs)

module _ {F64 : Type 0} (codec : Codec F64) where
  open codec use {trace_json, blake3_hex}

  unfoldable pub call_kernel : KernelCall → L1KernelIntegration → L1KernelIntegration
  call_kernel (appends clock offset event_hash) l1 =
      on_kernel_append codec clock offset event_hash l1
  call_kernel (commits clock offset tip_hash) l1 = on_kernel_commit codec clock offset tip_hash l1
  call_kernel (rotates clock segment_id prev_hash) l1 =
      on_kernel_rotate codec clock segment_id prev_hash l1

  unfoldable pub call_policy : PolicyCall → L3PolicyIntegration → L3PolicyIntegration
  call_policy (authorizes clock principal action resource allowed reason) l3 =
      on_policy_authorize codec clock principal action resource allowed reason l3
  call_policy (reports clock anomaly_type details) l3 =
      on_policy_anomaly codec clock anomaly_type details l3

  unfoldable pub call_kernel_all : List KernelCall → L1KernelIntegration → L1KernelIntegration
  call_kernel_all [] l1 = l1
  call_kernel_all (c ∷ cs) l1 = call_kernel_all cs (call_kernel c l1)

  unfoldable pub call_policy_all : List PolicyCall → L3PolicyIntegration → L3PolicyIntegration
  call_policy_all [] l3 = l3
  call_policy_all (c ∷ cs) l3 = call_policy_all cs (call_policy c l3)

  -- The identifier of a trace.
  abbrev pub id_of : ReasoningTrace F64 → Text
  id_of t = (finalize trace_json blake3_hex t).1

  unfoldable pub kernel_emission : KernelCall → Emission
  kernel_emission (appends clock offset event_hash) =
      let t = append_trace codec clock offset event_hash in
      starts (clock 3) (codes "append") (id_of t) t.initiating_query
  kernel_emission (commits clock offset tip_hash) =
      completes (clock 2) (id_of (commit_trace codec clock offset)) 5 1 (some (hundredths 99))
  kernel_emission (rotates clock segment_id prev_hash) =
      completes (clock 3) (id_of (rotate_trace codec clock segment_id)) 10 2 (some (hundredths 100))

  unfoldable pub policy_emission : PolicyCall → Emission
  policy_emission (authorizes clock principal action resource allowed reason) =
      let t = authorize_trace codec clock principal action resource allowed reason in
      starts (clock 4) (codes "authorize") (id_of t) t.initiating_query
  policy_emission (reports clock anomaly_type details) =
      completes (clock 3) (id_of (anomaly_trace codec clock anomaly_type details)) 15 2
        (some (hundredths 85))

  module _ (to_string : Json → Text) where
    call_kernel-emit :
        (c : KernelCall) (l1 : L1KernelIntegration)
        → (call_kernel c l1).protocol_handler
          ≡ emit to_string blake3_hex (kernel_emission c) l1.protocol_handler
    unfolding call_kernel kernel_emission emit on_kernel_append on_kernel_commit on_kernel_rotate
        finalize
    call_kernel-emit (appends clock offset event_hash) l1 = refl
    call_kernel-emit (commits clock offset tip_hash) l1 = refl
    call_kernel-emit (rotates clock segment_id prev_hash) l1 = refl

    pub call_kernel_all-emit_all :
        (cs : List KernelCall) (l1 : L1KernelIntegration)
        → (call_kernel_all cs l1).protocol_handler
          ≡ emit_all to_string blake3_hex (map kernel_emission cs) l1.protocol_handler
    unfolding call_kernel_all emit_all
    call_kernel_all-emit_all [] l1 = refl
    call_kernel_all-emit_all (c ∷ cs) l1 =
        call_kernel_all-emit_all cs (call_kernel c l1)
        ∙ ap (emit_all to_string blake3_hex (map kernel_emission cs)) (call_kernel-emit c l1)

    call_policy-emit :
        (c : PolicyCall) (l3 : L3PolicyIntegration)
        → (call_policy c l3).protocol_handler
          ≡ emit to_string blake3_hex (policy_emission c) l3.protocol_handler
    unfolding call_policy policy_emission emit on_policy_authorize on_policy_anomaly finalize
    call_policy-emit (authorizes clock principal action resource allowed reason) l3 = refl
    call_policy-emit (reports clock anomaly_type details) l3 = refl

    pub call_policy_all-emit_all :
        (cs : List PolicyCall) (l3 : L3PolicyIntegration)
        → (call_policy_all cs l3).protocol_handler
          ≡ emit_all to_string blake3_hex (map policy_emission cs) l3.protocol_handler
    unfolding call_policy_all emit_all
    call_policy_all-emit_all [] l3 = refl
    call_policy_all-emit_all (c ∷ cs) l3 =
        call_policy_all-emit_all cs (call_policy c l3)
        ∙ ap (emit_all to_string blake3_hex (map policy_emission cs)) (call_policy-emit c l3)

  kernel_emission-mark :
      (agent_id : Text) (c : KernelCall)
      → mark agent_id (kernel_emission c) ≡ (as_u16 (kernel_type c), path (agent_traces agent_id))
  unfolding kernel_emission type_of home kernel_type
  kernel_emission-mark agent_id (appends clock offset event_hash) = refl
  kernel_emission-mark agent_id (commits clock offset tip_hash) = refl
  kernel_emission-mark agent_id (rotates clock segment_id prev_hash) = refl

  policy_emission-mark :
      (agent_id : Text) (c : PolicyCall)
      → mark agent_id (policy_emission c) ≡ (as_u16 (policy_type c), path (agent_traces agent_id))
  unfolding policy_emission type_of home policy_type
  policy_emission-mark agent_id (authorizes clock principal action resource allowed reason) = refl
  policy_emission-mark agent_id (reports clock anomaly_type details) = refl

  -- The logs of L1 and L3 have one event for each call of a hook, in their order and in the partition
  -- of the agent that the layer was made for: the start of a trace for an append and for an
  -- authorization, the end of one for a commit, a rotation and an anomaly. No step of a trace is
  -- ever emitted.
  pub get_events-call_all :
      (cs : List KernelCall) (ps : List PolicyCall) (agent_id : Text)
      → (map stamp (get_events (call_kernel_all cs (new_l1 agent_id)).protocol_handler)
          ≡ map (λ c. (as_u16 (kernel_type c), path (agent_traces agent_id))) cs)
        × (map stamp (get_events (call_policy_all ps (new_l3 agent_id)).protocol_handler)
            ≡ map (λ c. (as_u16 (policy_type c), path (agent_traces agent_id))) ps)
  unfolding new_l1 new_l3
  get_events-call_all cs ps agent_id =
      let show : Json → Text = λ j. [] in
      (
        ap (λ h. map stamp (get_events h)) (call_kernel_all-emit_all show cs (new_l1 agent_id))
            ∙ get_events-emit_all show blake3_hex (map kernel_emission cs) agent_id
            ∙ map_same (mark agent_id) kernel_emission _ (kernel_emission-mark agent_id) cs,
        ap (λ h. map stamp (get_events h)) (call_policy_all-emit_all show ps (new_l3 agent_id))
            ∙ get_events-emit_all show blake3_hex (map policy_emission ps) agent_id
            ∙ map_same (mark agent_id) policy_emission _ (policy_emission-mark agent_id) ps,
      )
