-- ===== src/Reasoning/Integration/Tests.antt =====
-- Runs and witnesses for the hooks of integration.rs.
use sovereign_event_bus.Base.{ℕ, ◌≡◌, ◌≢◌, true, List, [], ◌∷◌, map, All}
use sovereign_event_bus.Base.Text.{codes}
use sovereign_event_bus.Base.Json.{object, end}
use sovereign_event_bus.Reasoning.A2aProtocol.{
  trace_start, trace_complete, as_u16, agent_traces, path, get_events,
}
use sovereign_event_bus.Reasoning.A2aProtocol.Emissions.{stamp}
use sovereign_event_bus.Reasoning.Trace.{finalize, cleared}
use sovereign_event_bus.Reasoning.Integration.{Codec, new_l1, new_l3}
use sovereign_event_bus.Reasoning.Integration.Hooks.{
  KernelCall, appends, commits, PolicyCall, authorizes, reports, kernel_type, policy_type,
  call_kernel_all, call_policy_all, get_events-call_all,
}
use sovereign_event_bus.Reasoning.Integration.Logs.{named_in}
use sovereign_event_bus.Reasoning.Integration.Matching.{Separates, log_of, started-completed}

-- A hash that tells the competencies apart.
abbrev codec : Codec ℕ
codec = record {
  literal = λ n. n;
  step_json = λ s. [];
  trace_json = λ t. t.competency;
  blake3_hex = λ s. s;
}

abbrev clock : ℕ → ℕ
clock i = i

abbrev kernel_calls : List KernelCall
kernel_calls = appends clock 7 (codes "h") ∷ commits clock 7 (codes "tip") ∷ []

abbrev policy_calls : List PolicyCall
policy_calls =
    authorizes clock (codes "ann") (codes "read") (codes "doc") true (codes "owned")
    ∷ reports clock (codes "burst") (object end)
    ∷ []

get_events-call_all_example :
    (map stamp
        (get_events (call_kernel_all codec kernel_calls (new_l1 (codes "k"))).protocol_handler)
      ≡ map (λ c. (as_u16 (kernel_type c), path (agent_traces (codes "k")))) kernel_calls)
    × (map stamp
          (get_events (call_policy_all codec policy_calls (new_l3 (codes "k"))).protocol_handler)
        ≡ map (λ c. (as_u16 (policy_type c), path (agent_traces (codes "k")))) policy_calls)
get_events-call_all_example = get_events-call_all codec kernel_calls policy_calls (codes "k")

codec-Separates : Separates codec
unfolding finalize cleared
codec-Separates t u e = e

started-completed_example :
    All
      (λ s.
        All
          (λ d. s ≢ d)
          (named_in trace_complete
            (log_of codec kernel_calls policy_calls (codes "k") (codes "p"))))
      (named_in trace_start (log_of codec kernel_calls policy_calls (codes "k") (codes "p")))
started-completed_example =
    started-completed codec codec-Separates kernel_calls policy_calls (codes "k") (codes "p")
