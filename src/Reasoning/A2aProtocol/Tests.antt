-- ===== src/Reasoning/A2aProtocol/Tests.antt =====
-- Runs and witnesses for a2a_protocol.rs.
use sovereign_event_bus.Base.{nat_eq, ◌≡◌, ◌↔◌, none, some, List, [], ◌∷◌, map}
use sovereign_event_bus.Base.Text.{Text, codes}
use sovereign_event_bus.Base.Json.{Json, number}
use sovereign_event_bus.Reasoning.A2aProtocol.{
  as_u16, agent_traces, path, from_path, new, get_events_by_partition,
}
use sovereign_event_bus.Reasoning.A2aProtocol.Partitions.{IsOwn, from_path-path}
use sovereign_event_bus.Reasoning.A2aProtocol.Emissions.{
  Emission, starts, steps, completes, stamp, type_of, emit_all, get_events_by_partition-emit_all,
}

abbrev ops : List Emission
ops =
    starts 1 (codes "audit") (codes "t1") none
    ∷ steps 2 (codes "t1") 0 (number 5)
    ∷ steps 3 (codes "t1") 1 (number 6)
    ∷ completes 4 (codes "t1") 3 2 none
    ∷ []

abbrev show_json : Json → Text
show_json j = codes "json"

abbrev blake3 : Text → Text
blake3 t = t

from_path-path_example : (from_path (codes "reasoning/ann") ≡ some (agent_traces (codes "ann"))) ↔ (
    (path (agent_traces (codes "ann")) ≡ codes "reasoning/ann")
    × IsOwn (agent_traces (codes "ann")))
from_path-path_example = from_path-path (codes "reasoning/ann") (agent_traces (codes "ann"))

get_events_by_partition-emit_all_example :
    map stamp (
      get_events_by_partition
        (emit_all show_json blake3 ops (new (codes "ann")))
        (agent_traces (codes "ann")))
    ≡ (0x0300, codes "reasoning/ann") ∷ (0x0302, codes "reasoning/ann") ∷ []
unfolding type_of path as_u16
get_events_by_partition-emit_all_example =
    get_events_by_partition-emit_all show_json blake3 ops (codes "ann")
      (λ e. cc, λ e. cc, λ e. cc, λ e. cc)
