-- ===== src/HumanTouch/Samples.antt =====
-- Concrete data for the witnesses of the human review gateway (seb/human_touch/src): a stand-in
-- for serde_json that knows four entries, a change and a queue that holds it.
use sovereign_event_bus.Base.{Option, none, some, true, List, [], ◌∷◌, ◌++◌, ◌==◌, if◌then◌else◌}
use sovereign_event_bus.Base.Text.{Text, codes, text_eq}
use sovereign_event_bus.HumanTouch.AuditLog.{
  PendingChange, AuditEntry, Codec, Disk, done, open_fails,
}
use sovereign_event_bus.HumanTouch.ReviewQueue.{ReviewQueue, State, Call, new_record}

abbrev pub sample_change : PendingChange
sample_change = record {
  id = codes "c1";
  description = codes "fix";
  evidence = codes "url";
  agent_name = codes "bot";
  created_at = 0;
  files = codes "a.rs" ∷ [];
  diff = [];
}

abbrev pub sample_entry :
    Text → Text → Option Text → Text → Option Text → Option Text → Option Text → AuditEntry
sample_entry event agent reviewer decision reason commit_hash evidence_url = record {
  timestamp = codes "t";
  event_type = event;
  change_id = codes "c1";
  agent_name = agent;
  reviewer = reviewer;
  decision = decision;
  reason = reason;
  commit_hash = commit_hash;
  evidence_url = evidence_url;
}

abbrev pub sample_submission : AuditEntry
sample_submission =
    sample_entry (codes "CHANGE_SUBMITTED") (codes "bot") none (codes "AWAITING_REVIEW") none none
      (some (codes "url"))

abbrev pub sample_approval : AuditEntry
sample_approval =
    sample_entry (codes "CHANGE_APPROVED") (codes "human-touch") (some (codes "ann"))
      (codes "APPROVED") (some (codes "Human approval granted: fix")) none none

abbrev pub sample_rejection : AuditEntry
sample_rejection =
    sample_entry (codes "CHANGE_REJECTED") (codes "human-touch") (some (codes "ann"))
      (codes "REJECTED") (some (codes "no")) none none

abbrev pub sample_commit : AuditEntry
sample_commit =
    sample_entry (codes "CHANGE_COMMITTED") (codes "human-touch") (some (codes "unknown"))
      (codes "COMMITTED") none (some (codes "abc")) none

abbrev pub sample_json : AuditEntry → Text
sample_json e = codes "{\"event_type\":\"" ++ (e.event_type ++ codes "\"}")

abbrev pub parse_sample : List AuditEntry → Text → Option AuditEntry
parse_sample [] line = none
parse_sample (e ∷ es) line = if line == sample_json e then some e else parse_sample es line

abbrev pub sample_codec : Codec
sample_codec = record {
  entry_json = sample_json;
  parse_entry =
      parse_sample (sample_submission ∷ sample_approval ∷ sample_rejection ∷ sample_commit ∷ []);
  header_json = λ t. codes "{\"version\":\"1.0.0\",\"type\":\"WORM_AUDIT_LOG\"}";
  rfc3339_secs = λ n. codes "t";
  rfc3339_millis = λ n. codes "t";
}

abbrev pub empty_log : Disk
empty_log = record { exists = true; content = []; is_utf8 = true }

abbrev pub sample_queue : ReviewQueue
sample_queue = record {
  repo_path = codes ".";
  audit_log = codes "log";
  max_pending = 1;
  changes = (codes "c1", new_record sample_change) ∷ [];
  pending_queue = [];
}

abbrev pub sample_state : State
sample_state = record { queue = sample_queue; log = empty_log; screen = []; notices = [] }

abbrev pub empty_state : State
empty_state = record {
  queue = record sample_queue { changes = [] };
  log = empty_log;
  screen = [];
  notices = [];
}

abbrev pub good_call : Call
good_call = record { now = 7; io = done }

abbrev pub bad_call : Call
bad_call = record { now = 7; io = open_fails }
