-- ===== src/HumanTouch/AuditLog.antt =====
-- seb/human_touch/src/audit_log.rs: the audit trail, a file of JSON lines that is only appended
-- to. The file is a value that every operation takes and returns; what the operating system
-- answers to one call is an argument.
pub mod Torn
pub mod Reading
pub mod Summary
pub mod Tests
use sovereign_event_bus.Base.{
  ℕ, ◌+◌, ◌-◌, leb, ltb, ◌&&◌, Option, none, some, Bool, true, false, not, ◌||◌, List, [], ◌∷◌,
  ◌++◌, Result, ok, err, ◌>>=◌, Eq, ◌==◌, if◌then◌else◌, is_empty,
}
use sovereign_event_bus.Base.Text.{Text, codes, text_eq, contains}
use sovereign_event_bus.Base.Text.Lines.{newline, lines}
use sovereign_event_bus.Base.Text.Slices.{utf8_width}
use sovereign_event_bus.Base.Text.Trim.{trim}
use sovereign_event_bus.Base.Map
use sovereign_event_bus.Base.Map.{Map}

pub record PendingChange : Type 0 where
  pub id : Text
  pub description : Text
  pub evidence : Text
  pub agent_name : Text
  pub created_at : ℕ
  pub files : List Text
  pub diff : Text

pub record AuditEntry : Type 0 where
  pub timestamp : Text
  pub event_type : Text
  pub change_id : Text
  pub agent_name : Text
  pub reviewer : Option Text
  pub decision : Text
  pub reason : Option Text
  pub commit_hash : Option Text
  pub evidence_url : Option Text

-- serde_json and chrono, as far as this file calls them. An instant is the number of nanoseconds
-- since the first instant of chrono.
pub record Codec : Type 0 where
  pub entry_json : AuditEntry → Text
  pub parse_entry : Text → Option AuditEntry
  pub header_json : Text → Text
  pub rfc3339_secs : ℕ → Text
  pub rfc3339_millis : ℕ → Text

-- The file: its characters, and whether it is UTF-8 at all. Where it is not, it holds a part of a
-- character, and no write mends that, since every text begins with a whole one.
pub record Disk : Type 0 where
  pub exists : Bool
  pub content : Text
  pub is_utf8 : Bool

-- What the system does with one call: a write may stop after some bytes.
pub data IoOutcome : Type 0 where
  done open_fails sync_fails : IoOutcome
  write_fails : ℕ → IoOutcome

pub data IoError : Type 0 where
  no_directory cannot_open cannot_write cannot_sync cannot_read : IoError

abbrev pub Io : Type 0
Io = Result IoError (Unit {0}) × Disk

-- The characters of which all bytes are among the first `n` ones of the text.
unfoldable pub whole : ℕ → Text → Text
whole n [] = []
whole n (c ∷ t) =
    let rest = whole (n - utf8_width c) t in if leb (utf8_width c) n then c ∷ rest else []

-- Whether the first `n` bytes of the text end inside a character.
unfoldable pub splits : ℕ → Text → Bool
splits n [] = false
splits n (c ∷ t) =
    let rest = splits (n - utf8_width c) t in if leb (utf8_width c) n then rest else ltb 0 n

-- `writeln!` or `write_all` to a file that is open, then `sync_all`.
unfoldable pub write_synced : IoOutcome → Text → Disk → Io
unfolding whole splits
write_synced done t d = (ok tt, record d { exists = true; content = d.content ++ t })
write_synced open_fails t d = (err cannot_open, d)
write_synced sync_fails t d =
    (err cannot_sync, record d { exists = true; content = d.content ++ t })
write_synced (write_fails n) t d = (
  err cannot_write,
  record {
    exists = true;
    content = d.content ++ whole n t;
    is_utf8 = d.is_utf8 && not (splits n t);
  },
)

module _ (x : Codec) where
  open x use {entry_json, parse_entry, header_json, rfc3339_secs, rfc3339_millis}

  -- `AuditLog::new`; `directory` is whether `create_dir_all` succeeds. A file that is there is
  -- left as it is.
  unfoldable pub new : ℕ → Bool → IoOutcome → Disk → Io
  unfolding write_synced
  new now directory io d =
      if directory
      then if d.exists
        then (ok tt, d)
        else write_synced io (header_json (rfc3339_secs now) ++ newline ∷ []) d
      else (err no_directory, d)

  -- `OpenOptions::new().append(true)` does not create the file.
  unfoldable pub append_entry : IoOutcome → AuditEntry → Disk → Io
  unfolding write_synced
  append_entry io entry d =
      if d.exists
      then write_synced io (entry_json entry ++ newline ∷ []) d
      else (err cannot_open, d)

  unfoldable pub submitted_entry : ℕ → PendingChange → AuditEntry
  submitted_entry now change = record {
    timestamp = rfc3339_millis now;
    event_type = codes "CHANGE_SUBMITTED";
    change_id = change.id;
    agent_name = change.agent_name;
    reviewer = none;
    decision = codes "AWAITING_REVIEW";
    reason = none;
    commit_hash = none;
    evidence_url = some change.evidence;
  }

  unfoldable pub approval_entry : ℕ → Text → Text → Text → AuditEntry
  approval_entry now change_id reviewer description = record {
    timestamp = rfc3339_millis now;
    event_type = codes "CHANGE_APPROVED";
    change_id = change_id;
    agent_name = codes "human-touch";
    reviewer = some reviewer;
    decision = codes "APPROVED";
    reason = some (codes "Human approval granted: " ++ description);
    commit_hash = none;
    evidence_url = none;
  }

  unfoldable pub rejection_entry : ℕ → Text → Text → Text → AuditEntry
  rejection_entry now change_id reason reviewer = record {
    timestamp = rfc3339_millis now;
    event_type = codes "CHANGE_REJECTED";
    change_id = change_id;
    agent_name = codes "human-touch";
    reviewer = some reviewer;
    decision = codes "REJECTED";
    reason = some reason;
    commit_hash = none;
    evidence_url = none;
  }

  unfoldable pub commit_entry : ℕ → Text → Text → Text → AuditEntry
  commit_entry now change_id commit_hash reviewer = record {
    timestamp = rfc3339_millis now;
    event_type = codes "CHANGE_COMMITTED";
    change_id = change_id;
    agent_name = codes "human-touch";
    reviewer = some reviewer;
    decision = codes "COMMITTED";
    reason = none;
    commit_hash = some commit_hash;
    evidence_url = none;
  }

  unfoldable pub log_submitted : ℕ → IoOutcome → PendingChange → Disk → Io
  log_submitted now io change d = append_entry io (submitted_entry now change) d

  unfoldable pub log_approval : ℕ → IoOutcome → Text → Text → Text → Disk → Io
  log_approval now io change_id reviewer description d =
      append_entry io (approval_entry now change_id reviewer description) d

  unfoldable pub log_rejection : ℕ → IoOutcome → Text → Text → Text → Disk → Io
  log_rejection now io change_id reason reviewer d =
      append_entry io (rejection_entry now change_id reason reviewer) d

  unfoldable pub log_commit : ℕ → IoOutcome → Text → Text → Text → Disk → Io
  log_commit now io change_id commit_hash reviewer d =
      append_entry io (commit_entry now change_id commit_hash reviewer) d

-- The two tests by which a line is taken for the header.
unfoldable pub is_header : Text → Bool
is_header line = contains line (codes "\"version\"") || contains line (codes "\"type\"")

unfoldable pub is_skipped : Text → Bool
unfolding is_header
is_skipped line = is_header line || is_empty (trim line)

module _ (x : Codec) where
  open x use {parse_entry}

  unfoldable pub parse_lines : List Text → List AuditEntry
  unfolding is_skipped
  parse_lines [] = []
  parse_lines (line ∷ rest) =
      let entries = parse_lines rest in
      if is_skipped line
      then entries
      else elim (parse_entry line) [ none ↦ entries | some entry ↦ entry ∷ entries ]

  -- `readable`: whether the bytes of a file that is there can be read. `read_to_string` asks for UTF-8
  -- as well.
  unfoldable pub read_entries : Bool → Disk → Result IoError (List AuditEntry)
  unfolding parse_lines
  read_entries readable d =
      if d.exists
      then if readable && d.is_utf8 then ok (parse_lines (lines d.content)) else err cannot_read
      else err cannot_read

pub record AuditSummary : Type 0 where
  pub total_events : ℕ
  pub changes_submitted : ℕ
  pub changes_approved : ℕ
  pub changes_rejected : ℕ
  pub changes_committed : ℕ
  pub reviewers : Map Text ℕ

abbrev pub empty_summary : AuditSummary
empty_summary = record {
  total_events = 0;
  changes_submitted = 0;
  changes_approved = 0;
  changes_rejected = 0;
  changes_committed = 0;
  reviewers = [];
}

unfoldable pub count_event : Text → AuditSummary → AuditSummary
count_event event s =
    if event == codes "CHANGE_SUBMITTED"
    then record s { changes_submitted = s.changes_submitted + 1 }
    else if event == codes "CHANGE_APPROVED"
    then record s { changes_approved = s.changes_approved + 1 }
    else if event == codes "CHANGE_REJECTED"
    then record s { changes_rejected = s.changes_rejected + 1 }
    else if event == codes "CHANGE_COMMITTED"
    then record s { changes_committed = s.changes_committed + 1 }
    else s

unfoldable pub count_reviewer : Option Text → AuditSummary → AuditSummary
count_reviewer none s = s
count_reviewer (some reviewer) s = record s {
  reviewers = Map.upsert reviewer 0 (λ n. n + 1) s.reviewers;
}

-- The body of the loop over the entries.
unfoldable pub count_entry : AuditEntry → AuditSummary → AuditSummary
count_entry entry s =
    count_reviewer entry.reviewer
      (count_event entry.event_type (record s { total_events = s.total_events + 1 }))

unfoldable pub tally : List AuditEntry → AuditSummary → AuditSummary
tally [] s = s
tally (entry ∷ rest) s = tally rest (count_entry entry s)

unfoldable pub generate_summary : Codec → Bool → Disk → Result IoError AuditSummary
generate_summary x readable d =
    read_entries x readable d >>= λ entries. ok (tally entries empty_summary)
