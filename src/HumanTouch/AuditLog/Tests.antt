-- ===== src/HumanTouch/AuditLog/Tests.antt =====
-- Runs and witnesses for audit_log.rs.
use sovereign_event_bus.Base.{
  ◌≡◌, refl, inl, Option, none, some, true, List, [], ◌∷◌, ◌++◌, ok, err, ◌⊎◌,
}
use sovereign_event_bus.Base.Text.{Text, codes, contains}
use sovereign_event_bus.Base.Text.Lines.{lines, newline}
use sovereign_event_bus.Base.Text.Trim.{trim}
use sovereign_event_bus.HumanTouch.AuditLog.{
  AuditEntry, AuditSummary, Codec, done, write_fails, new, append_entry, is_header, parse_lines,
  cannot_read, read_entries, generate_summary, empty_summary,
}
use sovereign_event_bus.HumanTouch.AuditLog.Reading.{
  IsRead, append_all, missing, read_entries_round_trip, append_entry_keeps,
}
use sovereign_event_bus.HumanTouch.AuditLog.Torn.{CutsInside}
use sovereign_event_bus.HumanTouch.AuditLog.Summary.{Tallies, generate_summary-Tallies}
use sovereign_event_bus.HumanTouch.Samples.{
  sample_entry, sample_json, sample_codec, sample_submission, sample_approval, empty_log,
}

submission-IsRead : IsRead sample_codec sample_submission
unfolding trim is_header contains
submission-IsRead = (record { round_trip = refl; one_line = refl; not_blank = refl }, refl)

approval-IsRead : IsRead sample_codec sample_approval
unfolding trim is_header contains
approval-IsRead = (record { round_trip = refl; one_line = refl; not_blank = refl }, refl)

read_entries_round_trip_example :
    read_entries sample_codec true (
      append_all sample_codec
        (sample_submission ∷ sample_approval ∷ [])
        (new sample_codec 0 true done missing).1)
    ≡ ok (sample_submission ∷ sample_approval ∷ [])
unfolding is_header contains
read_entries_round_trip_example =
    read_entries_round_trip sample_codec 0 (sample_submission ∷ sample_approval ∷ []) refl refl
      (submission-IsRead, (approval-IsRead, tt))

empty_log-reads : read_entries sample_codec true empty_log ≡ ok []
unfolding read_entries parse_lines lines
empty_log-reads = refl

append_entry_keeps_example :
    (CutsInside (write_fails 3) (sample_json sample_approval ++ newline ∷ [])
      × (read_entries sample_codec true
            (append_entry sample_codec (write_fails 3) sample_approval empty_log).1
          ≡ err cannot_read))
    ⊎ (¬ CutsInside (write_fails 3) (sample_json sample_approval ++ newline ∷ [])
        × ((more : List AuditEntry) × (read_entries sample_codec true
                (append_entry sample_codec (write_fails 3) sample_approval empty_log).1
              ≡ ok ([] ++ more))))
append_entry_keeps_example =
    append_entry_keeps sample_codec (write_fails 3) sample_approval empty_log [] (inl refl)
      empty_log-reads

-- A codec that writes the reviewer as well.
abbrev named_json : AuditEntry → Text
named_json e = named e.reviewer
  where
    named : Option Text → Text
    named none = codes "{}"
    named (some r) = codes "{\"reviewer\":\"" ++ (r ++ codes "\"}")

abbrev approval_by_type : AuditEntry
approval_by_type =
    sample_entry (codes "CHANGE_APPROVED") (codes "human-touch") (some (codes "type"))
      (codes "APPROVED") none none none

abbrev named_codec : Codec
named_codec = record sample_codec {
  entry_json = named_json;
  parse_entry = λ line. some approval_by_type;
}

abbrev two_entries : List AuditEntry
two_entries = sample_submission ∷ sample_approval ∷ []

generate_summary-Tallies_example :
    (s : AuditSummary) × (generate_summary sample_codec true
        (append_all sample_codec two_entries (new sample_codec 0 true done missing).1)
      ≡ ok s)
    × Tallies two_entries empty_summary s
generate_summary-Tallies_example =
    generate_summary-Tallies sample_codec true
      (append_all sample_codec two_entries (new sample_codec 0 true done missing).1) two_entries
      read_entries_round_trip_example
