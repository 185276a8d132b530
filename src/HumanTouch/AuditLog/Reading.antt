-- ===== src/HumanTouch/AuditLog/Reading.antt =====
-- Reading the audit trail (audit_log.rs) back after writes to it.
use sovereign_event_bus.Base.{
  ℕ, Bool, not, ◌&&◌, Bool-cases, err, ◌≡◌, refl, sym, ap, ◌∙◌, inl, inr, ◌⊎◌, some, true, false,
  List, [], ◌∷◌, ◌++◌, ok, if◌then◌else◌, is_empty, All, append_assoc, append-nil, arith,
}
use sovereign_event_bus.Base.Text.{Text, codes, contains}
use sovereign_event_bus.Base.Text.Lines.{newline, lines, IsLine, lines-cons, lines-append_newline}
use sovereign_event_bus.Base.Text.Trim.{trim}
use sovereign_event_bus.HumanTouch.AuditLog.{
  AuditEntry, Codec, Disk, IoOutcome, done, open_fails, sync_fails, write_fails, cannot_read, whole,
  splits, write_synced, append_entry, new, is_header, parse_lines, read_entries,
}
use sovereign_event_bus.HumanTouch.AuditLog.Torn.{CutsInside, splits→Cuts, Cuts→splits}

-- What serde_json promises of an entry: its text is one line that is not blank, and reads back.
pub record IsFaithful (x : Codec) (e : AuditEntry) : Type 0 where
  pub round_trip : x.parse_entry (x.entry_json e) ≡ some e
  pub one_line : IsLine (x.entry_json e)
  pub not_blank : is_empty (trim (x.entry_json e)) ≡ false

-- The last line is ended, as after a write that was not cut short.
abbrev pub IsClosed : Disk → Type 0
IsClosed d = (d.content ≡ []) ⊎ ((s : Text) × (d.content ≡ s ++ newline ∷ []))

module _ (x : Codec) where
  parse_lines-append :
      (ls ms : List Text) → parse_lines x (ls ++ ms) ≡ parse_lines x ls ++ parse_lines x ms
  unfolding parse_lines
  parse_lines-append [] ms = refl
  parse_lines-append (l ∷ ls) ms = ground (arith, parse_lines-append ls ms)

  parse-append_closed :
      (d : Disk) (t : Text)
      → IsClosed d
      → parse_lines x (lines (d.content ++ t))
        ≡ parse_lines x (lines d.content) ++ parse_lines x (lines t)
  parse-append_closed d t (inl e) = rw e (unfold parse_lines lines in refl)
  parse-append_closed d t (inr (s, e)) =
      rw (e, append_assoc, lines-append_newline s t)
        (parse_lines-append (lines (s ++ newline ∷ [])) (lines t))

  read-exists :
      (d : Disk) (es : List AuditEntry)
      → read_entries x true d ≡ ok es
      → (d.exists ≡ true) × (d.is_utf8 ≡ true) × (parse_lines x (lines d.content) ≡ es)
  unfolding read_entries
  read-exists d es h = ground arith

  read-append_text :
      (d : Disk) (t : Text) (es : List AuditEntry) (good : Bool)
      → good ≡ true
      → IsClosed d
      → read_entries x true d ≡ ok es
      → read_entries x true (record { exists = true; content = d.content ++ t; is_utf8 = good })
        ≡ ok (es ++ parse_lines x (lines t))
  unfolding read_entries
  read-append_text d t es good fine closed h = rw fine (
      ap ok (
        parse-append_closed d t closed
        ∙ ap (λ (l : List AuditEntry). l ++ parse_lines x (lines t)) (read-exists d es h).2))

  append_entry-exists :
      (io : IoOutcome) (e : AuditEntry) (d : Disk)
      → d.exists ≡ true
      → append_entry x io e d ≡ write_synced io (x.entry_json e ++ newline ∷ []) d
  unfolding append_entry
  append_entry-exists io e d h = rw h

  -- A write that ends between two characters of the text, or does not end early.
  write_synced_keeps :
      (io : IoOutcome) (t : Text) (d : Disk) (es : List AuditEntry)
      → IsClosed d
      → read_entries x true d ≡ ok es
      → (CutsInside io t × (read_entries x true (write_synced io t d).1 ≡ err cannot_read))
        ⊎ (¬ CutsInside io t
            × ((more : List AuditEntry) × (read_entries x true (write_synced io t d).1
                  ≡ ok (es ++ more))))
  unfolding write_synced
  write_synced_keeps done t d es closed h = inr (
    λ c. c,
    (parse_lines x (lines t), read-append_text d t es d.is_utf8 (read-exists d es h).1 closed h),
  )
  write_synced_keeps open_fails t d es closed h =
      inr (λ c. c, ([], h ∙ ap ok (sym (append-nil es))))
  write_synced_keeps sync_fails t d es closed h = inr (
    λ c. c,
    (parse_lines x (lines t), read-append_text d t es d.is_utf8 (read-exists d es h).1 closed h),
  )
  write_synced_keeps (write_fails n) t d es closed h = elim (Bool-cases (splits n t)) [
    | inl inside ↦ inl (splits→Cuts n t inside, unfold read_entries in ground (arith, inside))
    | inr between ↦ inr (
      λ c. let inside = Cuts→splits n t c in cc,
      (
        parse_lines x (lines (whole n t)),
        read-append_text d (whole n t) es (d.is_utf8 && not (splits n t))
            (ground (arith, between, (read-exists d es h).1)) closed h,
      ),
    )
  ]

  parse-one_entry :
      (e : AuditEntry)
      → IsFaithful x e
      → parse_lines x (lines (x.entry_json e ++ newline ∷ []))
        ≡ (if is_header (x.entry_json e) then [] else e ∷ [])
  unfolding parse_lines
  parse-one_entry e laws =
      rw (lines-cons (x.entry_json e) [] laws.one_line)
        (unfold lines in ground (arith, laws.round_trip, laws.not_blank))

  -- An entry that is written without a failure is read back behind all that was read before,
  -- unless its line holds a mark of the header: then it is never read.
  pub read_entries-append_entry :
      (e : AuditEntry) (d : Disk) (es : List AuditEntry)
      → IsFaithful x e
      → IsClosed d
      → read_entries x true d ≡ ok es
      → ((append_entry x done e d).0 ≡ ok tt)
        × IsClosed (append_entry x done e d).1
        × (read_entries x true (append_entry x done e d).1
            ≡ ok (es ++ (if is_header (x.entry_json e) then [] else e ∷ [])))
  read_entries-append_entry e d es laws closed h =
      rw (append_entry-exists done e d (read-exists d es h).0) (
        unfold write_synced in
        (
          refl,
          inr (d.content ++ x.entry_json e, sym (append_assoc d.content (x.entry_json e) _)),
          read-append_text d (x.entry_json e ++ newline ∷ []) es d.is_utf8 (read-exists d es h).1
                closed h
              ∙ ap (λ (l : List AuditEntry). ok (es ++ l)) (parse-one_entry e laws),
        ))

  -- On a trail that is readable and ends with a whole line: where a write stops inside a character,
  -- nothing can be read any more. Whatever else happens to the write, what was read before it is
  -- read after it, in the same order.
  pub append_entry_keeps :
      (io : IoOutcome) (e : AuditEntry) (d : Disk) (es : List AuditEntry)
      → IsClosed d
      → read_entries x true d ≡ ok es
      → (CutsInside io (x.entry_json e ++ newline ∷ [])
          × (read_entries x true (append_entry x io e d).1 ≡ err cannot_read))
        ⊎ (¬ CutsInside io (x.entry_json e ++ newline ∷ [])
            × ((more : List AuditEntry) × (read_entries x true (append_entry x io e d).1
                  ≡ ok (es ++ more))))
  append_entry_keeps io e d es closed h =
      rw (append_entry-exists io e d (read-exists d es h).0)
        (write_synced_keeps io (x.entry_json e ++ newline ∷ []) d es closed h)

-- The entries written one after the other, with no failure.
abbrev pub append_all : Codec → List AuditEntry → Disk → Disk
append_all x [] d = d
append_all x (e ∷ es) d = append_all x es (append_entry x done e d).1

-- An entry of which the reader does not take the line for the header.
abbrev pub IsRead : Codec → AuditEntry → Type 0
IsRead x e = IsFaithful x e × (is_header (x.entry_json e) ≡ false)

abbrev pub missing : Disk
missing = record { exists = false; content = []; is_utf8 = true }

module _ (x : Codec) where
  read-append_all :
      (es fs : List AuditEntry) (d : Disk)
      → All (IsRead x) es
      → IsClosed d
      → read_entries x true d ≡ ok fs
      → read_entries x true (append_all x es d) ≡ ok (fs ++ es)
  read-append_all [] fs d laws closed h = h ∙ ap ok (sym (append-nil fs))
  read-append_all (e ∷ es) fs d laws closed h =
      let (_, closed', h') = read_entries-append_entry x e d fs laws.0.0 closed h in
      let h'' = rw laws.0.1 at h' in
      read-append_all es (fs ++ e ∷ []) (append_entry x done e d).1 laws.1 closed' h''
      ∙ ap ok (append_assoc fs (e ∷ []) es)

  read-new :
      (now : ℕ)
      → IsLine (x.header_json (x.rfc3339_secs now))
      → is_header (x.header_json (x.rfc3339_secs now)) ≡ true
      → IsClosed (new x now true done missing).1
        × (read_entries x true (new x now true done missing).1 ≡ ok [])
  unfolding new read_entries parse_lines
  read-new now line header = (
    inr (x.header_json (x.rfc3339_secs now), refl),
    rw (lines-cons (x.header_json (x.rfc3339_secs now)) [] line, header) (unfold lines in refl),
  )

  -- A log that is created and then takes entries, each of which serde_json renders faithfully and
  -- without a mark of the header, reads back as these entries in the order of writing.
  pub read_entries_round_trip :
      (now : ℕ) (es : List AuditEntry)
      → IsLine (x.header_json (x.rfc3339_secs now))
      → is_header (x.header_json (x.rfc3339_secs now)) ≡ true
      → All (IsRead x) es
      → read_entries x true (append_all x es (new x now true done missing).1) ≡ ok es
  read_entries_round_trip now es line header laws =
      let (closed, h) = read-new now line header in
      read-append_all es [] (new x now true done missing).1 laws closed h

-- An entry whose line holds the word `type` in quotation marks, as serde_json writes a reviewer, an
-- agent or a reason of that name, is written without an error to a trail that is readable and ends
-- with a whole line, and is not read from it.
pub read_entries_loses_type :
    (x : Codec) (e : AuditEntry) (d : Disk) (es : List AuditEntry)
    → IsFaithful x e
    → contains (x.entry_json e) (codes "\"type\"") ≡ true
    → IsClosed d
    → read_entries x true d ≡ ok es
    → ((append_entry x done e d).0 ≡ ok tt)
      × (read_entries x true (append_entry x done e d).1 ≡ ok es)
read_entries_loses_type x e d es laws quoted closed h =
    let (fine, _, reads) = read_entries-append_entry x e d es laws closed h in
    let lost : is_header (x.entry_json e) ≡ true = unfold is_header in ground (arith, quoted) in
    (fine, rw (lost, append-nil es) at reads)
