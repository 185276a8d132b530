-- ===== src/HumanTouch/AuditLog/Torn.antt =====
-- Writes to the audit trail (audit_log.rs) that stop inside a character.
use sovereign_event_bus.Base.{
  ℕ, ◌+◌, ◌-◌, ◌<◌, leb, leb→le, leb→lt, le→leb, lt→leb, Bool-cases, ◌≡◌, refl, ap, inl, inr, true,
  [], ◌∷◌, ◌++◌, arith,
}
use sovereign_event_bus.Base.Text.{Text}
use sovereign_event_bus.Base.Text.Slices.{utf8_width, utf8_len}
use sovereign_event_bus.HumanTouch.AuditLog.{
  IoOutcome, done, open_fails, sync_fails, write_fails, splits,
}

-- The first `n` bytes of the text hold a part of a character, and not all of it.
abbrev pub Cuts : ℕ → Text → Type 0
Cuts n t =
    (before : Text) × (c : ℕ) × (behind : Text) × (t ≡ before ++ c ∷ behind)
    × (utf8_len before < n)
    × (n < utf8_len before + utf8_width c)

-- The write stops inside a character of the text.
abbrev pub CutsInside : IoOutcome → Text → Type 0
CutsInside done t = ⊥
CutsInside open_fails t = ⊥
CutsInside sync_fails t = ⊥
CutsInside (write_fails n) t = Cuts n t

pub splits→Cuts : (n : ℕ) (t : Text) → splits n t ≡ true → Cuts n t
unfolding splits
splits→Cuts n [] h = cc
splits→Cuts n (c ∷ t) h = elim (Bool-cases (leb (utf8_width c) n)) [
  | inl fits ↦
      let (before, d, behind, same, low, high) = splits→Cuts (n - utf8_width c) t (rw fits at h) in
      (
        c ∷ before,
        d,
        behind,
        ap (◌∷◌ c) same,
        omega (arith, low),
        omega (arith, leb→le (utf8_width c) n fits, high),
      )
  | inr over ↦
      let h' = rw over at h in
      ([], c, t, refl, ground (arith, h'), omega (arith, leb→lt (utf8_width c) n over))
]

pub Cuts→splits : (n : ℕ) (t : Text) → Cuts n t → splits n t ≡ true
unfolding splits
Cuts→splits n t ([], c, behind, same, low, high) =
    rw (same, lt→leb (utf8_width c) n (omega (arith, high))) (ground (arith, low))
Cuts→splits n t (b ∷ before, c, behind, same, low, high) =
    let fits : leb (utf8_width b) n ≡ true = le→leb (utf8_width b) n (omega (arith, low)) in
    rw (same, fits)
      (Cuts→splits (n - utf8_width b) (before ++ c ∷ behind)
        (before, c, behind, refl, omega (arith, low), omega (arith, high, low)))
