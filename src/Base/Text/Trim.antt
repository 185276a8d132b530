-- ===== src/Base/Text/Trim.antt =====
-- `str::trim`, `trim_start_matches` with a text, and the test for white space.
use Prim.Native.Nat.{ℕ, zero, suc, ◌+◌, ◌<◌}
use mathlib.Core.Path.{◌≡◌, refl}
use mathlib.Core.Bool.{Bool, true, false, ◌&&◌, ◌||◌}
use mathlib.Core.Logic.{inl, inr}
use mathlib.Core.Option.{none, some}
use mathlib.Core.List.{[], ◌∷◌, ◌++◌}
use native.Mathlib.Omega.{arith}
use sovereign_event_bus.Base.Tests.{nat_beq, leb, if◌then◌else◌, Bool-cases, Option-cases}
use sovereign_event_bus.Base.Lists.{length, is_empty}
use sovereign_event_bus.Base.Text.{Text, strip_prefix, starts_with}

-- Unicode's property White_Space, as `char::is_whitespace` has it.
abbrev pub is_whitespace : ℕ → Bool
is_whitespace c =
    (leb 9 c && leb c 13)
    || nat_beq c 0x20
    || nat_beq c 0x85
    || nat_beq c 0xa0
    || nat_beq c 0x1680
    || (leb 0x2000 c && leb c 0x200a)
    || nat_beq c 0x2028
    || nat_beq c 0x2029
    || nat_beq c 0x202f
    || nat_beq c 0x205f
    || nat_beq c 0x3000

unfoldable pub trim_start : Text → Text
trim_start [] = []
trim_start (c ∷ s) = let rest = trim_start s in if is_whitespace c then rest else c ∷ s

unfoldable pub trim_end : Text → Text
trim_end [] = []
trim_end (c ∷ s) =
    let rest = trim_end s in if is_whitespace c && is_empty rest then [] else c ∷ rest

-- `text.trim()`.
unfoldable pub trim : Text → Text
unfolding trim_start trim_end
trim t = trim_end (trim_start t)

-- `text.trim_start_matches(p)`: the prefix is taken off as often as it stands there. A text of
-- fewer than `fuel` characters is done in `fuel` rounds.
unfoldable pub strip_rounds : ℕ → Text → Text → Text
unfolding strip_prefix
strip_rounds zero p t = t
strip_rounds (suc fuel) p t = elim (strip_prefix t p) [
  | none ↦ t
  | some rest ↦ strip_rounds fuel p rest
]

unfoldable pub trim_start_matches : Text → Text → Text
unfolding strip_rounds
trim_start_matches t p = strip_rounds (suc (length t)) p t

-- No white space at either end.
abbrev pub IsTrimmed : Text → Type 0
IsTrimmed t = trim t ≡ t

-- A blank in front is trimmed off.
pub trim-blank : (c : ℕ) (t : Text) → is_whitespace c ≡ true → trim (c ∷ t) ≡ trim t
unfolding trim
trim-blank c t h = rw h

pub trim_space : (t : Text) → trim (b' ' ∷ t) ≡ trim t
trim_space t = trim-blank b' ' t refl

length-strip_prefix : (t p r : Text) → strip_prefix t p ≡ some r → length r + length p ≡ length t
unfolding strip_prefix
length-strip_prefix t [] r h = ground arith
length-strip_prefix [] (b ∷ p) r h = ground arith
length-strip_prefix (a ∷ t) (b ∷ p) r h = ground (arith, length-strip_prefix t p r)

starts_with-strip_prefix : (t p : Text) → strip_prefix t p ≡ none → starts_with t p ≡ false
unfolding strip_prefix starts_with
starts_with-strip_prefix t [] h = ground arith
starts_with-strip_prefix [] (b ∷ p) h = refl
starts_with-strip_prefix (a ∷ t) (b ∷ p) h = ground (arith, starts_with-strip_prefix t p)

pub strip_prefix-starts_with : (t p : Text) → starts_with t p ≡ false → strip_prefix t p ≡ none
unfolding strip_prefix starts_with
strip_prefix-starts_with t [] h = ground arith
strip_prefix-starts_with [] (b ∷ p) h = refl
strip_prefix-starts_with (a ∷ t) (b ∷ p) h = ground (arith, strip_prefix-starts_with t p)

pub strip_prefix-append : (p r : Text) → strip_prefix (p ++ r) p ≡ some r
unfolding strip_prefix
strip_prefix-append [] r = refl
strip_prefix-append (a ∷ p) r = ground (arith, strip_prefix-append p r)

strip_rounds_done :
    (fuel : ℕ) (b : ℕ) (p t : Text)
    → length t < fuel
    → starts_with (strip_rounds fuel (b ∷ p) t) (b ∷ p) ≡ false
unfolding strip_rounds
strip_rounds_done zero b p t h = elim h [ ]
strip_rounds_done (suc fuel) b p t h = elim (Option-cases (strip_prefix t (b ∷ p))) [
  | inl gone ↦ rw (gone, strip_rounds) (starts_with-strip_prefix t (b ∷ p) gone)
  | inr (rest, e) ↦
      rw (e, strip_rounds)
        (strip_rounds_done fuel b p rest (omega (arith, length-strip_prefix t (b ∷ p) rest e)))
]

-- The rounds suffice: nothing that is left starts with the prefix.
pub starts_with-trim_start_matches :
    (b : ℕ) (p t : Text) → starts_with (trim_start_matches t (b ∷ p)) (b ∷ p) ≡ false
unfolding trim_start_matches
starts_with-trim_start_matches b p t = strip_rounds_done (suc (length t)) b p t (omega arith)

strip_rounds-stop : (fuel : ℕ) (p r : Text) → starts_with r p ≡ false → strip_rounds fuel p r ≡ r
unfolding strip_rounds
strip_rounds-stop zero p r h = refl
strip_rounds-stop (suc fuel) p r h = rw (strip_prefix-starts_with r p h, strip_rounds)

strip_rounds-append :
    (fuel : ℕ) (p r : Text) → starts_with r p ≡ false → strip_rounds (suc fuel) p (p ++ r) ≡ r
unfolding strip_rounds
strip_rounds-append fuel p r h =
    rw (strip_prefix-append p r, strip_rounds) (strip_rounds-stop fuel p r h)

-- One round is enough where the rest does not start with the prefix again.
pub trim_start_matches-append :
    (p r : Text) → starts_with r p ≡ false → trim_start_matches (p ++ r) p ≡ r
unfolding trim_start_matches
trim_start_matches-append p r h = strip_rounds-append (length (p ++ r)) p r h

trim_end-visible :
    (s t : Text) (c : ℕ) → is_whitespace c ≡ false → is_empty (trim_end (s ++ c ∷ t)) ≡ false
unfolding trim_end
trim_end-visible [] t c h = ground arith
trim_end-visible (a ∷ s) t c h = ground (arith, trim_end-visible s t c h)

-- A text with a character that is no white space does not vanish.
pub trim-visible :
    (s t : Text) (c : ℕ) → is_whitespace c ≡ false → is_empty (trim (s ++ c ∷ t)) ≡ false
unfolding trim
trim-visible [] t c h = rw h (trim_end-visible [] t c h)
trim-visible (a ∷ s) t c h = elim (Bool-cases (is_whitespace a)) [
  | inl blank ↦ rw blank (trim-visible s t c h)
  | inr visible ↦ rw visible (trim_end-visible (a ∷ s) t c h)
]
