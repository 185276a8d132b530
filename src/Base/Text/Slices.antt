-- ===== src/Base/Text/Slices.antt =====
-- Byte slices of a text, `&s[0..n]`, which panic outside the text and inside a character; and the
-- decimal form of a number.
use Prim.Native.Nat.{ℕ, zero, suc, ◌+◌, ◌-◌, ◌/◌, ◌%◌, ◌≤◌, ◌<◌}
use mathlib.Core.Path.{◌≡◌, refl}
use mathlib.Core.Bool.{true}
use mathlib.Core.Logic.{inl, inr}
use mathlib.Core.Option
use mathlib.Core.Option.{Option, none, some}
use mathlib.Core.List.{[], ◌∷◌}
use native.Mathlib.Omega.{arith}
use sovereign_event_bus.Base.Tests.{nat_beq, leb, ltb, if◌then◌else◌, Option-cases}
use sovereign_event_bus.Base.Lists.{all, length, take}
use sovereign_event_bus.Base.Text.{Text}

-- The bytes of a character in UTF-8.
abbrev pub utf8_width : ℕ → ℕ
utf8_width c = if ltb c 0x80 then 1 else if ltb c 0x800 then 2 else if ltb c 0x10000 then 3 else 4

-- `s.len()`.
abbrev pub utf8_len : Text → ℕ
utf8_len [] = 0
utf8_len (c ∷ s) = utf8_width c + utf8_len s

-- `&s[0..n]`, with `none` for a panic.
unfoldable pub slice_to : Text → ℕ → Option Text
slice_to [] n = if nat_beq n 0 then some [] else none
slice_to (c ∷ s) n =
    let rest = Option.map (◌∷◌ c) (slice_to s (n - utf8_width c)) in
    if nat_beq n 0 then some [] else if leb (utf8_width c) n then rest else none

-- A slice that does not panic has as many bytes as were asked for.
pub slice_to_len : (s : Text) (n : ℕ) {p : Text} → slice_to s n ≡ some p → utf8_len p ≡ n
unfolding slice_to
slice_to_len [] n h = ground arith
slice_to_len (c ∷ s) n {p} h = elim (Option-cases (slice_to s (n - utf8_width c))) [
  | inl e ↦ ground (arith, e)
  | inr (q, e) ↦ ground (arith, slice_to_len s (n - utf8_width c) e)
]

pub slice_to-short : (s : Text) (n : ℕ) → utf8_len s < n → slice_to s n ≡ none
unfolding slice_to
slice_to-short [] n h = ground arith
slice_to-short (c ∷ s) n h = ground (arith, slice_to-short s (n - utf8_width c))

abbrev pub IsAscii : Text → Type 0
IsAscii s = all (λ c. ltb c 0x80) s ≡ true

pub slice_to-ascii : (s : Text) (n : ℕ) → IsAscii s → n ≤ length s → slice_to s n ≡ some (take n s)
unfolding slice_to
slice_to-ascii [] zero h k = refl
slice_to-ascii [] (suc n) h k = elim k [ ]
slice_to-ascii (c ∷ s) zero h k = refl
slice_to-ascii (c ∷ s) (suc n) h k = ground (arith, slice_to-ascii s n)

digits : ℕ → ℕ → Text → Text
digits zero n acc = acc
digits (suc fuel) n acc =
    let rest = digits fuel (n / 10) ((b'0' + n % 10) ∷ acc) in
    if ltb n 10 then (b'0' + n) ∷ acc else rest

-- `format!("{}", n)`.
unfoldable pub decimal : ℕ → Text
unfolding digits
decimal n = digits (suc n) n []
