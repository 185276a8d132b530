-- ===== src/Base/Text/Lines.antt =====
-- `str::lines` and `join("\n")`.
use Prim.Native.Nat.{ℕ}
use mathlib.Core.Path.{◌≡◌, refl, ap, ◌∙◌}
use mathlib.Core.Bool.{Bool, true, false, not, ◌&&◌}
use mathlib.Core.Logic.{inl, inr}
use mathlib.Core.List.{List, [], ◌∷◌, ◌++◌, append_assoc}
use native.Mathlib.Omega.{arith}
use sovereign_event_bus.Base.Tests.{nat_beq, if◌then◌else◌, Bool-cases}
use sovereign_event_bus.Base.Lists.{all, All}
use sovereign_event_bus.Base.Text.{Text}

abbrev pub newline : ℕ
newline = b'\n'

abbrev pub carriage_return : ℕ
carriage_return = 13

abbrev pub begins_newline : Text → Bool
begins_newline [] = false
begins_newline (c ∷ cs) = nat_beq c newline

-- A carriage return in front of a newline belongs to the line's end.
unfoldable pub drop_cr : Text → Text
drop_cr [] = []
drop_cr (c ∷ cs) =
    let rest = drop_cr cs in
    if nat_beq c carriage_return && begins_newline cs then rest else c ∷ rest

abbrev pub cons_head : ℕ → List Text → List Text
cons_head c [] = (c ∷ []) ∷ []
cons_head c (l ∷ ls) = (c ∷ l) ∷ ls

-- The pieces that newlines end; the last piece counts unless it is empty.
unfoldable pub split_lines : Text → List Text
split_lines [] = []
split_lines (c ∷ cs) =
    let rest = split_lines cs in if nat_beq c newline then [] ∷ rest else cons_head c rest

-- `text.lines()`.
unfoldable pub lines : Text → List Text
unfolding drop_cr split_lines
lines t = split_lines (drop_cr t)

-- `parts.join(sep)`.
unfoldable pub join : Text → List Text → Text
join sep [] = []
join sep (l ∷ []) = l
join sep (l ∷ (m ∷ ms)) = l ++ (sep ++ join sep (m ∷ ms))

-- One line: no newline and no carriage return in it.
abbrev pub is_plain : ℕ → Bool
is_plain c = not (nat_beq c newline) && not (nat_beq c carriage_return)

abbrev pub IsLine : Text → Type 0
IsLine t = all is_plain t ≡ true

drop_cr-append_newline :
    (s t : Text) → drop_cr (s ++ newline ∷ t) ≡ drop_cr (s ++ newline ∷ []) ++ drop_cr t
unfolding drop_cr
drop_cr-append_newline [] t = refl
drop_cr-append_newline (c ∷ []) t = ground arith
drop_cr-append_newline (c ∷ (d ∷ s)) t = ground (arith, drop_cr-append_newline (d ∷ s) t)

-- A text that ends in a newline, as `drop_cr` leaves it.
drop_cr_ends : (s : Text) → (r : Text) × (drop_cr (s ++ newline ∷ []) ≡ r ++ newline ∷ [])
unfolding drop_cr
drop_cr_ends [] = ([], refl)
drop_cr_ends (c ∷ s) =
    let (r, e) = drop_cr_ends s in
    elim (Bool-cases (nat_beq c carriage_return && begins_newline (s ++ newline ∷ []))) [
      | inl drops ↦ (r, rw drops e)
      | inr keeps ↦ (c ∷ r, rw keeps (ap (◌∷◌ c) e))
    ]

-- A text with a newline has a first line.
split_lines_first :
    (s : Text) → (l : Text) × (ls : List Text) × (split_lines (s ++ newline ∷ []) ≡ l ∷ ls)
unfolding split_lines
split_lines_first [] = ([], [], refl)
split_lines_first (c ∷ s) =
    let (l, ls, e) = split_lines_first s in
    elim (Bool-cases (nat_beq c newline)) [
      | inl ends ↦ ([], split_lines (s ++ newline ∷ []), rw ends)
      | inr goes ↦ (c ∷ l, ls, rw goes (ap (cons_head c) e))
    ]

cons_head-append :
    (c : ℕ) (ls ms : List Text) {k : Text} {ks : List Text}
    → ls ≡ k ∷ ks
    → cons_head c (ls ++ ms) ≡ cons_head c ls ++ ms
cons_head-append c [] ms h = cc
cons_head-append c (l ∷ ls) ms h = refl

split_lines-append_newline :
    (s t : Text) → split_lines (s ++ newline ∷ t) ≡ split_lines (s ++ newline ∷ []) ++ split_lines t
unfolding split_lines
split_lines-append_newline [] t = refl
split_lines-append_newline (c ∷ s) t = elim (Bool-cases (nat_beq c newline)) [
  | inl ends ↦ rw ends (ap (◌∷◌ []) (split_lines-append_newline s t))
  | inr goes ↦ rw goes (
      ap (cons_head c) (split_lines-append_newline s t)
      ∙ cons_head-append c (split_lines (s ++ newline ∷ [])) (split_lines t)
          (split_lines_first s).2)
]

-- What ends in a newline is read line by line before what follows it.
pub lines-append_newline :
    (s t : Text) → lines (s ++ newline ∷ t) ≡ lines (s ++ newline ∷ []) ++ lines t
unfolding lines
lines-append_newline s t =
    let (r, e) = drop_cr_ends s in
    rw (drop_cr-append_newline s t, e, append_assoc) (split_lines-append_newline r (drop_cr t))

IsLine-drop_cr : (s t : Text) → IsLine s → drop_cr (s ++ newline ∷ t) ≡ s ++ newline ∷ drop_cr t
unfolding drop_cr
IsLine-drop_cr [] t h = refl
IsLine-drop_cr (c ∷ s) t h = ground (arith, IsLine-drop_cr s t)

IsLine-split_lines : (s t : Text) → IsLine s → split_lines (s ++ newline ∷ t) ≡ s ∷ split_lines t
unfolding split_lines
IsLine-split_lines [] t h = refl
IsLine-split_lines (c ∷ s) t h = ground (arith, IsLine-split_lines s t)

-- A plain line, its newline and the rest.
pub lines-cons : (s t : Text) → IsLine s → lines (s ++ newline ∷ t) ≡ s ∷ lines t
unfolding lines
lines-cons s t h = rw (IsLine-drop_cr s t h) (IsLine-split_lines s (drop_cr t) h)

IsLine-drop_cr_self : (s : Text) → IsLine s → drop_cr s ≡ s
unfolding drop_cr
IsLine-drop_cr_self [] h = refl
IsLine-drop_cr_self (c ∷ s) h = ground (arith, IsLine-drop_cr_self s)

IsLine-split_lines_self : (c : ℕ) (s : Text) → IsLine (c ∷ s) → split_lines (c ∷ s) ≡ (c ∷ s) ∷ []
unfolding split_lines
IsLine-split_lines_self c [] h = ground arith
IsLine-split_lines_self c (d ∷ s) h = ground (arith, IsLine-split_lines_self d s)

-- A last line without a newline.
pub lines-last : (c : ℕ) (s : Text) → IsLine (c ∷ s) → lines (c ∷ s) ≡ (c ∷ s) ∷ []
unfolding lines
lines-last c s h = rw (IsLine-drop_cr_self (c ∷ s) h) (IsLine-split_lines_self c s h)

-- Not empty, and a plain line.
abbrev pub IsShown : Text → Type 0
IsShown [] = ⊥
IsShown (c ∷ s) = IsLine (c ∷ s)

-- `lines` takes apart what `join` puts together.
pub lines-join : (ls : List Text) → All IsShown ls → lines (join (newline ∷ []) ls) ≡ ls
unfolding join
lines-join [] h = unfold lines in refl
lines-join ([] ∷ ls) h = elim h.0 [ ]
lines-join ((c ∷ s) ∷ []) h = lines-last c s h.0
lines-join ((c ∷ s) ∷ (m ∷ ms)) h =
    lines-cons (c ∷ s) (join (newline ∷ []) (m ∷ ms)) h.0
    ∙ ap (◌∷◌ (c ∷ s)) (lines-join (m ∷ ms) h.1)
