-- ===== src/HumanTouch/ReviewQueue/Format.antt =====
-- The layout of a review request (review_queue.rs).
use sovereign_event_bus.Base.{
  ℕ, zero, suc, ◌≡◌, refl, true, not, List, [], ◌∷◌, ◌++◌, map, all, All, replicate, Bool-cases,
  inl, inr, nat_beq, arith,
}
use sovereign_event_bus.Base.Text.{Text}
use sovereign_event_bus.Base.Text.Lines.{
  newline, carriage_return, lines, split_lines, drop_cr, cons_head, IsLine, IsShown, lines-join,
}
use sovereign_event_bus.HumanTouch.ReviewQueue.{indent_text}

abbrev pub HasNoReturn : Text → Type 0
HasNoReturn t = all (λ c. not (nat_beq c carriage_return)) t ≡ true

drop_cr-none : (t : Text) → HasNoReturn t → drop_cr t ≡ t
unfolding drop_cr
drop_cr-none [] h = refl
drop_cr-none (c ∷ t) h = ground (arith, drop_cr-none t)

cons_head-IsLine :
    (c : ℕ) (ls : List Text) → IsLine (c ∷ []) → All IsLine ls → All IsLine (cons_head c ls)
cons_head-IsLine c [] h k = (h, tt)
cons_head-IsLine c (l ∷ ls) h k = (ground (arith, k.0), k.1)

split_lines-IsLine : (t : Text) → HasNoReturn t → All IsLine (split_lines t)
unfolding split_lines
split_lines-IsLine [] h = tt
split_lines-IsLine (c ∷ t) h =
    let h' : HasNoReturn t = ground arith in
    elim (Bool-cases (nat_beq c newline)) [
      | inl ends ↦ rw ends (refl, split_lines-IsLine t h')
      | inr goes ↦
          rw goes (cons_head-IsLine c (split_lines t) (ground arith) (split_lines-IsLine t h'))
    ]

lines-IsLine : (t : Text) → HasNoReturn t → All IsLine (lines t)
unfolding lines
lines-IsLine t h = rw (drop_cr-none t h) (split_lines-IsLine t h)

indented-IsShown : (n : ℕ) (l : Text) → IsLine l → IsShown (replicate (suc n) b' ' ++ l)
indented-IsShown n l h = indented n
  where
    indented : (k : ℕ) → IsLine (replicate k b' ' ++ l)
    indented zero = h
    indented (suc k) = ground (arith, indented k)

All-indented :
    (n : ℕ) (ls : List Text)
    → All IsLine ls
    → All IsShown (map (λ l. replicate (suc n) b' ' ++ l) ls)
All-indented n [] h = tt
All-indented n (l ∷ ls) h = (indented-IsShown n l h.0, All-indented n ls h.1)

-- A text without carriage returns is indented line by line, by at least one blank: the lines of
-- the result are the lines of the text behind the blanks, in order, empty lines included.
pub lines-indent_text :
    (t : Text) (n : ℕ)
    → HasNoReturn t
    → lines (indent_text t (suc n)) ≡ map (λ l. replicate (suc n) b' ' ++ l) (lines t)
unfolding indent_text
lines-indent_text t n h =
    lines-join (map (λ l. replicate (suc n) b' ' ++ l) (lines t))
      (All-indented n (lines t) (lines-IsLine t h))
