-- ===== src/Base/Text/Words.antt =====
-- `str::split_whitespace`.
use Prim.Native.Nat.{ℕ}
use mathlib.Core.Path.{◌≡◌, refl, ap, ◌∙◌}
use mathlib.Core.Bool.{Bool, true, false, not}
use mathlib.Core.List.{List, [], ◌∷◌, ◌++◌}
use native.Mathlib.Omega.{arith}
use sovereign_event_bus.Base.Tests.{if◌then◌else◌}
use sovereign_event_bus.Base.Lists.{all, All, is_empty}
use sovereign_event_bus.Base.Text.{Text}
use sovereign_event_bus.Base.Text.Lines.{join, newline}
use sovereign_event_bus.Base.Text.Trim.{is_whitespace, trim_end, trim_start, trim}

abbrev pub begins_word : Text → Bool
begins_word [] = false
begins_word (c ∷ s) = not (is_whitespace c)

abbrev pub extend_word : ℕ → List Text → List Text
extend_word c [] = (c ∷ []) ∷ []
extend_word c (w ∷ ws) = (c ∷ w) ∷ ws

unfoldable pub split_whitespace : Text → List Text
split_whitespace [] = []
split_whitespace (c ∷ s) =
    let rest = split_whitespace s in
    if is_whitespace c then rest else if begins_word s then extend_word c rest else (c ∷ []) ∷ rest

-- Not empty, and free of white space.
abbrev pub IsWord : Text → Type 0
IsWord [] = ⊥
IsWord (c ∷ s) = (is_whitespace c ≡ false) × (all (λ d. not (is_whitespace d)) s ≡ true)

-- A word is read whole, up to a blank or to the end.
split_whitespace-word :
    (c : ℕ) (s t : Text)
    → IsWord (c ∷ s)
    → split_whitespace ((c ∷ s) ++ (b' ' ∷ t)) ≡ (c ∷ s) ∷ split_whitespace t
unfolding split_whitespace
split_whitespace-word c [] t h = ground arith
split_whitespace-word c (d ∷ s) t h =
    let h' : IsWord (d ∷ s) = ground arith in ground (arith, split_whitespace-word d s t h')

split_whitespace-last :
    (c : ℕ) (s : Text) → IsWord (c ∷ s) → split_whitespace (c ∷ s) ≡ (c ∷ s) ∷ []
unfolding split_whitespace
split_whitespace-last c [] h = ground arith
split_whitespace-last c (d ∷ s) h =
    let h' : IsWord (d ∷ s) = ground arith in ground (arith, split_whitespace-last d s h')

-- `split_whitespace` takes apart words joined by single blanks.
pub split_whitespace-join :
    (ws : List Text) → All IsWord ws → split_whitespace (join (b' ' ∷ []) ws) ≡ ws
unfolding join
split_whitespace-join [] h = unfold split_whitespace in refl
split_whitespace-join ([] ∷ ws) h = elim h.0 [ ]
split_whitespace-join ((c ∷ s) ∷ []) h = split_whitespace-last c s h.0
split_whitespace-join ((c ∷ s) ∷ (w ∷ ws)) h =
    split_whitespace-word c s (join (b' ' ∷ []) (w ∷ ws)) h.0
    ∙ ap (◌∷◌ (c ∷ s)) (split_whitespace-join (w ∷ ws) h.1)

is_empty-append : (s t : Text) → is_empty t ≡ false → is_empty (s ++ t) ≡ false
is_empty-append [] t h = h
is_empty-append (a ∷ s) t h = refl

trim_end-append : (s t : Text) → is_empty t ≡ false → trim_end t ≡ t → trim_end (s ++ t) ≡ s ++ t
unfolding trim_end
trim_end-append [] t k h = h
trim_end-append (a ∷ s) t k h = ground (arith, trim_end-append s t k h, is_empty-append s t k)

trim_end-append_blank :
    (s : Text) (b : ℕ) → is_whitespace b ≡ true → trim_end (s ++ b ∷ []) ≡ trim_end s
unfolding trim_end
trim_end-append_blank [] b h = ground arith
trim_end-append_blank (a ∷ s) b h = ground (arith, trim_end-append_blank s b)

trim_end-word : (c : ℕ) (s : Text) → IsWord (c ∷ s) → trim_end (c ∷ s) ≡ c ∷ s
unfolding trim_end
trim_end-word c [] h = ground arith
trim_end-word c (d ∷ s) h =
    let h' : IsWord (d ∷ s) = ground arith in ground (arith, trim_end-word d s h')

pub is_empty-join :
    (c : ℕ) (s : Text) (ws : List Text) → is_empty (join (b' ' ∷ []) ((c ∷ s) ∷ ws)) ≡ false
unfolding join
is_empty-join c s [] = refl
is_empty-join c s (w ∷ ws) = refl

trim_start-join :
    (c : ℕ) (s : Text) (ws : List Text) (t : Text)
    → is_whitespace c ≡ false
    → trim_start (join (b' ' ∷ []) ((c ∷ s) ∷ ws) ++ t) ≡ join (b' ' ∷ []) ((c ∷ s) ∷ ws) ++ t
unfolding join trim_start
trim_start-join c s [] t h = rw h
trim_start-join c s (w ∷ ws) t h = rw h

trim_end-join :
    (c : ℕ) (s : Text) (ws : List Text)
    → All IsWord ((c ∷ s) ∷ ws)
    → trim_end (join (b' ' ∷ []) ((c ∷ s) ∷ ws)) ≡ join (b' ' ∷ []) ((c ∷ s) ∷ ws)
unfolding join
trim_end-join c s [] h = trim_end-word c s h.0
trim_end-join c s ([] ∷ ws) h = elim h.1.0 [ ]
trim_end-join c s ((d ∷ t) ∷ ws) h =
    let tail = join (b' ' ∷ []) ((d ∷ t) ∷ ws) in
    trim_end-append (c ∷ s) (b' ' ∷ tail) refl
      (trim_end-append (b' ' ∷ []) tail (is_empty-join d t ws) (trim_end-join d t ws h.1))

-- A line of words comes out of `trim` without its newline.
pub trim-join :
    (w : Text) (ws : List Text)
    → All IsWord (w ∷ ws)
    → trim (join (b' ' ∷ []) (w ∷ ws) ++ newline ∷ []) ≡ join (b' ' ∷ []) (w ∷ ws)
unfolding trim
trim-join [] ws h = elim h.0 [ ]
trim-join (c ∷ s) ws h =
    rw (trim_start-join c s ws (newline ∷ []) h.0.0) (
      trim_end-append_blank (join (b' ' ∷ []) ((c ∷ s) ∷ ws)) newline refl ∙ trim_end-join c s ws h)
