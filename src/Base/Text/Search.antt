-- ===== src/Base/Text/Search.antt =====
-- When `contains` and `starts_with` find a part.
use mathlib.Core.Path.{◌≡◌, refl}
use mathlib.Core.Bool.{true}
use mathlib.Core.List.{[], ◌∷◌, ◌++◌}
use native.Mathlib.Omega.{arith}
use sovereign_event_bus.Base.Text.{Text, starts_with, contains}

pub starts_with-append : (p r : Text) → starts_with (p ++ r) p ≡ true
unfolding starts_with
starts_with-append [] r = refl
starts_with-append (a ∷ p) r = ground (arith, starts_with-append p r)

contains-front : (s p : Text) → starts_with s p ≡ true → contains s p ≡ true
unfolding contains
contains-front [] [] h = refl
contains-front [] (b ∷ p) h = h
contains-front (a ∷ s) p h = rw h

-- A part stands in the text.
pub contains-middle : (l p r : Text) → contains (l ++ (p ++ r)) p ≡ true
unfolding contains
contains-middle [] p r = contains-front (p ++ r) p (starts_with-append p r)
contains-middle (a ∷ l) p r = ground (arith, contains-middle l p r)

pub contains-append_right : (s t p : Text) → contains t p ≡ true → contains (s ++ t) p ≡ true
unfolding contains
contains-append_right [] t p h = h
contains-append_right (a ∷ s) t p h = ground (arith, contains-append_right s t p)
