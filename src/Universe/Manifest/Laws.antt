-- ===== src/Universe/Manifest/Laws.antt =====
-- The codes of tiers and languages (manifest.rs), and what an artifact is when it is new.
use sovereign_event_bus.Base.{ℕ, nat_eq, ◌≡◌, ◌<◌, refl, none, some, arith}
use sovereign_event_bus.Base.Text.{Text, codes, text_eq, text_beq_iff}
use sovereign_event_bus.Universe.Manifest.{ArtifactTier, t0, as_u8, from_u8, as_str, from_str}

-- A tier is the number of its code and of no other: the code reads back, and a number that reads
-- as a tier is its code; the numbers from 4 on are no tiers.
pub from_u8-as_u8 :
    (t : ArtifactTier) (n : ℕ)
    → (from_u8 (as_u8 t) ≡ some t) × (from_u8 n ≡ some t → as_u8 t ≡ n) × (3 < n → from_u8 n ≡ none)
unfolding from_u8 as_u8
from_u8-as_u8 t0 n = (refl, ground arith, ground arith)
from_u8-as_u8 _ n = (refl, ground arith, ground arith)

-- Every text is the name of the language that it is read as.
pub as_str-from_str : (s : Text) → as_str (from_str s) ≡ s
unfolding as_str from_str
as_str-from_str s = ground (
  arith,
  text_beq_iff s (codes "rust"),
  text_beq_iff s (codes "lean4"),
  text_beq_iff s (codes "ada"),
  text_beq_iff s (codes "pl1"),
  text_beq_iff s (codes "prolog"),
  text_beq_iff s (codes "haskell"),
)
