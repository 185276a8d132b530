-- ===== src/Shrewd/Features.antt =====
-- The matrix of features that the engine of shrewd_rtx.rs makes of a window.
use sovereign_event_bus.Base.{
  ℕ, zero, suc, ◌+◌, ◌-◌, ◌≡◌, refl, ap, ap₂, sym, ◌∙◌, some, List, [], ◌∷◌, ◌++◌, append_assoc,
  map, length, length-append, length-replicate, length-map, length-drop, drop, replicate, leb,
  if◌then◌else◌, arith,
}
use mathlib.Core.Option
use sovereign_event_bus.Base.Float.{Float}
use sovereign_event_bus.Shrewd.{
  TickFeatures, Row, ShrewdRtxEngine, write, to_array, zeros, write_rows, prepare_features,
}

module _ {ℓ} {A : Type ℓ} where
  replicate_add : (m n : ℕ) (a : A) → replicate (m + n) a ≡ replicate m a ++ replicate n a
  replicate_add zero n a = ap (λ k. replicate k a) (omega arith)
  replicate_add (suc m) n a =
      let next : suc m + n ≡ suc (m + n) = omega arith in
      ap (λ k. replicate k a) next ∙ ap (◌∷◌ a) (replicate_add m n a)

  no_length : (xs : List A) → suc (length xs) ≡ 0 → ⊥
  no_length xs e = omega arith

  write-length :
      (pre : List A) (x y : A) (rest : List A)
      → write (length pre) x (pre ++ y ∷ rest) ≡ some (pre ++ x ∷ rest)
  unfolding write
  write-length [] x y rest = refl
  write-length (p ∷ pre) x y rest = ap (Option.map (◌∷◌ p)) (write-length pre x y rest)

module _ (f : Float) where
  write_rows-length :
      (src : List (TickFeatures f)) (pre rest : List (Row f))
      → length rest ≡ length src
      → write_rows f (length pre) src (pre ++ rest) ≡ some (pre ++ map (to_array f) src)
  unfolding write_rows Option.bind
  write_rows-length [] pre [] e = refl
  write_rows-length [] pre (y ∷ rest) e = elim (no_length rest e) [ ]
  write_rows-length (t ∷ src) pre [] e = elim (no_length src (sym e)) [ ]
  write_rows-length (t ∷ src) pre (y ∷ rest) e =
      let next : suc (length pre) ≡ length (pre ++ to_array f t ∷ []) =
        omega (arith, length-append pre (to_array f t ∷ [])) in
      let shorter : length rest ≡ length src = omega arith in
      let moved = append_assoc pre (to_array f t ∷ []) rest in
      rw (write-length pre (to_array f t) y rest) (
        ap₂ (λ i out. write_rows f i src out) next (sym moved)
        ∙ write_rows-length src (pre ++ to_array f t ∷ []) rest shorter
        ∙ ap some (append_assoc pre (to_array f t ∷ []) (map (to_array f) src)))

  -- The matrix of a window never panics: it has as many rows as the engine's window, at its end
  -- the rows of the last ticks, and in front of them zeros where there are too few ticks.
  pub prepare_features-eq :
      (engine : ShrewdRtxEngine) (window : List (TickFeatures f))
      → (prepare_features f engine window
          ≡ some (
              replicate (engine.window_size - length window) (zeros f)
              ++ map (to_array f) (drop (length window - engine.window_size) window)))
        × (length (
              replicate (engine.window_size - length window) (zeros f)
              ++ map (to_array f) (drop (length window - engine.window_size) window))
            ≡ engine.window_size)
  unfolding prepare_features
  prepare_features-eq engine window =
      let size = engine.window_size in
      let n : ℕ = length window in
      let src = drop (n - size) window in
      let pre : List (Row f) = replicate (size - n) (zeros f) in
      let start : (if leb size n then n - size else 0) ≡ n - size = ground arith in
      let left = length-drop (n - size) window in
      let front = length-replicate (size - n) (zeros f) in
      let offset : size - length src ≡ length pre = omega (arith, left, front) in
      let whole : size ≡ (size - n) + length src = omega (arith, left) in
      let parts =
        ap (λ k. replicate k (zeros f)) whole ∙ replicate_add (size - n) (length src) (zeros f) in
      (
        rw start (
            ap₂ (λ i out. write_rows f i src out) offset parts
            ∙ write_rows-length src pre (replicate (length src) (zeros f))
                (length-replicate (length src) (zeros f))),
        length-append pre (map (to_array f) src)
            ∙ omega (arith, left, front, length-map (to_array f) src),
      )
