-- ===== src/Reasoning/Trace/Addresses.antt =====
-- The steps, the addresses and the signatures of the traces of trace.rs.
use sovereign_event_bus.Base.{
  ℕ, suc, ◌+◌, ◌≡◌, ◌≢◌, refl, true, List, [], ◌∷◌, ◌++◌, length, length-append, is_empty, not,
  arith,
}
use sovereign_event_bus.Base.Text.{Text}
use sovereign_event_bus.Reasoning.Trace.{
  ReasoningStep, TracedStep, ReasoningTrace, add_step, finalize, cleared, sign, verify,
}

module _ {F64 : Type 0} (step_json : ReasoningStep F64 → Text) (blake3_hex : Text → Text) where
  -- Steps that are numbered from n on, each with the hash of its content.
  abbrev pub Numbered : ℕ → List (TracedStep F64) → Type 0
  Numbered n [] = Unit
  Numbered n (s ∷ ss) =
      (s.index ≡ n) × (s.step_hash ≡ blake3_hex (step_json s.step)) × Numbered (suc n) ss

  -- The steps that are added one after the other, each at its time.
  unfoldable pub add_steps : List (ℕ × ReasoningStep F64) → ReasoningTrace F64 → ReasoningTrace F64
  add_steps [] t = t
  add_steps ((now, s) ∷ rest) t = add_steps rest (add_step step_json blake3_hex now s t)

  Numbered-append :
      (n : ℕ) (ss : List (TracedStep F64)) (s : TracedStep F64)
      → Numbered n ss
      → s.index ≡ n + length ss
      → s.step_hash ≡ blake3_hex (step_json s.step)
      → Numbered n (ss ++ s ∷ [])
  Numbered-append n [] s h index hash = (omega (arith, index), hash, tt)
  Numbered-append n (x ∷ ss) s h index hash =
      (h.0, h.1, Numbered-append (suc n) ss s h.2 (omega (arith, index)) hash)

  -- However many steps are added to a trace whose steps are numbered, they stay numbered from 0 on
  -- without a gap, each with the hash of its own content.
  pub add_steps-Numbered :
      (steps : List (ℕ × ReasoningStep F64)) (t : ReasoningTrace F64)
      → Numbered 0 t.steps
      → Numbered 0 (add_steps steps t).steps
        × (length (add_steps steps t).steps ≡ length t.steps + length steps)
  unfolding add_steps add_step
  add_steps-Numbered [] t h = (h, omega arith)
  add_steps-Numbered ((now, s) ∷ rest) t h =
      let t' = add_step step_json blake3_hex now s t in
      let (numbered, len) =
        add_steps-Numbered rest t' (Numbered-append 0 t.steps _ h (omega arith) refl) in
      let new_step : TracedStep F64 = record {
        index = length t.steps;
        timestamp = now;
        step = s;
        step_hash = blake3_hex (step_json s);
      } in
      let one = length-append t.steps (new_step ∷ []) in (numbered, omega (arith, len, one))

nonempty_text : (s : Text) → s ≢ [] → not (is_empty s) ≡ true
nonempty_text [] h = elim (h refl) [ ]
nonempty_text (c ∷ s) h = refl

module _ {F64 : Type 0} (trace_json : ReasoningTrace F64 → Text) (blake3_hex : Text → Text) where
  -- Where no hash is empty, the signature of one trace is accepted on every other trace and under
  -- every key.
  pub verify-sign :
      ((s : Text) → blake3_hex s ≢ [])
      → (key other : List ℕ) (t u : ReasoningTrace F64)
      → verify other (record u { signature = (sign trace_json blake3_hex key t).signature }) ≡ true
  unfolding verify sign finalize cleared
  verify-sign nonempty key other t u =
      nonempty_text (blake3_hex (blake3_hex (trace_json (cleared t)))) (nonempty _)
