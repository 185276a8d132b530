-- ===== src/Reasoning/Trace/Symbols.antt =====
-- The symbols that a trace of trace.rs mentions: sorted, each once, and all of them.
use sovereign_event_bus.Base.{
  ◌≡◌, refl, ap, ap₂, subst, ◌∙◌, Bool, true, false, ◌||◌, Bool-cases, inl, inr, List, [], ◌∷◌,
  ◌++◌, any, ◌==◌, eq_of_beq, arith,
}
use sovereign_event_bus.Base.Text.{Text, text_eq, text_beq, text_beq_iff}
use sovereign_event_bus.Reasoning.Trace.{
  ReasoningStep, retrieve, verify_step, apply_rule, check_authorization, challenge, rebuttal,
  conclude, compose, TracedStep, ReasoningTrace,
}
use sovereign_event_bus.Reasoning.Trace.Views.{
  text_before, insert_sorted, sort, dedup_after, dedup, step_symbols, all_symbols, extract_symbols,
}

text_before-antisym : (s t : Text) → text_before s t ≡ false → text_before t s ≡ false → s ≡ t
text_before-antisym [] [] h k = refl
text_before-antisym [] (b ∷ t) h k = cc
text_before-antisym (a ∷ s) [] h k = cc
text_before-antisym (a ∷ s) (b ∷ t) h k = ground (arith, text_before-antisym s t)

text_before-asym : (s t : Text) → text_before s t ≡ true → text_before t s ≡ false
text_before-asym [] [] h = cc
text_before-asym [] (b ∷ t) h = refl
text_before-asym (a ∷ s) [] h = cc
text_before-asym (a ∷ s) (b ∷ t) h = ground (arith, text_before-asym s t)

-- No symbol of the list stands behind a larger one, nor behind a given one.
abbrev Ordered : Text → List Text → Type 0
Ordered s [] = Unit
Ordered s (t ∷ ts) = (text_before t s ≡ false) × Ordered t ts

abbrev pub AscendingFrom : Text → List Text → Type 0
AscendingFrom s [] = Unit
AscendingFrom s (t ∷ ts) = (text_before s t ≡ true) × AscendingFrom t ts

-- Each symbol stands before the next one.
abbrev pub Ascending : List Text → Type 0
Ascending [] = Unit
Ascending (s ∷ ss) = AscendingFrom s ss

-- In front of a list there is no bound.
abbrev OrderedList : List Text → Type 0
OrderedList [] = Unit
OrderedList (s ∷ ss) = Ordered s ss

insert_sorted-Ordered :
    (a s : Text) (ts : List Text)
    → text_before s a ≡ false
    → Ordered a ts
    → Ordered a (insert_sorted s ts)
unfolding insert_sorted
insert_sorted-Ordered a s [] h o = (h, tt)
insert_sorted-Ordered a s (t ∷ ts) h o = elim (Bool-cases (text_before t s)) [
  | inl before ↦ rw before (o.0, insert_sorted-Ordered t s ts (text_before-asym t s before) o.1)
  | inr behind ↦ rw behind (h, (behind, o.1))
]

insert_sorted-OrderedList :
    (s : Text) (ts : List Text) → OrderedList ts → OrderedList (insert_sorted s ts)
unfolding insert_sorted
insert_sorted-OrderedList s [] o = tt
insert_sorted-OrderedList s (t ∷ ts) o = elim (Bool-cases (text_before t s)) [
  | inl before ↦ rw before (insert_sorted-Ordered t s ts (text_before-asym t s before) o)
  | inr behind ↦ rw behind (behind, o)
]

sort-OrderedList : (ss : List Text) → OrderedList (sort ss)
unfolding sort
sort-OrderedList [] = tt
sort-OrderedList (s ∷ ss) = insert_sorted-OrderedList s (sort ss) (sort-OrderedList ss)

before_other :
    (s t : Text) → text_before t s ≡ false → text_beq t s ≡ false → text_before s t ≡ true
before_other s t o other = elim (Bool-cases (text_before s t)) [
  | inl before ↦ before
  | inr behind ↦
      let same = (text_beq_iff t s).1 (text_before-antisym t s o behind) in
      let absurd : ⊥ = cc in elim absurd [ ]
]

dedup_after-AscendingFrom :
    (s : Text) (ts : List Text) → Ordered s ts → AscendingFrom s (dedup_after s ts)
unfolding dedup_after
dedup_after-AscendingFrom s [] o = tt
dedup_after-AscendingFrom s (t ∷ ts) o = elim (Bool-cases (t == s)) [
  | inl same ↦
      rw same (dedup_after-AscendingFrom s ts (subst (λ r. Ordered r ts) (eq_of_beq t s same) o.1))
  | inr other ↦ rw other (before_other s t o.0 other, dedup_after-AscendingFrom t ts o.1)
]

any-insert_sorted :
    (x s : Text) (ts : List Text)
    → any (λ r. r == x) (insert_sorted s ts) ≡ (s == x || any (λ r. r == x) ts)
unfolding insert_sorted
any-insert_sorted x s [] = refl
any-insert_sorted x s (t ∷ ts) = ground (arith, any-insert_sorted x s ts)

any-sort : (x : Text) (ss : List Text) → any (λ r. r == x) (sort ss) ≡ any (λ r. r == x) ss
unfolding sort
any-sort x [] = refl
any-sort x (s ∷ ss) = any-insert_sorted x s (sort ss) ∙ ap (λ b. text_beq s x || b) (any-sort x ss)

any-dedup_after :
    (x s : Text) (ts : List Text)
    → (s == x || any (λ r. r == x) (dedup_after s ts)) ≡ (s == x || any (λ r. r == x) ts)
unfolding dedup_after
any-dedup_after x s [] = refl
any-dedup_after x s (t ∷ ts) = elim (Bool-cases (t == s)) [
  | inl same ↦
      let equal = ap (λ r. text_beq r x) (eq_of_beq t s same) in
      rw same (any-dedup_after x s ts ∙ rw equal (ground arith))
  | inr other ↦ rw other (ap (λ b. text_beq s x || b) (any-dedup_after x t ts))
]

any-dedup : (x : Text) (ss : List Text) → any (λ r. r == x) (dedup ss) ≡ any (λ r. r == x) ss
unfolding dedup
any-dedup x [] = refl
any-dedup x (s ∷ ss) = any-dedup_after x s ss

dedup-Ascending : (ss : List Text) → OrderedList ss → Ascending (dedup ss)
unfolding dedup
dedup-Ascending [] o = tt
dedup-Ascending (s ∷ ss) o = dedup_after-AscendingFrom s ss o

any-append_texts :
    (x : Text) (ss ts : List Text)
    → any (λ r. r == x) (ss ++ ts) ≡ (any (λ r. r == x) ss || any (λ r. r == x) ts)
any-append_texts x [] ts = refl
any-append_texts x (s ∷ ss) ts = ground (arith, any-append_texts x ss ts)

module _ {F64 : Type 0} where
  -- A retrieval mentions its symbol, a check of authorization its principal, action and resource.
  abbrev pub mentioned_in : Text → ReasoningStep F64 → Bool
  mentioned_in x (retrieve source symbol result) = symbol == x
  mentioned_in x (check_authorization principal action resource allowed reason) =
      principal == x || (action == x || resource == x)
  mentioned_in x (verify_step target method valid error) = false
  mentioned_in x (apply_rule rule_id premises conclusion) = false
  mentioned_in x (challenge target_trace_id target_step_index counter_evidence) = false
  mentioned_in x (rebuttal challenge_trace_id answer) = false
  mentioned_in x (conclude conclusion confidence) = false
  mentioned_in x (compose sub_trace_ids composition_rule) = false

  any-step_symbols :
      (x : Text) (s : ReasoningStep F64) → any (λ r. r == x) (step_symbols s) ≡ mentioned_in x s
  unfolding step_symbols
  any-step_symbols x (retrieve source symbol result) = ground arith
  any-step_symbols x (check_authorization principal action resource allowed reason) = ground arith
  any-step_symbols x (verify_step target method valid error) = refl
  any-step_symbols x (apply_rule rule_id premises conclusion) = refl
  any-step_symbols x (challenge target_trace_id target_step_index counter_evidence) = refl
  any-step_symbols x (rebuttal challenge_trace_id answer) = refl
  any-step_symbols x (conclude conclusion confidence) = refl
  any-step_symbols x (compose sub_trace_ids composition_rule) = refl

  any-all_symbols :
      (x : Text) (steps : List (TracedStep F64))
      → any (λ r. r == x) (all_symbols steps) ≡ any (λ s. mentioned_in x s.step) steps
  unfolding all_symbols
  any-all_symbols x [] = refl
  any-all_symbols x (s ∷ ss) =
      any-append_texts x (step_symbols s.step) (all_symbols ss)
      ∙ ap₂ (λ a b. a || b) (any-step_symbols x s.step) (any-all_symbols x ss)

  -- The symbols of a trace are in ascending order, so that none is there twice, and they are exactly
  -- the symbols of its retrievals and the principals, actions and resources of its checks of
  -- authorization.
  pub extract_symbols-Ascending :
      (t : ReasoningTrace F64)
      → Ascending (extract_symbols t)
        × ((x : Text)
            → any (λ s. s == x) (extract_symbols t) ≡ any (λ s. mentioned_in x s.step) t.steps)
  unfolding extract_symbols
  extract_symbols-Ascending t =
      let symbols = all_symbols t.steps in
      (
        dedup-Ascending (sort symbols) (sort-OrderedList symbols),
        λ x. any-dedup x (sort symbols) ∙ any-sort x symbols ∙ any-all_symbols x t.steps,
      )
