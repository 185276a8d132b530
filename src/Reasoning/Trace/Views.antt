-- ===== src/Reasoning/Trace/Views.antt =====
-- The views of a trace of trace.rs: its S-expression, its JSON-LD form and the symbols it mentions.
-- `none` is the panic of a description.
use sovereign_event_bus.Base.{
  ℕ, Option, none, some, Bool, true, false, List, [], ◌∷◌, ◌++◌, if◌then◌else◌, ltb, nat_beq, ◌==◌,
}
use mathlib.Core.Option
use sovereign_event_bus.Base.Text.{Text, codes, text_eq}
use sovereign_event_bus.Base.Text.Lines.{join}
use sovereign_event_bus.Base.Text.Slices.{decimal}
use sovereign_event_bus.Base.Json.{Json, number, text, array, object, field, end, items}
use sovereign_event_bus.Reasoning.Trace.{
  ReasoningStep, retrieve, check_authorization, TracedStep, ReasoningTrace, description,
}

-- The results of a loop whose body may panic.
abbrev pub each {ℓ κ} : {A : Type ℓ} {B : Type κ} → (A → Option B) → List A → Option (List B)
each f [] = some []
each f (x ∷ xs) =
    let rest = each f xs in elim (f x) [ none ↦ none | some y ↦ Option.map (◌∷◌ y) rest ]

-- The order of `String`, which is that of the code points as well.
abbrev pub text_before : Text → Text → Bool
text_before [] [] = false
text_before [] (b ∷ t) = true
text_before (a ∷ s) [] = false
text_before (a ∷ s) (b ∷ t) = let rest = text_before s t in if nat_beq a b then rest else ltb a b

unfoldable pub insert_sorted : Text → List Text → List Text
insert_sorted s [] = s ∷ []
insert_sorted s (t ∷ ts) =
    let rest = insert_sorted s ts in if text_before t s then t ∷ rest else s ∷ (t ∷ ts)

-- `symbols.sort()`.
unfoldable pub sort : List Text → List Text
sort [] = []
sort (s ∷ ss) = insert_sorted s (sort ss)

-- `symbols.dedup()`: of equal neighbours the first stays.
unfoldable pub dedup_after : Text → List Text → List Text
dedup_after s [] = []
dedup_after s (t ∷ ts) =
    let skipped = dedup_after s ts in
    let kept = t ∷ dedup_after t ts in if t == s then skipped else kept

unfoldable pub dedup : List Text → List Text
dedup [] = []
dedup (s ∷ ss) = s ∷ dedup_after s ss

module _ {F64 : Type 0} where
  unfoldable pub step_symbols : ReasoningStep F64 → List Text
  step_symbols (retrieve source symbol result) = symbol ∷ []
  step_symbols (check_authorization principal action resource allowed reason) =
      principal ∷ action ∷ resource ∷ []
  step_symbols _ = []

  unfoldable pub all_symbols : List (TracedStep F64) → List Text
  all_symbols [] = []
  all_symbols (s ∷ ss) = step_symbols s.step ++ all_symbols ss

  unfoldable pub extract_symbols : ReasoningTrace F64 → List Text
  extract_symbols t = dedup (sort (all_symbols t.steps))

  module _ (percent : F64 → Text) where
    unfoldable pub step_expr : TracedStep F64 → Option Text
    step_expr s =
        Option.map
          (λ d.
            codes "(step "
            ++ (decimal s.index
                ++ (codes " \"" ++ (d ++ (codes "\" " ++ (s.step_hash ++ codes ")"))))))
          (description percent s.step)

    unfoldable pub to_s_expr : ReasoningTrace F64 → Option Text
    to_s_expr t =
        Option.map
          (λ steps.
            codes "(reasoning "
            ++ (join (codes " ") (
                  (codes "(trace-id \"" ++ (t.trace_id ++ codes "\")"))
                  ∷ (codes "(agent \"" ++ (t.agent_id ++ codes "\")"))
                  ∷ (codes "(competency \"" ++ (t.competency ++ codes "\")"))
                  ∷ steps)
                ++ codes ")"))
          (each step_expr t.steps)

    unfoldable pub step_ld : (ℕ → Text) → TracedStep F64 → Option Json
    step_ld to_rfc3339 s =
        Option.map
          (λ d. object (
            field (codes "@type") (text (codes "ReasoningStep")) (
              field (codes "index") (number s.index) (
                field (codes "timestamp") (text (to_rfc3339 s.timestamp)) (
                  field (codes "description") (text d)
                    (field (codes "hash") (text s.step_hash) end))))))
          (description percent s.step)

    unfoldable pub to_json_ld : (ℕ → Text) → ReasoningTrace F64 → Option Json
    to_json_ld to_rfc3339 t =
        Option.map
          (λ steps. object (
            field (codes "@context") (text (codes "https://www.w3.org/ns/activitystreams")) (
              field (codes "@id") (text (codes "trace:" ++ t.trace_id)) (
                field (codes "@type") (text (codes "ReasoningTrace")) (
                  field (codes "agent") (text t.agent_id) (
                    field (codes "competency") (text t.competency) (
                      field (codes "steps") (array (items steps)) (
                        field (codes "duration")
                          (text (codes "PT" ++ (decimal t.duration_ms ++ codes "MS")))
                          (field (codes "created") (text (to_rfc3339 t.created_at)) end)))))))))
          (each (step_ld to_rfc3339) t.steps)
