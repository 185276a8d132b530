-- ===== src/Reasoning/Knowledge/Related.antt =====
-- The traces that the layer L5 of integration.rs finds for a symbol.
use sovereign_event_bus.Base.{
  ◌≡◌, refl, ap, sym, ◌∙◌, Option, none, some, Bool, true, false, ◌||◌, ◌&&◌, Bool-cases, inl, inr,
  List, [], ◌∷◌, any, keep, map, if◌then◌else◌, ◌==◌, eq_of_beq, arith,
}
use sovereign_event_bus.Base.Text.{Text, text_eq, text_beq}
use sovereign_event_bus.Base.Map.{Map, get, insert, keys, values}
use sovereign_event_bus.Base.Map.Laws.{IsDistinct, insert-IsDistinct}
use sovereign_event_bus.Reasoning.Trace.{ReasoningTrace}
use sovereign_event_bus.Reasoning.Trace.Views.{extract_symbols}
use sovereign_event_bus.Reasoning.Trace.Symbols.{mentioned_in, extract_symbols-Ascending}
use sovereign_event_bus.Reasoning.Streaming.{store_trace, get_traces, get_trace}
use sovereign_event_bus.Reasoning.Streaming
use sovereign_event_bus.Reasoning.Streaming.Events.{store_traces, last_with, get_trace-store_traces}
use sovereign_event_bus.Reasoning.Knowledge.{
  L5KnowledgeIntegration, new, store_reasoning_trace, query_related_traces,
}

any_front :
    {F64 : Type 0} (id : Text) (b : Bool) (t : ReasoningTrace F64) (ts : List (ReasoningTrace F64))
    → any (λ i. i == id) (map (λ t. t.trace_id) (if b then t ∷ ts else ts))
      ≡ ((b && t.trace_id == id) || any (λ i. i == id) (map (λ t. t.trace_id) ts))
any_front id true t ts = refl
any_front id false t ts = refl

module _ {F64 : Type 0} where
  unfoldable pub store_all :
      (info : Bool)
      → List (ReasoningTrace F64)
      → L5KnowledgeIntegration F64
      → L5KnowledgeIntegration F64
  store_all info [] l5 = l5
  store_all info (t ∷ ts) l5 = store_all info ts (store_reasoning_trace info t l5).0

  -- Whether there is a trace, and it mentions a symbol in one of its steps.
  abbrev pub mentions : Text → Option (ReasoningTrace F64) → Bool
  mentions symbol none = false
  mentions symbol (some t) = any (λ s. mentioned_in symbol s.step) t.steps

  -- Each trace stands under its identifier.
  abbrev Keyed : Map Text (ReasoningTrace F64) → Type 0
  Keyed [] = Unit
  Keyed ((k, t) ∷ m) = (t.trace_id ≡ k) × Keyed m

  insert-Keyed :
      (t : ReasoningTrace F64) (m : Map Text (ReasoningTrace F64))
      → Keyed m
      → Keyed (insert t.trace_id t m)
  unfolding insert
  insert-Keyed t [] h = (refl, tt)
  insert-Keyed t ((k, u) ∷ m) h = elim (Bool-cases (k == t.trace_id)) [
    | inl same ↦ rw same (sym (eq_of_beq k t.trace_id same), h.1)
    | inr other ↦ rw other (h.0, insert-Keyed t m h.1)
  ]

  get_absent :
      (k : Text) (m : Map Text (ReasoningTrace F64))
      → any (λ j. j == k) (keys m) ≡ false
      → get k m ≡ none
  unfolding get
  get_absent k [] h = refl
  get_absent k ((j, t) ∷ m) h = ground (arith, get_absent k m)

  -- Whether a trace of the map has an identifier and passes a test.
  any-keep-values :
      (symbol id : Text) (m : Map Text (ReasoningTrace F64))
      → Keyed m
      → IsDistinct (keys m)
      → any
          (λ i. i == id)
          (map
            (λ t. t.trace_id)
            (keep (λ t. any (λ s. s == symbol) (extract_symbols t)) (values m)))
        ≡ mentions symbol (get id m)
  unfolding get
  any-keep-values symbol id [] h d = refl
  any-keep-values symbol id ((k, t) ∷ m) h d =
      let rest = any-keep-values symbol id m h.1 d.1 in
      let exact = (extract_symbols-Ascending t).1 symbol in
      let found = any (λ s. s == symbol) (extract_symbols t) in
      let front =
        any_front id found t (keep (λ t. any (λ s. s == symbol) (extract_symbols t)) (values m)) in
      let named = ap (λ i. text_beq i id) h.0 in
      elim (Bool-cases (k == id)) [
        | inl same ↦
            let only = ap (λ i. get i m) (sym (eq_of_beq k id same)) ∙ get_absent k m d.0 in
            let none_left = rest ∙ ap (mentions symbol) only in
            rw same (front ∙ rw (named, same, none_left, exact) (ground arith))
        | inr other ↦ rw other (front ∙ rw (named, other, rest) (ground arith))
      ]

  pub store_all-store_traces :
      (info : Bool) (ts : List (ReasoningTrace F64)) (l5 : L5KnowledgeIntegration F64)
      → (store_all info ts l5).stream_manager ≡ store_traces ts l5.stream_manager
  unfolding store_all store_traces store_reasoning_trace
  store_all-store_traces info [] l5 = refl
  store_all-store_traces info (t ∷ ts) l5 =
      store_all-store_traces info ts (store_reasoning_trace info t l5).0

  store_traces-Keyed :
      (ts : List (ReasoningTrace F64)) (m : Streaming.ReasoningStreamManager F64)
      → Keyed m.traces
      → IsDistinct (keys m.traces)
      → Keyed (store_traces ts m).traces × IsDistinct (keys (store_traces ts m).traces)
  unfolding store_traces store_trace
  store_traces-Keyed [] m h d = (h, d)
  store_traces-Keyed (t ∷ ts) m h d =
      store_traces-Keyed ts (store_trace t m) (insert-Keyed t m.traces h)
        (insert-IsDistinct t.trace_id t m.traces d)

  -- The identifiers that a query for a symbol returns after some traces were stored are exactly those
  -- whose last stored trace retrieves the symbol in one of its steps, or checks an authorization
  -- with it as the principal, the action or the resource, and it makes no difference whether lines
  -- are logged.
  pub query_related_traces-store_all :
      (info : Bool) (ts : List (ReasoningTrace F64)) (symbol id : Text)
      → any (λ i. i == id) (query_related_traces symbol (store_all info ts new))
        ≡ mentions symbol (last_with id ts none)
  unfolding query_related_traces get_traces get_trace new Streaming.new get
  query_related_traces-store_all info ts symbol id =
      let m = store_traces ts (Streaming.new {F64 = F64}) in
      let (keyed, apart) = store_traces-Keyed ts (Streaming.new {F64 = F64}) tt tt in
      ap
        (λ m.
          any (λ i. i == id)
            (map (λ t. t.trace_id)
              (keep (λ t. any (λ s. s == symbol) (extract_symbols t)) (values m.traces))))
        (store_all-store_traces info ts new)
      ∙ any-keep-values symbol id m.traces keyed apart
      ∙ ap (mentions symbol) (get_trace-store_traces id ts (Streaming.new {F64 = F64}))
