-- ===== src/Reasoning/Streaming/Events.antt =====
-- What the stream manager returns for a partition, and for a trace, after a sequence of calls.
use sovereign_event_bus.Base.{
  ◌+◌, ◌≡◌, refl, ap, sym, ◌∙◌, Option, some, Bool-cases, inl, inr, List, [], ◌∷◌, ◌++◌, append-nil,
  append_assoc, if◌then◌else◌, keep, keep-append, length, length-append, ◌==◌, arith,
}
use sovereign_event_bus.Base.Text.{Text, codes, text_eq}
use sovereign_event_bus.Base.Json.{number}
use sovereign_event_bus.Base.Map.{Map, get, insert, upsert}
use sovereign_event_bus.Base.Map.Laws.{get-insert, get-upsert}
use sovereign_event_bus.Reasoning.A2aProtocol.{
  A2aReasoningEvent, ReasoningPartition, path, A2aProtocolHandler, get_events,
  get_events_by_partition,
}
use sovereign_event_bus.Reasoning.Trace.{ReasoningTrace}
use sovereign_event_bus.Reasoning.Streaming.{
  ReasoningStreamManager, emit_event, store_trace, get_partition_events, get_trace, count_events,
  get_summary, get_traces,
}

count_events-upsert :
    (p : Text) (e : A2aReasoningEvent) (b : Map Text (List A2aReasoningEvent))
    → count_events (upsert p [] (λ es. es ++ e ∷ []) b) ≡ count_events b + 1
unfolding count_events upsert
count_events-upsert p e [] = refl
count_events-upsert p e ((q, es) ∷ b) =
    ground (arith, count_events-upsert p e b, length-append es (e ∷ []))

module _ {F64 : Type 0} where
  unfoldable pub emit_events :
      List A2aReasoningEvent → ReasoningStreamManager F64 → ReasoningStreamManager F64
  emit_events [] m = m
  emit_events (e ∷ es) m = emit_events es (emit_event e m)

  unfoldable pub store_traces :
      List (ReasoningTrace F64) → ReasoningStreamManager F64 → ReasoningStreamManager F64
  store_traces [] m = m
  store_traces (t ∷ ts) m = store_traces ts (store_trace t m)

  get_partition_events-emit_event :
      (p : Text) (e : A2aReasoningEvent) (m : ReasoningStreamManager F64)
      → get_partition_events p (emit_event e m)
        ≡ get_partition_events p m ++ keep (λ e. e.partition == p) (e ∷ [])
  unfolding get_partition_events emit_event
  get_partition_events-emit_event p e m = elim (Bool-cases (e.partition == p)) [
    | inl here ↦
        rw (here, get-upsert e.partition p [] (λ es. es ++ e ∷ []) m.event_buffer, here) refl
    | inr other ↦
        rw (other, get-upsert e.partition p [] (λ es. es ++ e ∷ []) m.event_buffer, other)
          (sym (append-nil _))
  ]

  -- A manager returns for a partition what it held before, and then the events that were emitted to
  -- that partition, in their order, whatever was emitted to other partitions in between.
  pub get_partition_events-emit_events :
      (p : Text) (es : List A2aReasoningEvent) (m : ReasoningStreamManager F64)
      → get_partition_events p (emit_events es m)
        ≡ get_partition_events p m ++ keep (λ e. e.partition == p) es
  unfolding emit_events
  get_partition_events-emit_events p [] m = sym (append-nil _)
  get_partition_events-emit_events p (e ∷ es) m =
      get_partition_events-emit_events p es (emit_event e m)
      ∙ ap (λ l. l ++ keep (λ e. e.partition == p) es) (get_partition_events-emit_event p e m)
      ∙ append_assoc (get_partition_events p m) (keep (λ e. e.partition == p) (e ∷ [])) _
      ∙ ap (λ l. get_partition_events p m ++ l)
          (sym (keep-append (λ e. e.partition == p) (e ∷ []) es))

  -- A stream that is fed with the log of a handler returns for each partition, behind what it held
  -- before, the events that the handler returns for that partition.
  pub get_partition_events-get_events :
      (h : A2aProtocolHandler) (p : ReasoningPartition) (m : ReasoningStreamManager F64)
      → get_partition_events (path p) (emit_events (get_events h) m)
        ≡ get_partition_events (path p) m ++ get_events_by_partition h p
  unfolding get_events get_events_by_partition
  get_partition_events-get_events h p m = get_partition_events-emit_events (path p) h.event_log m

  count_events-emit_events :
      (es : List A2aReasoningEvent) (m : ReasoningStreamManager F64)
      → count_events (emit_events es m).event_buffer ≡ count_events m.event_buffer + length es
  unfolding emit_events emit_event
  count_events-emit_events [] m = omega arith
  count_events-emit_events (e ∷ es) m = omega (
    arith,
    count_events-emit_events es (emit_event e m),
    count_events-upsert e.partition e m.event_buffer,
  )

  emit_events-traces :
      (es : List A2aReasoningEvent) (m : ReasoningStreamManager F64)
      → (emit_events es m).traces ≡ m.traces
  unfolding emit_events emit_event
  emit_events-traces [] m = refl
  emit_events-traces (e ∷ es) m = emit_events-traces es (emit_event e m)

  -- The last of the traces with an identifier, and before them the one that was there.
  abbrev pub last_with :
      Text → List (ReasoningTrace F64) → Option (ReasoningTrace F64) → Option (ReasoningTrace F64)
  last_with id [] before = before
  last_with id (t ∷ ts) before = last_with id ts (if t.trace_id == id then some t else before)

  -- An identifier gives the trace that was stored under it last.
  pub get_trace-store_traces :
      (id : Text) (ts : List (ReasoningTrace F64)) (m : ReasoningStreamManager F64)
      → get_trace id (store_traces ts m) ≡ last_with id ts (get_trace id m)
  unfolding get_trace store_traces store_trace
  get_trace-store_traces id [] m = refl
  get_trace-store_traces id (t ∷ ts) m =
      get_trace-store_traces id ts (store_trace t m)
      ∙ ap (last_with id ts) (get-insert t.trace_id id t m.traces)

  -- The summary of a manager counts every event that was ever emitted to it.
  pub get_summary-emit_events :
      (es : List A2aReasoningEvent) (m : ReasoningStreamManager F64)
      → get (codes "total_events") (get_summary (emit_events es m))
        ≡ some (number (count_events m.event_buffer + length es))
  unfolding get_summary get insert get_traces
  get_summary-emit_events es m = ap (λ n. some (number n)) (count_events-emit_events es m)
