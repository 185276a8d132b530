-- ===== src/Reasoning/Timeline.antt =====
-- The timelines of seb/reasoning/src/streaming.rs. The bar of an entry is measured with floats, whose
-- operations are an interface; the text of a percentage is a parameter, as in trace.rs.
pub mod Durations
pub mod Bars
pub mod Tests
use sovereign_event_bus.Base.{
  ℕ, zero, suc, ◌+◌, ◌-◌, ◌/◌, Option, none, some, Bool, List, [], ◌∷◌, ◌++◌, if◌then◌else◌, leb,
  ltb, length, replicate,
}
use mathlib.Core.Option
use sovereign_event_bus.Base.Float.{Float}
use sovereign_event_bus.Base.Text.{Text, codes}
use sovereign_event_bus.Base.Text.Slices.{decimal, slice_to, utf8_len}
use sovereign_event_bus.Reasoning.Trace.{TracedStep, ReasoningTrace, description}

pub record TimelineEntry : Type 0 where
  pub step_index : ℕ
  pub timestamp : ℕ
  pub description : Text
  pub duration_ms : ℕ

pub record TraceTimeline : Type 0 where
  pub trace_id : Text
  pub entries : List TimelineEntry

-- `(now - prev).num_milliseconds().max(0) as u64`.
unfoldable pub elapsed_ms : (now prev : ℕ) → ℕ
elapsed_ms now prev = (now - prev) / 1000000

module _ {F64 : Type 0} (percent : F64 → Text) where
  -- The loop from step `i` on; `none` is the panic of a description.
  unfoldable pub entries_from : ℕ → ℕ → List (TracedStep F64) → Option (List TimelineEntry)
  entries_from i prev_time [] = some []
  entries_from i prev_time (s ∷ ss) =
      let rest = entries_from (suc i) s.timestamp ss in
      elim (description percent s.step) [
        | none ↦ none
        | some d ↦
            Option.map
              (◌∷◌ (record {
                step_index = i;
                timestamp = s.timestamp;
                description = d;
                duration_ms = elapsed_ms s.timestamp prev_time;
              }))
              rest
      ]

  unfoldable pub from_trace : ReasoningTrace F64 → Option TraceTimeline
  from_trace t =
      Option.map (λ es. record { trace_id = t.trace_id; entries = es })
        (entries_from 0 t.created_at t.steps)

-- `iter().map(..).max().unwrap_or(1)`.
unfoldable pub max_from : ℕ → List TimelineEntry → ℕ
max_from m [] = m
max_from m (e ∷ es) = max_from (if leb m e.duration_ms then e.duration_ms else m) es

unfoldable pub max_duration : List TimelineEntry → ℕ
max_duration [] = 1
max_duration (e ∷ es) = max_from e.duration_ms es

-- `{:02}` and `{:50}`.
unfoldable pub pad_left : ℕ → ℕ → Text → Text
pad_left filler width s = replicate (width - length s) filler ++ s

unfoldable pub pad_right : ℕ → ℕ → Text → Text
pad_right filler width s = s ++ replicate (width - length s) filler

unfoldable pub trace_id_short : Text → Option Text
trace_id_short id = if leb 16 (utf8_len id) then slice_to id 16 else some id

module _ (f : Float) where
  open f use {of_nat, mul, div, trunc}

  unfoldable pub bar_width : (duration_ms max_duration : ℕ) → ℕ
  bar_width duration_ms max_duration =
      if ltb 0 max_duration
      then trunc (mul (div (of_nat duration_ms) (of_nat max_duration)) (of_nat 40))
      else 1

  unfoldable pub entry_line : ℕ → TimelineEntry → Text
  entry_line longest e =
      codes "["
      ++ (pad_left b'0' 2 (decimal e.step_index)
          ++ (codes "] "
              ++ (pad_right b' ' 50 e.description
                  ++ (codes " "
                      ++ (replicate (bar_width e.duration_ms longest) 0x2588
                          ++ (codes " ms " ++ (decimal e.duration_ms ++ codes "ms\n")))))))

  unfoldable pub entry_lines : ℕ → List TimelineEntry → Text
  entry_lines longest [] = []
  entry_lines longest (e ∷ es) = entry_line longest e ++ entry_lines longest es

  -- `none` is the panic of `&self.trace_id[0..16]` inside a character.
  unfoldable pub render_ascii : TraceTimeline → Option Text
  render_ascii t =
      Option.map
        (λ short.
          codes "Trace: "
          ++ (short
              ++ (codes "\n"
                  ++ (replicate 29 0x2500
                      ++ (codes "\n" ++ entry_lines (max_duration t.entries) t.entries)))))
        (trace_id_short t.trace_id)
