-- ===== src/Tests/Shortage.antt =====
-- Calls whose allocations fail.
use mathlib.Core.List.{Sublistᴰ}
use opentracing_cpp.Base.{ℕ, suc, ◌≡◌, ◌⊎◌, ◌↔◌, true, false, List, [], ◌∷◌, none, some, codes}
use opentracing_cpp.Base.Int.{pos}
use opentracing_cpp.SpanData.{uint64}
use opentracing_cpp.SpanData.Comparison.{equal_span_data, differing_span_data, SameData}
use opentracing_cpp.SpanData.Equality.{equal_span_data_iff}
use opentracing_cpp.Recorder.{InMemoryRecorder, in_memory}
use opentracing_cpp.Span.{FinishSpanOptions, Clocks, Generator}
use opentracing_cpp.Base.{refl}
use opentracing_cpp.Dict.{assign, find, before}
use opentracing_cpp.Base.{Bool, Option, map}
use opentracing_cpp.SpanData.{Value, string}
use opentracing_cpp.Span.Threads.{Setter, sets_operation_name, sets_tag, logs}
use opentracing_cpp.Span.Shortage.Setters.{Short, body, call, run}
use opentracing_cpp.Span.Shortage.Kept.{Effect, made, take_effects, Survives, run-Survives}
use opentracing_cpp.Span.Shortage.{finish_or_terminate}
use opentracing_cpp.Propagation.TextMap.{default_options}
use opentracing_cpp.Tracer.{MockTracer}
use opentracing_cpp.Options.{StartSpanOption, set_tag, start_timestamp, start_span}
use opentracing_cpp.Options.Shortage.{start_span_short, start_span_short-sublist}
use opentracing_cpp.Tests.Threads.{span}

abbrev setters : List Setter
setters =
    sets_tag (codes "a") (string (codes "x"))
    ∷ sets_operation_name (codes "other")
    ∷ logs (pos 3) ((codes "k", uint64 1) ∷ [])
    ∷ []

-- A variant without a value.
abbrev abandoned : Value → Option Value
abandoned value = none

abbrev untagged : Short
untagged = record { span = span; tags = [] }

-- The copy of the tag's value fails, and the new name has no memory.
abbrev heap : List Bool
heap = true ∷ true ∷ false ∷ false ∷ []

run-Survives_example :
    ((effects : List Effect) × Survives abandoned setters effects
      × ((run abandoned setters untagged heap).0 ≡ take_effects effects untagged))
    × ((run abandoned setters untagged []).0 ≡ take_effects (map made setters) untagged)
run-Survives_example = run-Survives abandoned setters untagged heap

-- The tag is there, and has no value.
spoiled_example : (run abandoned setters untagged heap).0.tags ≡ (codes "a", none) ∷ []
unfolding run call body assign find before
spoiled_example = refl

-- Log records make `FinishWithOptions` take memory, and one allocation fails.
abbrev with_record : FinishSpanOptions
with_record = record {
  finish_steady_timestamp = pos 9;
  log_records = record { timestamp = pos 8; fields = (codes "k", uint64 1) ∷ [] } ∷ [];
}

terminates_example :
    finish_or_terminate
      (in_memory (λ d. d))
      (pos 8)
      with_record
      span
      (some (record { spans = [] }))
      (true ∷ true ∷ false ∷ [])
    ≡ none
unfolding finish_or_terminate
terminates_example = refl

abbrev counter : Generator ℕ
counter = record { next = λ n. (n, suc n) }

abbrev now : Clocks
now = record { system_now = pos 1000; steady_now = pos 50 }

abbrev tracer : MockTracer InMemoryRecorder
tracer = record { recorder = some (record { spans = [] }); propagation_options = default_options }

abbrev start_options : List StartSpanOption
start_options =
    set_tag (codes "a") (uint64 1)
    ∷ set_tag (codes "b") (uint64 2)
    ∷ start_timestamp (pos 5) (pos 6)
    ∷ []

-- The first tag has no memory for its value.
start_span_short_example :
    ((start_span_short tracer counter 7 now (codes "work") start_options (true ∷ false ∷ [])
        ≡ (none, 7))
      ⊎ ((kept : List StartSpanOption) × Sublistᴰ kept start_options
          × (start_span_short tracer counter 7 now (codes "work") start_options (true ∷ false ∷ [])
              ≡ start_span tracer counter 7 now (codes "work") kept)))
    × (start_span_short tracer counter 7 now (codes "work") start_options []
        ≡ start_span tracer counter 7 now (codes "work") start_options)
start_span_short_example =
    start_span_short-sublist tracer counter 7 now (codes "work") start_options (true ∷ false ∷ [])

-- A comparison that takes all values for equal.
equal_span_data_example :
    ((equal_span_data (λ v w. true) span.data_ span.data_ ≡ true)
      ↔ SameData (λ v w. true) span.data_ span.data_)
    × ((differing_span_data (λ v w. true) span.data_ span.data_ ≡ false)
        ↔ SameData (λ v w. true) span.data_ span.data_)
equal_span_data_example = equal_span_data_iff (λ v w. true) span.data_ span.data_
