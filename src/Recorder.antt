-- ===== src/Recorder.antt =====
-- The recorders: the interface of mocktracer/include/opentracing/mocktracer/recorder.h, and
-- mocktracer/src/in_memory_recorder.cpp. Each method holds the recorder's mutex from begin to
-- end, so a call is one step.
pub mod Contents
pub mod Shortage
use opentracing_cpp.Base.{ℕ, List, [], ◌∷◌, ◌++◌, Option, none, some, length}
use opentracing_cpp.SpanData.{SpanData}

-- `Recorder`: `R` is the state of the object. `RecordSpan` takes an rvalue reference, and may leave
-- other data in it than it held.
pub record Recorder (R : Type 0) : Type 0 where
  pub record_span : SpanData → R → R × SpanData
  pub close : R → R

-- Some spans are recorded, one after the other.
unfoldable pub record_all : {R : Type 0} → Recorder R → List SpanData → R → R
record_all recorder [] r = r
record_all recorder (s ∷ spans) r = record_all recorder spans ((recorder.record_span s r).0)

pub record InMemoryRecorder : Type 0 where
  pub spans : List SpanData

-- `emplace_back` moves out of the argument, and `left` says what stays there.
unfoldable pub in_memory_record_span :
    (SpanData → SpanData) → SpanData → InMemoryRecorder → InMemoryRecorder × SpanData
in_memory_record_span left span_data r =
    (record { spans = r.spans ++ span_data ∷ [] }, left span_data)

-- `spans`: a copy.
unfoldable pub in_memory_spans : InMemoryRecorder → List SpanData
in_memory_spans r = r.spans

unfoldable pub in_memory_size : InMemoryRecorder → ℕ
in_memory_size r = length r.spans

-- The last span of a list, by the recursion that walks to it.
abbrev pub last_span : List SpanData → Option SpanData
last_span [] = none
last_span (s ∷ []) = some s
last_span (s ∷ t ∷ spans) = last_span (t ∷ spans)

-- `top`: `none` stands for the exception "no spans".
unfoldable pub in_memory_top : InMemoryRecorder → Option SpanData
in_memory_top r = last_span r.spans

-- The object behind the interface; `Close` is inherited and does nothing.
abbrev pub in_memory : (SpanData → SpanData) → Recorder InMemoryRecorder
in_memory left = record { record_span = in_memory_record_span left; close = λ r. r }
