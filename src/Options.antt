-- ===== src/Options.antt =====
-- The options that are given to `Tracer::StartSpan` and `Span::Finish`: the subclasses of
-- `StartSpanOption` and `Tracer::StartSpan` of include/opentracing/tracer.h, and the subclass of
-- `FinishSpanOption` of include/opentracing/span.h. Memory is taken to be given.
pub mod Applied
pub mod Shortage
use opentracing_cpp.Base.{List, [], ◌∷◌, ◌++◌, Option, none, some, Bytes, map}
use opentracing_cpp.Base.Int.{ℤ, pos, ◌+ℤ◌}
use opentracing_cpp.SpanData.{SpanReferenceType, child_of_ref, follows_from_ref, Value}
use opentracing_cpp.Context.{SpanContext}
use opentracing_cpp.Span.{
  StartSpanOptions, FinishSpanOptions, Clocks, Generator, MockSpan, convert_time_point, apply_all,
}
use opentracing_cpp.Tracer.{MockTracer, start_span_with_options}

-- The objects of the classes `StartTimestamp`, `SpanReference` and `SetTag`. A null pointer is `none`.
pub data StartSpanOption : Type 0 where
  start_timestamp : (system_when steady_when : ℤ) → StartSpanOption
  span_reference : SpanReferenceType → Option SpanContext → StartSpanOption
  set_tag : Bytes → Value → StartSpanOption

-- The constructor of `StartTimestamp` that is given a system time only.
unfoldable pub start_timestamp_at : Clocks → ℤ → StartSpanOption
start_timestamp_at now system_when =
    start_timestamp system_when (convert_time_point now.system_now now.steady_now system_when)

-- The constructor that is given a time since the epoch of `std::time_t`, which is `epoch` on the
-- system's clock.
unfoldable pub start_timestamp_since : Clocks → ℤ → ℤ → StartSpanOption
unfolding start_timestamp_at
start_timestamp_since now epoch time_since_epoch =
    start_timestamp_at now (epoch +ℤ time_since_epoch)

-- `ChildOf`
unfoldable pub child_of : Option SpanContext → StartSpanOption
child_of span_context = span_reference child_of_ref span_context

-- `FollowsFrom`
unfoldable pub follows_from : Option SpanContext → StartSpanOption
follows_from span_context = span_reference follows_from_ref span_context

-- `Apply` of the three classes.
unfoldable pub apply : StartSpanOption → StartSpanOptions → StartSpanOptions
apply (start_timestamp system_when steady_when) options = record options {
  start_system_timestamp = system_when;
  start_steady_timestamp = steady_when;
}
apply (span_reference kind none) options = options
apply (span_reference kind (some referenced)) options = record options {
  references = options.references ++ (kind, some referenced) ∷ [];
}
apply (set_tag key value) options = record options { tags = options.tags ++ (key, value) ∷ [] }

-- `StartSpanOptions options;`
abbrev pub default_start : StartSpanOptions
default_start = record {
  start_system_timestamp = pos 0;
  start_steady_timestamp = pos 0;
  references = [];
  tags = [];
}

-- `Tracer::StartSpan` of a mock tracer.
unfoldable pub start_span :
    {R G : Type 0}
    → MockTracer R
    → Generator G
    → G
    → Clocks
    → Bytes
    → List StartSpanOption
    → Option MockSpan × G
start_span tracer gen g now operation_name option_list =
    start_span_with_options tracer gen g now operation_name
      (apply_all (map apply option_list) default_start)

-- `FinishTimestamp`, made of a steady time or of a time since the epoch.
pub data FinishSpanOption : Type 0 where
  finish_timestamp : (steady_when : ℤ) → FinishSpanOption

unfoldable pub finish_timestamp_since : Clocks → ℤ → ℤ → FinishSpanOption
finish_timestamp_since now epoch time_since_epoch =
    finish_timestamp (convert_time_point now.system_now now.steady_now (epoch +ℤ time_since_epoch))

-- `FinishTimestamp::Apply`
unfoldable pub apply_finish : FinishSpanOption → FinishSpanOptions → FinishSpanOptions
apply_finish (finish_timestamp steady_when) options = record options {
  finish_steady_timestamp = steady_when;
}
