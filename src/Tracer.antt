-- ===== src/Tracer.antt =====
-- mocktracer/src/tracer.cpp with mocktracer/tracer.h and the templates of
-- mocktracer/src/mock_span_context.h: what the tracer does with a span context of any class.
pub mod RoundTrip
pub mod Errors
pub mod Remote
use opentracing_cpp.Base.{
  ℕ, Bool, true, false, Option, none, some, Bytes, ◌==◌, if◌then◌else◌, List, [],
}
use opentracing_cpp.Memory.{Host}
use opentracing_cpp.Heap.{Heap, has_memory}
use opentracing_cpp.Error.{
  ErrorCode, Expected, ok, unexpected, Outcome, returned, thrown, undefined,
  invalid_span_context_error, out_of_memory,
}
use opentracing_cpp.Stream.{IStream, OStream, StreamBuffer}
use opentracing_cpp.SpanData.{SpanContextData}
use opentracing_cpp.Context.{SpanContext, as_mock, empty_context}
use opentracing_cpp.Recorder.{Recorder}
use opentracing_cpp.Span.{MockSpan, StartSpanOptions, Generator, Clocks, make_span}
use opentracing_cpp.Propagation.Binary.{
  inject_span_context as inject_binary, extract_span_context as extract_binary,
}
use opentracing_cpp.Propagation.TextMap.{
  PropagationOptions, TextMapReader, TextMapWriter, inject_span_context as inject_text_map,
  extract_text_map, extract_http_headers,
}

-- `MockTracer`, with the state of its recorder, if it has one.
pub record MockTracer (R : Type 0) : Type 0 where
  pub recorder : Option R
  pub propagation_options : PropagationOptions

-- A context of another class is refused.
abbrev pub inject_mock :
    {W : Type 0}
    → Option SpanContextData
    → (SpanContextData → W → Expected (Unit {0}) × W)
    → W
    → Expected (Unit {0}) × W
inject_mock none inject writer = (unexpected invalid_span_context_error, writer)
inject_mock (some context) inject writer = inject context writer

-- `InjectImpl`. `W` is the state of the carrier, and the function is `Inject` of the context.
unfoldable pub inject_impl :
    {W : Type 0}
    → PropagationOptions
    → SpanContext
    → (SpanContextData → W → Expected (Unit {0}) × W)
    → W
    → Expected (Unit {0}) × W
inject_impl options span_context inject writer =
    if options.inject_error_code.value == 0
    then inject_mock (as_mock span_context) inject writer
    else (unexpected options.inject_error_code, writer)

-- `ExtractImpl` behind `Extract` of the new context: an error, no context, or the context.
abbrev pub extracted_context : Expected Bool × SpanContextData → Expected (Option SpanContext)
extracted_context (unexpected e, context) = unexpected e
extracted_context (ok false, context) = ok none
extracted_context (ok true, context) = ok (some (SpanContext.mock context))

abbrev pub map_outcome :
    Outcome (Expected Bool × SpanContextData) → Outcome (Expected (Option SpanContext))
map_outcome (returned x) = returned (extracted_context x)
map_outcome (thrown e) = thrown e
map_outcome undefined = undefined

-- `ExtractImpl`. The function is `Extract` of the new context, if there is memory for this.
unfoldable pub extract_impl :
    Heap
    → PropagationOptions
    → (SpanContextData → Outcome (Expected Bool × SpanContextData))
    → Outcome (Expected (Option SpanContext))
extract_impl heap options extract =
    if options.extract_error_code.value == 0
    then (if has_memory heap
        then map_outcome (extract empty_context)
        else returned (unexpected out_of_memory))
    else returned (unexpected options.extract_error_code)

module _ {R : Type 0} (host : Host) (tracer : MockTracer R) where
  -- `MockTracer::Inject` into a stream.
  unfoldable pub inject_stream :
      {S : Type 0} → StreamBuffer S → SpanContext → OStream S → Expected (Unit {0}) × OStream S
  inject_stream sb sc =
      inject_impl tracer.propagation_options sc λ data_ writer. inject_binary host sb writer data_

  -- `MockTracer::Inject` into a text map or HTTP headers.
  unfoldable pub inject_map :
      {M : Type 0} → TextMapWriter M → SpanContext → M → Expected (Unit {0}) × M
  inject_map carrier sc =
      inject_impl tracer.propagation_options sc
        λ data_ m. inject_text_map host tracer.propagation_options carrier m data_

  -- `MockTracer::Extract` from a stream.
  unfoldable pub extract_stream : Heap → IStream → Outcome (Expected (Option SpanContext))
  extract_stream heap reader =
      extract_impl heap tracer.propagation_options
        λ data_. let e = extract_binary host reader data_ in returned (e.result, e.span_context)

  -- `MockTracer::Extract` from a text map.
  unfoldable pub extract_map : Heap → TextMapReader → Outcome (Expected (Option SpanContext))
  extract_map heap reader =
      extract_impl heap tracer.propagation_options
        (extract_text_map host tracer.propagation_options reader)

  -- `MockTracer::Extract` from HTTP headers.
  unfoldable pub extract_headers : Heap → TextMapReader → Outcome (Expected (Option SpanContext))
  extract_headers heap reader =
      extract_impl heap tracer.propagation_options
        (extract_http_headers host tracer.propagation_options reader)

-- `MockTracer::StartSpanWithOptions`, where the allocation succeeds.
unfoldable pub start_span_with_options :
    {R G : Type 0}
    → MockTracer R
    → Generator G
    → G
    → Clocks
    → Bytes
    → StartSpanOptions
    → Option MockSpan × G
start_span_with_options tracer gen g now operation_name options =
    let (span, g') = make_span gen g now operation_name options in (some span, g')

abbrev close_recorder : {R : Type 0} → Recorder R → Option R → Option R
close_recorder recorder none = none
close_recorder recorder (some r) = some (recorder.close r)

-- `MockTracer::Close`
unfoldable pub close : {R : Type 0} → Recorder R → MockTracer R → MockTracer R
close recorder tracer = record tracer { recorder = close_recorder recorder tracer.recorder }
