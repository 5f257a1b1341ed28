-- ===== src/Tracer/Remote.antt =====
-- A trace that goes on in another process: the injection of mocktracer/src/tracer.cpp on one side, and on
-- the other its extraction and a span that is started with `ChildOf` the extracted context.
use opentracing_cpp.Base.{true, ℕ, ◌≡◌, refl, sym, ap, ◌∙◌, List, [], ◌∷◌, some, Bytes, append-nil}
use opentracing_cpp.Memory.{Host}
use opentracing_cpp.Heap.{Heap, has_memory}
use opentracing_cpp.Error.{ok, returned}
use opentracing_cpp.Dict.{assign_all}
use opentracing_cpp.Json.Text.{print_number}
use opentracing_cpp.Dict.Laws.{assign_all-nil}
use opentracing_cpp.SpanData.{SpanContextData, child_of_ref}
use opentracing_cpp.Context.{SpanContext, mock, to_trace_id}
use opentracing_cpp.Span.{MockSpan, Generator, Clocks, make_span, apply_all}
use opentracing_cpp.Span.Start.{make_span-references, make_span-trace}
use opentracing_cpp.Propagation.Reading.{Fits}
use opentracing_cpp.Propagation.TextMap.{
  iequals, PropagationOptions, TextMapReader, extract_http_headers,
}
use opentracing_cpp.Propagation.TextMap.RoundTrip.{Carrier, IsShort}
use opentracing_cpp.Tracer.{
  MockTracer, inject_map, extract_headers, extract_impl, start_span_with_options,
}
use opentracing_cpp.Tracer.RoundTrip.{IsWorking, extract-inject_headers}
use opentracing_cpp.Options.{child_of, start_span, apply, default_start}

-- What a span that is started with `ChildOf` a context has of it.
pub record IsChild (context : SpanContextData) (id : ℕ) (child : MockSpan) : Type 0 where
  trace_id : child.span_context.trace_id ≡ context.trace_id
  same_trace : to_trace_id child.span_context ≡ to_trace_id context
  span_id : child.span_context.span_id ≡ id
  baggage : child.span_context.baggage ≡ context.baggage
  references :
      child.data_.references
      ≡ record {
        reference_type = child_of_ref;
        trace_id = context.trace_id;
        span_id = context.span_id;
      }
        ∷ []

start_span-IsChild :
    {R G : Type 0} (tracer : MockTracer R) (gen : Generator G) (g : G) (now : Clocks) (name : Bytes)
    (context : SpanContextData)
    → assign_all context.baggage [] ≡ context.baggage
    → (child : MockSpan) × ((start_span tracer gen g now name
          (child_of (some (mock context)) ∷ [])).0
        ≡ some child)
      × IsChild context (gen.next g).0 child
unfolding start_span start_span_with_options child_of apply apply_all to_trace_id
start_span-IsChild tracer gen g now name context sorted =
    let options = apply (child_of (some (mock context))) default_start in
    let (references, baggage) = make_span-references gen g now name options in
    let (trace_id, span_id, _) =
      make_span-trace gen g now name options child_of_ref context [] refl in
    (
      (make_span gen g now name options).0,
      refl,
      record {
        trace_id = trace_id;
        same_trace = ap (print_number 10) trace_id;
        span_id = span_id;
        baggage =
            baggage
            ∙ ap (λ (l : List (Bytes × Bytes)). assign_all l []) (append-nil context.baggage)
            ∙ sorted;
        references = references;
      },
    )

-- Of the tracer, extraction uses the options of the propagation.
extract_headers-options :
    {R Q : Type 0} (host : Host) (client : MockTracer R) (server : MockTracer Q) (heap : Heap)
    (reader : TextMapReader)
    → client.propagation_options ≡ server.propagation_options
    → extract_headers host client heap reader ≡ extract_headers host server heap reader
unfolding extract_headers
extract_headers-options host client server heap reader same =
    ap (λ (o : PropagationOptions). extract_impl heap o (extract_http_headers host o reader)) same

-- A tracer whose options ask for no failure injects the context of a span, which fits the format and is
-- short enough, into HTTP headers that find what they store without regard to the key's case. On the
-- same host, a tracer with the same options of the propagation, which has memory for a new context, extracts
-- a context from the headers, and a span that is started with `ChildOf` this context has the trace of the first span, also as
-- the text of `ToTraceID`, a new id of its own, all its baggage, and a reference to it.
pub join_trace :
    {R Q G M : Type 0} (host : Host) (client : MockTracer R) (server : MockTracer Q)
    (carrier : Carrier M iequals) (m m' : M) (heap : Heap) (span : MockSpan) (gen : Generator G)
    (g : G) (now : Clocks) (name : Bytes)
    → IsWorking client
    → has_memory heap ≡ true
    → client.propagation_options ≡ server.propagation_options
    → Fits host span.span_context
    → IsShort host span.span_context
    → inject_map host client carrier.writer (mock span.span_context) m ≡ (ok tt, m')
    → (parent : SpanContext) × (extract_headers host server heap (carrier.reader m')
        ≡ returned (ok (some parent)))
      × (child : MockSpan) × ((start_span server gen g now name (child_of (some parent) ∷ [])).0
          ≡ some child)
      × IsChild span.span_context (gen.next g).0 child
join_trace host client server carrier m m' heap span gen g now name working given same fits short
      injected =
    let (child, started, is_child) =
      start_span-IsChild server gen g now name span.span_context
        (assign_all-nil span.span_context.baggage fits.sorted) in
    (
      mock span.span_context,
      sym (extract_headers-options host client server heap (carrier.reader m') same)
          ∙ extract-inject_headers host client heap span.span_context carrier m m' working given
              fits short injected,
      child,
      started,
      is_child,
    )
