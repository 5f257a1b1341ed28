-- ===== src/Tracer/Errors.antt =====
-- When a tracer of mocktracer/src/tracer.cpp refuses: a context of another class, the failures that
-- its options ask for, and a carrier without the propagation key.
use opentracing_cpp.Base.{true, ◌≡◌, ◌≢◌, none, ◌==◌, if◌then◌else◌, arith}
use opentracing_cpp.Memory.{Host}
use opentracing_cpp.Heap.{Heap, has_memory}
use opentracing_cpp.Error.{
  ErrorCode, ok, unexpected, returned, same_bytes, invalid_span_context_error, key_not_found_error,
  are_errors_equal,
}
use opentracing_cpp.Stream.{IStream, OStream, StreamBuffer}
use opentracing_cpp.Context.{SpanContext, as_mock}
use opentracing_cpp.Propagation.TextMap.{
  TextMapReader, TextMapWriter, lookup_key, extract_text_map, extract_with,
}
use opentracing_cpp.Tracer.{
  MockTracer, inject_impl, extract_impl, inject_stream, inject_map, extract_stream, extract_map,
  extract_headers,
}

-- The error of an injection that does not come to the carrier.
abbrev pub refusal : ErrorCode → ErrorCode
refusal e = if e.value == 0 then invalid_span_context_error else e

module _ {R : Type 0} (host : Host) (tracer : MockTracer R) where
  -- A context that is no mock context is refused on every carrier, which is left as it was: with the
  -- error that the options ask for, if they ask for one, and with `invalid_span_context_error` else.
  inject-foreign :
      {S M : Type 0} (sb : StreamBuffer S) (carrier : TextMapWriter M) (os : OStream S) (m : M)
      (context : SpanContext)
      → as_mock context ≡ none
      → (inject_stream host tracer sb context os
          ≡ (unexpected (refusal tracer.propagation_options.inject_error_code), os))
        × (inject_map host tracer carrier context m
            ≡ (unexpected (refusal tracer.propagation_options.inject_error_code), m))
  unfolding inject_stream inject_map inject_impl
  inject-foreign sb carrier os m context no_mock = (ground arith, ground arith)

  -- If the options ask for failures, every injection and every extraction fails with the code that
  -- they name, whatever the context is and whatever the carrier holds, and no carrier is written to.
  inject_extract-failing :
      {S M : Type 0} (sb : StreamBuffer S) (carrier : TextMapWriter M) (os : OStream S) (m : M)
      (context : SpanContext) (heap : Heap) (is : IStream) (reader : TextMapReader)
      → tracer.propagation_options.inject_error_code.value ≢ 0
      → tracer.propagation_options.extract_error_code.value ≢ 0
      → (inject_stream host tracer sb context os
          ≡ (unexpected tracer.propagation_options.inject_error_code, os))
        × (inject_map host tracer carrier context m
            ≡ (unexpected tracer.propagation_options.inject_error_code, m))
        × (extract_stream host tracer heap is
            ≡ returned (unexpected tracer.propagation_options.extract_error_code))
        × (extract_map host tracer heap reader
            ≡ returned (unexpected tracer.propagation_options.extract_error_code))
        × (extract_headers host tracer heap reader
            ≡ returned (unexpected tracer.propagation_options.extract_error_code))
  unfolding inject_stream inject_map inject_impl extract_stream extract_map extract_headers
      extract_impl
  inject_extract-failing sb carrier os m context heap is reader inject_fails extract_fails =
      (ground arith, ground arith, ground arith, ground arith, ground arith)

  -- If the lookup of the propagation key fails, extraction with memory for a new context from a text map yields no context and no
  -- error where the key was not found, and the lookup's own error else.
  extract_map-lookup_error :
      (heap : Heap) (reader : TextMapReader) (e : ErrorCode)
      → has_memory heap ≡ true
      → tracer.propagation_options.extract_error_code.value ≡ 0
      → lookup_key reader tracer.propagation_options.propagation_key same_bytes ≡ unexpected e
      → extract_map host tracer heap reader
        ≡ returned (if are_errors_equal e key_not_found_error then ok none else unexpected e)
  unfolding extract_map extract_impl extract_text_map extract_with
  extract_map-lookup_error heap reader e given no_error_asked missing =
      simp (no_error_asked, given, missing) (ground arith)
