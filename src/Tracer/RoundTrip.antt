-- ===== src/Tracer/RoundTrip.antt =====
-- Injection and extraction by a tracer of mocktracer/src/tracer.cpp.
use opentracing_cpp.Base.{◌≡◌, refl, ap, true, ◌++◌, some, Bytes}
use opentracing_cpp.Memory.{Host}
use opentracing_cpp.Heap.{Heap, has_memory}
use opentracing_cpp.Error.{ok, returned, same_bytes}
use opentracing_cpp.Stream.{istringstream, string_buffer}
use opentracing_cpp.SpanData.{SpanContextData}
use opentracing_cpp.Context.{mock, empty_context}
use opentracing_cpp.Propagation.Binary.{Extraction}
use opentracing_cpp.Propagation.Wire.{wire_format, inject-wire_format}
use opentracing_cpp.Propagation.Reading.{Fits, extract-wire_format}
use opentracing_cpp.Propagation.TextMap.{iequals, extract_text_map, extract_http_headers}
use opentracing_cpp.Propagation.TextMap.RoundTrip.{Carrier, IsShort, extract-inject}
use opentracing_cpp.Tracer.{
  MockTracer, inject_impl, extract_impl, map_outcome, inject_stream, inject_map, extract_stream,
  extract_map, extract_headers,
}

-- The tracer's options ask for no failure.
abbrev pub IsWorking : {R : Type 0} → MockTracer R → Type 0
IsWorking tracer =
    (tracer.propagation_options.inject_error_code.value ≡ 0)
    × (tracer.propagation_options.extract_error_code.value ≡ 0)

module _ {R : Type 0} (host : Host) (tracer : MockTracer R) (heap : Heap)
    (context : SpanContextData) where
  -- A tracer whose options ask for no failure injects a mock context that fits the format into a
  -- string stream: it succeeds and appends some bytes, of which the tracer, with memory for a new context,
  -- extracts the same context on the same host, whatever follows them.
  pub extract-inject_stream :
      (out rest : Bytes)
      → IsWorking tracer
      → has_memory heap ≡ true
      → Fits host context
      → (bytes : Bytes) × (inject_stream host tracer string_buffer
            (mock context)
            (record { buffer = out; is_good = true })
          ≡ (ok tt, record { buffer = out ++ bytes; is_good = true }))
        × (extract_stream host tracer heap (istringstream (bytes ++ rest))
            ≡ returned (ok (some (mock context))))
  unfolding inject_stream extract_stream inject_impl extract_impl
  extract-inject_stream out rest (no_inject_error, no_extract_error) given fits = (
    wire_format host context,
    rw no_inject_error (inject-wire_format host out context),
    rw (no_extract_error, given)
        (ap (λ (x : Extraction). map_outcome (returned (x.result, x.span_context)))
          (extract-wire_format host context rest empty_context fits refl)),
  )

  -- If a tracer whose options ask for no failure has injected a mock context, which fits the format and
  -- is short enough, into a text map that finds what it stores under the same key, then the tracer,
  -- with memory for a new context, extracts the same context from the map on the same host.
  extract-inject_map :
      {M : Type 0} (carrier : Carrier M same_bytes) (m m' : M)
      → IsWorking tracer
      → has_memory heap ≡ true
      → Fits host context
      → IsShort host context
      → inject_map host tracer carrier.writer (mock context) m ≡ (ok tt, m')
      → extract_map host tracer heap (carrier.reader m') ≡ returned (ok (some (mock context)))
  unfolding inject_map extract_map inject_impl extract_impl extract_text_map
  extract-inject_map carrier m m' (no_inject_error, no_extract_error) given fits short injected =
      simp (no_extract_error, given)
        (ap map_outcome (
          extract-inject host tracer.propagation_options carrier m m' context empty_context fits
            short refl (simp no_inject_error at injected)))

  -- If a tracer whose options ask for no failure has injected a mock context, which fits the format and
  -- is short enough, into HTTP headers that find what they store without regard to the key's case, then
  -- the tracer, with memory for a new context, extracts the same context from them on the same host.
  pub extract-inject_headers :
      {M : Type 0} (carrier : Carrier M iequals) (m m' : M)
      → IsWorking tracer
      → has_memory heap ≡ true
      → Fits host context
      → IsShort host context
      → inject_map host tracer carrier.writer (mock context) m ≡ (ok tt, m')
      → extract_headers host tracer heap (carrier.reader m') ≡ returned (ok (some (mock context)))
  unfolding inject_map extract_headers inject_impl extract_impl extract_http_headers
  extract-inject_headers carrier m m' (no_inject_error, no_extract_error) given fits short
        injected =
      simp (no_extract_error, given)
        (ap map_outcome (
          extract-inject host tracer.propagation_options carrier m m' context empty_context fits
            short refl (simp no_inject_error at injected)))
