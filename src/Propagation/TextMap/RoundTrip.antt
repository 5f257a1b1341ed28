-- ===== src/Propagation/TextMap/RoundTrip.antt =====
-- Injection into text maps and extraction from them, by mocktracer/src/propagation.cpp.
use opentracing_cpp.Base.{
  ◌+◌, ◌*◌, ◌/◌, ◌%◌, ◌^◌, ◌<◌, ◌≡◌, sym, ap, ◌∙◌, Bool, true, List, [], ◌∷◌, ◌++◌, Bytes, IsByte,
  All, All-append, append-nil, arith, length, u32_mod, take-length,
}
use opentracing_cpp.Memory.{Host, le_bytes, to_memory}
use opentracing_cpp.Memory.Order.{le_bytes-IsByte, to_memory-IsByte}
use opentracing_cpp.Error.{ok, returned}
use opentracing_cpp.SpanData.{SpanContextData}
use opentracing_cpp.Base64
use opentracing_cpp.Base64.RoundTrip.{decode-encode}
use opentracing_cpp.Propagation.Binary.{Extraction}
use opentracing_cpp.Propagation.Wire.{wire_string, wire_baggage, wire_format, inject-wire_format}
use opentracing_cpp.Propagation.Reading.{TextFits, ItemFits, Fits, extract-wire_format}
use opentracing_cpp.Propagation.TextMap.{
  PropagationOptions, TextMapWriter, TextMapReader, inject_span_context, lookup_key, extract_with,
}

-- A carrier as its two interfaces: `reader` is what a receiver has of what was written.
pub record Carrier (M : Type 0) (key_compare : Bytes → Bytes → Bool) : Type 0 where
  pub writer : TextMapWriter M
  pub reader : M → TextMapReader
  -- a value that was set without an error is found under its key
  pub stores :
      (key value : Bytes) (m m' : M)
      → writer.set key value m ≡ (ok tt, m')
      → lookup_key (reader m') key key_compare ≡ ok value

wire_string-IsByte : (host : Host) (s : Bytes) → TextFits host s → All IsByte (wire_string host s)
wire_string-IsByte host s (small, _, all_bytes) =
    let no_wrap : length s % u32_mod ≡ length s = omega arith in
    All-append IsByte (to_memory host 4 (length s % u32_mod)) _ (to_memory-IsByte host 4 _)
      (rw (no_wrap, take-length s) all_bytes)

wire_baggage-IsByte :
    (host : Host) (items : List (Bytes × Bytes))
    → All (ItemFits host) items
    → All IsByte (wire_baggage host items)
wire_baggage-IsByte host [] fits = tt
wire_baggage-IsByte host ((key, value) ∷ items) ((fits_key, fits_value), fits) =
    All-append IsByte (wire_string host key) _ (wire_string-IsByte host key fits_key) (
      All-append IsByte (wire_string host value) _ (wire_string-IsByte host value fits_value)
        (wire_baggage-IsByte host items fits))

wire_format-IsByte :
    (host : Host) (context : SpanContextData)
    → Fits host context
    → All IsByte (wire_format host context)
wire_format-IsByte host context fits =
    let items = wire_baggage host context.baggage in
    let counted : Bytes = le_bytes 4 (length context.baggage % u32_mod) ++ items in
    let spanned : Bytes = le_bytes 8 context.span_id ++ counted in
    All-append IsByte (le_bytes 8 context.trace_id) spanned (le_bytes-IsByte 8 context.trace_id) (
      All-append IsByte (le_bytes 8 context.span_id) counted (le_bytes-IsByte 8 context.span_id) (
        All-append IsByte (le_bytes 4 (length context.baggage % u32_mod)) items
          (le_bytes-IsByte 4 (length context.baggage % u32_mod))
          (wire_baggage-IsByte host context.baggage fits.items)))

-- The size of the encoding is in the range of the decoder's `int`.
abbrev pub IsShort : Host → SpanContextData → Type 0
IsShort host context = (length (wire_format host context) + 2) / 3 * 4 < 2 ^ 31

-- Injection sets one entry: the base64 encoding of the binary format, under the configured key.
pub inject-set :
    {M : Type 0} (host : Host) (options : PropagationOptions) (carrier : TextMapWriter M) (m : M)
    (context : SpanContextData)
    → inject_span_context host options carrier m context
      ≡ carrier.set options.propagation_key (Base64.encode (wire_format host context)) m
unfolding inject_span_context
inject-set host options carrier m context = rw (inject-wire_format host [] context)

-- Extraction of an encoded binary format that the lookup finds.
extract-encoded :
    (host : Host) (options : PropagationOptions) (carrier : TextMapReader)
    (key_compare : Bytes → Bytes → Bool) (context ids : SpanContextData)
    → lookup_key carrier options.propagation_key key_compare
      ≡ ok (Base64.encode (wire_format host context))
    → Fits host context
    → IsShort host context
    → ids.baggage ≡ []
    → extract_with host options carrier key_compare ids ≡ returned (ok true, context)
unfolding extract_with
extract-encoded host options carrier key_compare context ids found fits short fresh =
    rw
      (
        found,
        decode-encode host (wire_format host context) (wire_format-IsByte host context fits) short,
      )
      (ap (λ (x : Extraction). returned (x.result, x.span_context))
        (rw (append-nil (wire_format host context)) at
          (extract-wire_format host context [] ids fits fresh)))

-- If injection into a carrier, which finds what it stores by the given comparison of keys, has
-- succeeded, then extraction by that comparison, into a context without baggage, gives the injected
-- context, if that fits the format and is short enough.
pub extract-inject :
    {M : Type 0} {key_compare : Bytes → Bytes → Bool} (host : Host) (options : PropagationOptions)
    (carrier : Carrier M key_compare) (m m' : M) (context ids : SpanContextData)
    → Fits host context
    → IsShort host context
    → ids.baggage ≡ []
    → inject_span_context host options carrier.writer m context ≡ (ok tt, m')
    → extract_with host options (carrier.reader m') key_compare ids ≡ returned (ok true, context)
extract-inject {M} {key_compare} host options carrier m m' context ids fits short fresh done =
    extract-encoded host options (carrier.reader m') key_compare context ids
      (carrier.stores options.propagation_key _ m m'
        (sym (inject-set host options carrier.writer m context) ∙ done))
      fits short fresh
