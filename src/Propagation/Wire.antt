-- ===== src/Propagation/Wire.antt =====
-- The binary format of a span context in mocktracer/src/propagation.cpp, described for itself.
use opentracing_cpp.Base.{
  ◌%◌, ◌≡◌, sym, ap, ◌∙◌, ◌≢◌, ◌<◌, arith, true, false, refl, true, List, [], ◌∷◌, ◌++◌, append-nil,
  append_assoc, Bytes, length, take, u32_mod,
}
use opentracing_cpp.Memory.{Host, le_bytes, to_memory}
use opentracing_cpp.Memory.Order.{to_memory-swap}
use opentracing_cpp.Error.{ok}
use opentracing_cpp.Stream.{OStream, write, flush, string_buffer}
use opentracing_cpp.SpanData.{SpanContextData}
use opentracing_cpp.Propagation.Binary.{
  write_number, write_string, write_baggage, inject_span_context,
}

-- A string is its length, in the byte order of the host, and its bytes.
abbrev pub wire_string : Host → Bytes → Bytes
wire_string host s = to_memory host 4 (length s % u32_mod) ++ take (length s % u32_mod) s

abbrev pub wire_baggage : Host → List (Bytes × Bytes) → Bytes
wire_baggage host [] = []
wire_baggage host ((key, value) ∷ baggage) =
    wire_string host key ++ (wire_string host value ++ wire_baggage host baggage)

-- A span context is its two ids and the number of its baggage items, little-endian on every host,
-- and the items.
abbrev pub wire_format : Host → SpanContextData → Bytes
wire_format host context =
    le_bytes 8 context.trace_id
    ++ (le_bytes 8 context.span_id
        ++ (le_bytes 4 (length context.baggage % u32_mod) ++ wire_baggage host context.baggage))

write-string_buffer :
    (bs out : Bytes)
    → write string_buffer bs (record { buffer = out; is_good = true })
      ≡ record { buffer = out ++ bs; is_good = true }
unfolding write
write-string_buffer bs out = refl

write_string-wire :
    (host : Host) (s out : Bytes)
    → write_string host string_buffer s (record { buffer = out; is_good = true })
      ≡ record { buffer = out ++ wire_string host s; is_good = true }
unfolding write_string write_number write
write_string-wire host s out = simp append_assoc

write_baggage-wire :
    (host : Host) (baggage : List (Bytes × Bytes)) (out : Bytes)
    → write_baggage host string_buffer baggage (record { buffer = out; is_good = true })
      ≡ record { buffer = out ++ wire_baggage host baggage; is_good = true }
unfolding write_baggage
write_baggage-wire host [] out = rw append-nil
write_baggage-wire host ((key, value) ∷ baggage) out =
    rw
      (
        write_string-wire host key out,
        write_string-wire host value _,
        write_baggage-wire host baggage _,
      )
      (simp append_assoc)

-- Injection of any context into a string stream that is good succeeds and appends the binary format,
-- on every host.
pub inject-wire_format :
    (host : Host) (out : Bytes) (context : SpanContextData)
    → inject_span_context host string_buffer (record { buffer = out; is_good = true }) context
      ≡ (ok tt, record { buffer = out ++ wire_format host context; is_good = true })
unfolding inject_span_context write_number flush
inject-wire_format host out context =
    rw
      (
        to_memory-swap host 8 context.trace_id,
        to_memory-swap host 8 context.span_id,
        to_memory-swap host 4 (length context.baggage % u32_mod),
        write-string_buffer (le_bytes 8 context.trace_id) out,
        write-string_buffer (le_bytes 8 context.span_id),
        write-string_buffer (le_bytes 4 (length context.baggage % u32_mod)),
        write_baggage-wire host context.baggage,
      )
      (simp append_assoc)

-- The length in front of a string is in the byte order of the host that writes it: what is written to an
-- empty string stream for a string of 1 to 255 bytes differs between hosts of different byte order.
pub write_string-ne :
    (big little : Host) (s : Bytes)
    → big.big_endian ≡ true
    → little.big_endian ≡ false
    → 0 < length s
    → length s < 256
    → (write_string big string_buffer s (record { buffer = []; is_good = true })).buffer
      ≢ (write_string little string_buffer s (record { buffer = []; is_good = true })).buffer
unfolding to_memory
write_string-ne big little s is_big is_little some_bytes few same =
    let wire : wire_string big s ≡ wire_string little s =
      sym (ap (λ (o : OStream Bytes). o.buffer) (write_string-wire big s []))
      ∙ same
      ∙ ap (λ (o : OStream Bytes). o.buffer) (write_string-wire little s []) in
    ground arith
