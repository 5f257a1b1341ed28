-- ===== src/Tests/Codec.antt =====
-- Base64, the byte order and the binary format on concrete inputs.
use opentracing_cpp.Base.{◌≡◌, ◌≢◌, refl, true, [], ◌∷◌, ◌++◌, codes, arith, All, IsByte}
use opentracing_cpp.Error.{ok, returned, undefined}
use opentracing_cpp.Stream.{istringstream, string_buffer}
use opentracing_cpp.Base64.{
  encode, encode_loop, encode_last, encode_base, encode_first, encode_second, encode_third, char_at,
  decode, reserve_fits, count_padding, decode_loop, decode_group, reverse_lookup, char_to_u32,
}
use opentracing_cpp.Base64.Groups.{base64, encode-base64}
use opentracing_cpp.Base64.RoundTrip.{decode-encode}
use opentracing_cpp.Base64.Canonical.{encode-decode}
use opentracing_cpp.Base64.Safety.{Returns, decode-Returns, decode_undefined}
use opentracing_cpp.Context.{empty_context}
use opentracing_cpp.Propagation.Binary.{
  write_string, inject_span_context, extract_span_context, extracted,
}
use opentracing_cpp.Propagation.Wire.{wire_format, inject-wire_format, write_string-ne}
use opentracing_cpp.Propagation.Reading.{extract-wire_format}
use opentracing_cpp.Propagation.Failures.{extract_truncated}
use opentracing_cpp.Tests.Values.{little_host, big_host, some_context, some_context-Fits}

-- Test vectors of RFC 4648.
encode_foob : encode (codes "foob") ≡ codes "Zm9vYg=="
unfolding encode encode_loop encode_last encode_base encode_first encode_second encode_third char_at
encode_foob = refl

decode_foobar : decode little_host (codes "Zm9vYmFy") ≡ returned (codes "foobar")
unfolding decode reserve_fits count_padding decode_loop decode_group reverse_lookup char_to_u32
decode_foobar = refl

encode-decode_example : (encode (codes "foo") ≡ codes "Zm9v") × All IsByte (codes "foo")
encode-decode_example =
    encode-decode little_host (codes "Zm9v") (codes "foo")
      (omega arith, (omega arith, (omega arith, (omega arith, tt)))) (omega arith)
      (unfold decode reserve_fits count_padding decode_loop decode_group reverse_lookup
          char_to_u32 in
        refl)
      cc

decode-encode_example :
    decode little_host (encode (0 ∷ 255 ∷ 16 ∷ 131 ∷ [])) ≡ returned (0 ∷ 255 ∷ 16 ∷ 131 ∷ [])
decode-encode_example =
    decode-encode little_host (0 ∷ 255 ∷ 16 ∷ 131 ∷ [])
      (omega arith, (omega arith, (omega arith, (omega arith, tt)))) (omega arith)

encode-base64_example : encode (codes "fooba") ≡ base64 (codes "fooba")
encode-base64_example =
    encode-base64 (codes "fooba")
      (omega arith, (omega arith, (omega arith, (omega arith, (omega arith, tt)))))

decode-Returns_example : Returns 3 (decode little_host (codes "Z==="))
decode-Returns_example =
    decode-Returns little_host (codes "Z===")
      (omega arith, (omega arith, (omega arith, (omega arith, tt)))) (omega arith)

decode_undefined_example : decode little_host (200 ∷ codes "abc") ≡ undefined
decode_undefined_example =
    decode_undefined little_host 200 (codes "abc") refl (omega arith) (omega arith) refl
      (omega arith)

inject-wire_format_example :
    inject_span_context big_host string_buffer (record { buffer = []; is_good = true }) some_context
    ≡ (ok tt, record { buffer = wire_format big_host some_context; is_good = true })
inject-wire_format_example = inject-wire_format big_host [] some_context

extract-wire_format_example :
    extract_span_context big_host
      (istringstream (wire_format big_host some_context ++ codes "more"))
      empty_context
    ≡ extracted (ok true) (istringstream (codes "more")) some_context
extract-wire_format_example =
    extract-wire_format big_host some_context (codes "more") empty_context some_context-Fits refl

write_string-ne_example :
    (write_string big_host string_buffer
      (codes "key")
      (record { buffer = []; is_good = true })).buffer
    ≢ (write_string little_host string_buffer
        (codes "key")
        (record { buffer = []; is_good = true })).buffer
write_string-ne_example =
    write_string-ne big_host little_host (codes "key") refl refl (omega arith) (omega arith)

extract_truncated_example :
    ((extract_span_context little_host (istringstream (1 ∷ 2 ∷ 3 ∷ [])) empty_context).result
      ≡ ok true)
    × ((extract_span_context little_host
          (istringstream (1 ∷ 2 ∷ 3 ∷ []))
          empty_context).span_context.baggage
        ≡ [])
extract_truncated_example = extract_truncated little_host 1 (2 ∷ 3 ∷ []) empty_context (omega arith)
