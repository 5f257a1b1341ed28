-- ===== src/Propagation/Failures.antt =====
-- What mocktracer/src/propagation.cpp does with streams that fail, end early, or hold no context.
use opentracing_cpp.Base.{
  ℕ, ◌≤◌, ◌≡◌, refl, sym, ap, ◌∙◌, true, false, List, [], ◌∷◌, arith, Bytes, length, take, drop,
  length-take, length-drop, nil_of_length,
}
use opentracing_cpp.Memory.{Host, to_memory, from_memory, swap_endian_if_big}
use opentracing_cpp.Memory.Order.{swap-from_memory, from_memory-to_memory}
use opentracing_cpp.Error.{ok, unexpected, make_error_code, io_error}
use opentracing_cpp.Stream.{
  IStream, istringstream, delivered, after_read, StreamBuffer, OStream, write, flush,
}
use opentracing_cpp.SpanData.{SpanContextData}
use opentracing_cpp.Propagation.Binary.{
  write_number, write_string, write_baggage, inject_span_context, read_number, rounds_of,
  read_baggage, read_context, extract_span_context,
}

module _ {S : Type 0} (host : Host) (sb : StreamBuffer S) (carrier : OStream S)
    (bad : carrier.is_good ≡ false) where
  write_bad : (bs : Bytes) → write sb bs carrier ≡ carrier
  unfolding write
  write_bad bs = simp bad

  write_baggage_bad : (items : List (Bytes × Bytes)) → write_baggage host sb items carrier ≡ carrier
  unfolding write_baggage write_string write_number
  write_baggage_bad [] = refl
  write_baggage_bad ((key, value) ∷ items) = simp write_bad (write_baggage_bad items)

  -- Into a stream that is not good nothing is written, and the injection fails with `io_error`.
  inject_bad :
      (context : SpanContextData)
      → inject_span_context host sb carrier context
        ≡ (unexpected (make_error_code io_error), carrier)
  unfolding inject_span_context write_number flush
  inject_bad context = simp (write_bad, write_baggage_bad, bad)

-- The stream behind two ids that is too short to hold more delivers nothing.
nothing_left :
    (is : IStream) → length is.rest ≤ 16 → delivered 4 (after_read 8 (after_read 8 is)) ≡ []
unfolding delivered after_read
nothing_left is short = ground (
  arith,
  nil_of_length (take 4 (drop 8 (drop 8 is.rest))),
  length-take 4 (drop 8 (drop 8 is.rest)),
  length-drop 8 (drop 8 is.rest),
  length-drop 8 is.rest,
)

-- A count that is not in the stream is left at 0.
count_missing :
    (host : Host) (is : IStream)
    → delivered 4 is ≡ []
    → swap_endian_if_big host 4 (read_number host 4 0 is) ≡ 0
unfolding read_number
count_missing host is nothing =
    let zeros : Bytes = 0 ∷ 0 ∷ 0 ∷ 0 ∷ [] in
    let read_zero : from_memory host (to_memory host 4 0) ≡ 0 = from_memory-to_memory host 4 0 in
    let spelled : from_memory host zeros ≡ 0 = unfold from_memory in ground arith in
    rw (nothing, read_zero)
      (ap (swap_endian_if_big host 4) (sym spelled) ∙ swap-from_memory host zeros (omega arith))

-- A stream that is not empty and ends within the two ids, or behind them, is taken for a context: the
-- extraction reports success, and leaves the baggage as it was.
pub extract_truncated :
    (host : Host) (b : ℕ) (rest : Bytes) (context : SpanContextData)
    → length (b ∷ rest) ≤ 16
    → ((extract_span_context host (istringstream (b ∷ rest)) context).result ≡ ok true)
      × ((extract_span_context host (istringstream (b ∷ rest)) context).span_context.baggage
          ≡ context.baggage)
unfolding extract_span_context read_context rounds_of read_baggage
extract_truncated host b rest context short =
    let missing =
      count_missing host (after_read 8 (after_read 8 (istringstream (b ∷ rest))))
        (nothing_left (istringstream (b ∷ rest)) short) in
    (rw missing, rw missing)
