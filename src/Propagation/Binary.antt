-- ===== src/Propagation/Binary.antt =====
-- The binary carrier of mocktracer/src/propagation.cpp: `InjectSpanContext` into a `std::ostream`
-- and `ExtractSpanContext` from a `std::istream`.
use opentracing_cpp.Base.{
  ℕ, zero, suc, ◌-◌, ◌%◌, ◌^◌, Bool, true, false, List, [], ◌∷◌, ◌++◌, Bytes, length, take,
  replicate, ltb, if◌then◌else◌, u32_mod,
}
use opentracing_cpp.Memory.{Host, to_memory, from_memory, swap_endian_if_big}
use opentracing_cpp.Dict.{assign}
use opentracing_cpp.Error.{Expected, ok, unexpected, make_error_code, io_error, not_enough_memory}
use opentracing_cpp.Stream.{
  IStream, delivered, after_read, overlay, StreamBuffer, OStream, write, flush,
}
use opentracing_cpp.SpanData.{SpanContextData}

module _ {S : Type 0} (host : Host) (sb : StreamBuffer S) where
  -- `carrier.write(reinterpret_cast<const char*>(&x), sizeof(x))` for a number of `w` bytes.
  unfoldable pub write_number : ℕ → ℕ → OStream S → OStream S
  write_number w x carrier = write sb (to_memory host w x) carrier

  -- `WriteString`
  unfoldable pub write_string : Bytes → OStream S → OStream S
  write_string s ostream =
      let size = length s % u32_mod in write sb (take size s) (write_number 4 size ostream)

  -- The loop over the baggage.
  unfoldable pub write_baggage : List (Bytes × Bytes) → OStream S → OStream S
  write_baggage [] carrier = carrier
  write_baggage ((key, value) ∷ baggage) carrier =
      write_baggage baggage (write_string value (write_string key carrier))

  -- The result of `InjectSpanContext` from the state of the flushed carrier.
  abbrev pub inject_result : Bool → Expected (Unit {0})
  inject_result true = ok tt
  inject_result false = unexpected (make_error_code io_error)

  -- `InjectSpanContext` into a stream: the result, and the carrier afterwards.
  unfoldable pub inject_span_context : OStream S → SpanContextData → Expected (Unit {0}) × OStream S
  inject_span_context carrier data_ =
      let num_baggage = swap_endian_if_big host 4 (length data_.baggage % u32_mod) in
      let with_trace = write_number 8 (swap_endian_if_big host 8 data_.trace_id) carrier in
      let with_span = write_number 8 (swap_endian_if_big host 8 data_.span_id) with_trace in
      let with_count = write_number 4 num_baggage with_span in
      let flushed = flush sb (write_baggage data_.baggage with_count) in
      (inject_result flushed.is_good, flushed)

-- `istream.read` into a `w`-byte number that held `old`: the number afterwards.
unfoldable pub read_number : Host → ℕ → ℕ → IStream → ℕ
read_number host w old istream =
    from_memory host (overlay (delivered w istream) (to_memory host w old))

-- `s.resize(size)`: cut, or filled up with zeros.
unfoldable pub resize : ℕ → Bytes → Bytes
resize size s = take size s ++ replicate (size - length s) 0

-- How `ReadString` ends: with the string, or by `std::bad_alloc` out of `resize`.
pub data StringRead : Type 0 where
  read : Bytes → IStream → StringRead
  out_of_memory : IStream → StringRead

-- `ReadString` into a string that held `old`.
unfoldable pub read_string : Host → Bytes → IStream → StringRead
read_string host old istream =
    let size = read_number host 4 0 istream in
    let behind_size = after_read 4 istream in
    if host.can_resize size
    then read (overlay (delivered size behind_size) (resize size old)) (after_read size behind_size)
    else out_of_memory behind_size

-- What `ExtractSpanContext` returns, and how it leaves its two reference arguments.
pub record Extraction : Type 0 where
  pub result : Expected Bool
  pub carrier : IStream
  pub span_context : SpanContextData

abbrev pub extracted : Expected Bool → IStream → SpanContextData → Extraction
extracted r is context = record { result = r; carrier = is; span_context = context }

-- `span_context_data.baggage[key] = value`
abbrev pub add_baggage : Bytes → Bytes → SpanContextData → SpanContextData
add_baggage key value context = record context { baggage = assign key value context.baggage }

-- What follows the read of a string: the handler of `std::bad_alloc`, or the next step.
abbrev pub with_string : StringRead → SpanContextData → (Bytes → IStream → Extraction) → Extraction
with_string (read s is) context next = next s is
with_string (out_of_memory is) context next =
    extracted (unexpected (make_error_code not_enough_memory)) is context

-- The loop of `ExtractSpanContext`, for so many more rounds. The two strings keep their contents
-- from round to round.
unfoldable pub read_baggage : Host → ℕ → Bytes → Bytes → IStream → SpanContextData → Extraction
read_baggage host zero key value carrier context = extracted (ok true) carrier context
read_baggage host (suc rounds) key value carrier context =
    with_string (read_string host key carrier) context λ key' carrier1.
      with_string (read_string host value carrier1) context λ value' carrier2.
        let context' = add_baggage key' value' context in
        let more = read_baggage host rounds key' value' carrier2 context' in
        if carrier2.is_good
        then more
        else extracted (unexpected (make_error_code io_error)) carrier2 context'

-- `i < static_cast<int>(num_baggage)`: the rounds that the loop makes, none for a negative bound.
unfoldable pub rounds_of : ℕ → ℕ
rounds_of num_baggage = if ltb num_baggage (2 ^ 31) then num_baggage else 0

-- What follows the test for an empty stream.
unfoldable pub read_context : Host → IStream → SpanContextData → Extraction
read_context host carrier context =
    let trace_id = swap_endian_if_big host 8 (read_number host 8 context.trace_id carrier) in
    let carrier1 = after_read 8 carrier in
    let span_id = swap_endian_if_big host 8 (read_number host 8 context.span_id carrier1) in
    let carrier2 = after_read 8 carrier1 in
    let num_baggage = swap_endian_if_big host 4 (read_number host 4 0 carrier2) in
    let carrier3 = after_read 4 carrier2 in
    read_baggage host (rounds_of num_baggage) [] [] carrier3
      (record context { trace_id = trace_id; span_id = span_id })

-- `carrier.peek() == EOF` on a good stream sets `eofbit`.
abbrev extract_nonempty : Host → Bytes → IStream → SpanContextData → Extraction
extract_nonempty host [] carrier context =
    extracted (ok false) (record carrier { is_good = false }) context
extract_nonempty host (b ∷ rest) carrier context = read_context host carrier context

-- `ExtractSpanContext` from a stream.
unfoldable pub extract_span_context : Host → IStream → SpanContextData → Extraction
extract_span_context host carrier context =
    if carrier.is_good
    then extract_nonempty host carrier.rest carrier context
    else extracted (unexpected (make_error_code io_error)) carrier context
