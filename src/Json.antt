-- ===== src/Json.antt =====
-- mocktracer/src/json.cpp: the recorded spans as JSON. The writer is the text so far and the flag
-- `std::hex` of the stream, which the code sets and never takes back. `operator<<` of a `double` is
-- the standard library's, and a parameter.
pub mod Text
pub mod Utf8
pub mod Escape
pub mod Recorder
pub mod Digits
pub mod Ids
pub mod Tree
pub mod Numbers
pub mod Parser
pub mod Weight
pub mod Parsed
pub mod SpanTree
pub mod Emits
pub mod Written
pub mod ReadBack
pub mod Pipeline
pub mod Closing
use opentracing_cpp.Base.{
  ℕ, suc, ◌+◌, ◌-◌, ◌*◌, ◌/◌, ◌%◌, ◌^◌, Bool, true, false, ◌&&◌, not, List, [], ◌∷◌, ◌++◌, Bytes,
  codes, length, replicate, ltb, leb, ◌==◌, if◌then◌else◌, u64_mod,
}
use opentracing_cpp.Base.Int.{ℤ, pos, negsuc}
use opentracing_cpp.SpanData.{
  SpanReferenceType, child_of_ref, follows_from_ref, Value, Values, Dictionary, SpanContextData,
  SpanReferenceData, LogRecord, SpanData,
}
use Text.{Writer, emit, ◌▷◌, print_number, pad_left}

-- `writer << std::hex << std::setw(4) << std::setfill('0') << static_cast<int>(c)`
unfoldable pub write_hex4 : ℕ → Writer → Writer
write_hex4 c w = record { text = w.text ++ pad_left 4 (print_number 16 c); is_hex = true }

-- One round of the loop of `WriteEscapedString`.
unfoldable pub write_char : ℕ → Writer → Writer
write_char c w =
    if c == b'"'
    then emit (codes "\\\"") w
    else if c == b'\\'
    then emit (codes "\\\\") w
    else if c == 8
    then emit (codes "\\b") w
    else if c == 10
    then emit (codes "\\n") w
    else if c == 13
    then emit (codes "\\r") w
    else if c == 9
    then emit (codes "\\t") w
    else if leb c 0x1f
    then write_hex4 c (emit (codes "\\u") w)
    else emit (c ∷ []) w

unfoldable pub write_chars : Bytes → Writer → Writer
write_chars [] w = w
write_chars (c ∷ s) w = write_chars s (write_char c w)

-- `WriteEscapedString`
unfoldable pub write_escaped_string : Bytes → Writer → Writer
write_escaped_string s = emit (b'"' ∷ []) ▷ write_chars s ▷ emit (b'"' ∷ [])

-- `WriteId`: the number is printed on a stream of its own, so the flags of the writer stay.
unfoldable pub write_id : ℕ → Writer → Writer
write_id id = emit (b'"' ∷ pad_left 16 (print_number 16 id) ++ b'"' ∷ [])

-- `writer << value` for a `uint64_t`.
unfoldable pub write_uint64 : ℕ → Writer → Writer
write_uint64 n w = emit (print_number (if w.is_hex then 16 else 10) n) w

-- `writer << value` for an `int64_t`: in hexadecimal it is the bit pattern that is printed.
unfoldable pub write_int64 : ℤ → Writer → Writer
write_int64 (pos n) w = write_uint64 n w
write_int64 (negsuc n) w =
    if w.is_hex
    then emit (print_number 16 (u64_mod - 1 - n)) w
    else emit (b'-' ∷ print_number 10 (suc n)) w

-- The loops over a container: the element, and a comma if it is not the last.
unfoldable pub write_items : {A : Type 0} → (A → Writer → Writer) → ℕ → ℕ → List A → Writer → Writer
write_items write num index [] w = w
write_items write num index (x ∷ xs) w =
    let w' = write x w in
    write_items write num (index + 1) xs (if ltb (index + 1) num then emit (b',' ∷ []) w' else w')

abbrev pub write_all : {A : Type 0} → (A → Writer → Writer) → List A → Writer → Writer
write_all write items = write_items write (length items) 0 items

-- A key and its value, as in the baggage, the tags and a dictionary.
abbrev pub write_pair : {A : Type 0} → (A → Writer → Writer) → Bytes × A → Writer → Writer
write_pair write (key, value) = write_escaped_string key ▷ emit (codes ":") ▷ write value

-- `ToJson` of a span context.
unfoldable pub write_context : SpanContextData → Writer → Writer
write_context c =
    emit (codes "{\"trace_id\":")
    ▷ write_id c.trace_id
    ▷ emit (codes ",\"span_id\":")
    ▷ write_id c.span_id
    ▷ emit (codes ",\"baggage\":{")
    ▷ write_all (write_pair write_escaped_string) c.baggage
    ▷ emit (codes "}}")

abbrev pub reference_type_name : SpanReferenceType → Bytes
reference_type_name child_of_ref = codes "\"CHILD_OF\""
reference_type_name follows_from_ref = codes "\"FOLLOWS_FROM\""

-- `ToJson` of a span reference.
unfoldable pub write_reference : SpanReferenceData → Writer → Writer
write_reference r =
    emit (codes "{\"reference_type\":")
    ▷ emit (reference_type_name r.reference_type)
    ▷ emit (codes ",\"trace_id\":")
    ▷ write_id r.trace_id
    ▷ emit (codes ",\"span_id\":")
    ▷ write_id r.span_id
    ▷ emit (codes "}")

-- The parts of an IEEE 754 bit pattern that `std::isnan`, `std::isinf` and `std::signbit` read.
abbrev mantissa : ℕ → ℕ
mantissa d = d % 2 ^ 52

abbrev exponent : ℕ → ℕ
exponent d = d / 2 ^ 52 % 2 ^ 11

abbrev pub is_nan : ℕ → Bool
is_nan d = exponent d == 2047 && not (mantissa d == 0)

abbrev pub is_inf : ℕ → Bool
is_inf d = exponent d == 2047 && mantissa d == 0

abbrev pub signbit : ℕ → Bool
signbit d = leb (2 ^ 63) d

unfoldable pub count_values : Values → ℕ
count_values Values.nil = 0
count_values (Values.cons v vs) = suc (count_values vs)

unfoldable pub count_entries : Dictionary → ℕ
count_entries Dictionary.end = 0
count_entries (Dictionary.entry k v d) = suc (count_entries d)

-- `std::chrono::duration_cast<std::chrono::microseconds>(duration).count()`, towards zero.
unfoldable pub microseconds : ℤ → ℤ
microseconds (pos n) = pos (n / 1000)
microseconds (negsuc n) = let m = suc n / 1000 in if m == 0 then pos 0 else negsuc (m - 1)

-- `ToJson` of a duration.
unfoldable pub write_duration : ℤ → Writer → Writer
write_duration duration = write_int64 (microseconds duration)

module _ (print_double : ℕ → Bytes) where
  unfoldable pub write_double : ℕ → Writer → Writer
  write_double d =
      if is_nan d
      then emit (codes "\"NaN\"")
      else if is_inf d
      then if signbit d then emit (codes "\"-Inf\"") else emit (codes "\"+Inf\"")
      else emit (print_double d)

  -- `ToJson` of a value, by the visitor; the loops carry the size of the container and the index.
  unfoldable mutual
    pub write_value : Value → Writer → Writer
    write_value (Value.boolean b) w = emit (if b then codes "true" else codes "false") w
    write_value (Value.double d) w = write_double d w
    write_value (Value.int64 n) w = write_int64 n w
    write_value (Value.uint64 n) w = write_uint64 n w
    write_value (Value.string s) w = write_escaped_string s w
    write_value (Value.string_view s) w = write_escaped_string s w
    write_value Value.null w = emit (codes "null") w
    write_value (Value.c_string s) w = write_escaped_string s w
    write_value (Value.values vs) w =
        emit (codes "]") (write_values vs (count_values vs) 0 (emit (codes "[") w))
    write_value (Value.dictionary d) w =
        emit (codes "}") (write_dictionary d (count_entries d) 0 (emit (codes "{") w))

    pub write_values : Values → ℕ → ℕ → Writer → Writer
    write_values Values.nil num i w = w
    write_values (Values.cons v vs) num i w =
        let w' = write_value v w in
        write_values vs num (i + 1) (if ltb (i + 1) num then emit (codes ",") w' else w')

    pub write_dictionary : Dictionary → ℕ → ℕ → Writer → Writer
    write_dictionary Dictionary.end num i w = w
    write_dictionary (Dictionary.entry k v d) num i w =
        let w' = write_value v (emit (codes ":") (write_escaped_string k w)) in
        write_dictionary d num (i + 1) (if ltb (i + 1) num then emit (codes ",") w' else w')

  -- A field of a log record.
  unfoldable pub write_field : Bytes × Value → Writer → Writer
  write_field (key, value) =
      emit (codes "{\"key\":")
      ▷ write_escaped_string key
      ▷ emit (codes ",\"value\":")
      ▷ write_value value
      ▷ emit (codes "}")

  -- `ToJson` of a log record.
  unfoldable pub write_log : LogRecord → Writer → Writer
  write_log r =
      emit (codes "{\"timestamp\":")
      ▷ write_duration r.timestamp
      ▷ emit (codes ",\"fields\":[")
      ▷ write_all write_field r.fields
      ▷ emit (codes "]}")

  -- `ToJson` of a span.
  unfoldable pub write_span : SpanData → Writer → Writer
  write_span s =
      emit (codes "{\"span_context\":")
      ▷ write_context s.span_context
      ▷ emit (codes ",\"references\":[")
      ▷ write_all write_reference s.references
      ▷ emit (codes "],\"operation_name\":")
      ▷ write_escaped_string s.operation_name
      ▷ emit (codes ",\"start_timestamp\":")
      ▷ write_duration s.start_timestamp
      ▷ emit (codes ",\"duration\":")
      ▷ write_duration s.duration
      ▷ emit (codes ",\"tags\":{")
      ▷ write_all (write_pair write_value) s.tags
      ▷ emit (codes "},\"logs\":[")
      ▷ write_all write_log s.logs
      ▷ emit (codes "]}")

  -- `ToJson` of the spans.
  unfoldable pub to_json : List SpanData → Writer → Writer
  to_json spans = emit (codes "[") ▷ write_all write_span spans ▷ emit (codes "]")
