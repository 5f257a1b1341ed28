-- ===== src/SpanData.antt =====
-- The data that mocktracer records: mocktracer/include/opentracing/mocktracer/recorder.h, with
-- `LogRecord` of include/opentracing/span.h, `SpanReferenceType` of propagation.h and `Value` of
-- value.h. Times and durations are counts of nanoseconds.
pub mod Comparison
pub mod Equality
use opentracing_cpp.Base.{ℕ, List, Bytes, Bool}
use opentracing_cpp.Base.Int.{ℤ}

-- `enum class SpanReferenceType`
pub data SpanReferenceType : Type 0 where
  child_of_ref follows_from_ref : SpanReferenceType

-- The alternatives of the variant behind `Value`. A `double` is its IEEE 754 bit pattern, an
-- `int64_t` an integer. The two recursive alternatives hold lists of their own, so that an array
-- is a chain of `cons` and a dictionary a chain of `entry`.
mutual
  pub data Value : Type 0 where
    boolean : Bool → Value
    double : ℕ → Value
    int64 : ℤ → Value
    uint64 : ℕ → Value
    string : Bytes → Value
    string_view : Bytes → Value
    null : Value
    c_string : Bytes → Value
    values : Values → Value
    dictionary : Dictionary → Value

  pub data Values : Type 0 where
    nil : Values
    cons : Value → Values → Values

  -- The pairs of an `unordered_map`, in the order of its iteration.
  pub data Dictionary : Type 0 where
    end : Dictionary
    entry : Bytes → Value → Dictionary → Dictionary

pub record SpanContextData : Type 0 where
  pub trace_id : ℕ
  pub span_id : ℕ
  -- a `std::map<std::string, std::string>`
  pub baggage : List (Bytes × Bytes)

pub record SpanReferenceData : Type 0 where
  pub reference_type : SpanReferenceType
  pub trace_id : ℕ
  pub span_id : ℕ

pub record LogRecord : Type 0 where
  pub timestamp : ℤ
  pub fields : List (Bytes × Value)

pub record SpanData : Type 0 where
  pub span_context : SpanContextData
  pub references : List SpanReferenceData
  pub operation_name : Bytes
  pub start_timestamp : ℤ
  pub duration : ℤ
  -- a `std::map<std::string, Value>`
  pub tags : List (Bytes × Value)
  pub logs : List LogRecord
