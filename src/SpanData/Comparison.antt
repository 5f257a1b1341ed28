-- ===== src/SpanData/Comparison.antt =====
-- `operator==` and `operator!=` of mocktracer/include/opentracing/mocktracer/recorder.h and of `LogRecord` in
-- include/opentracing/span.h. The comparison of two values is that of the variant, and a parameter.
use opentracing_cpp.Base.{◌==◌, ◌≡◌, Bool, true, false, not, ◌&&◌, List, [], ◌∷◌, Bytes}
use opentracing_cpp.Base.Int.{ℤ, pos, negsuc}
use opentracing_cpp.Error.{same_bytes}
use opentracing_cpp.SpanData.{
  SpanReferenceType, child_of_ref, follows_from_ref, Value, SpanContextData, SpanReferenceData,
  LogRecord, SpanData,
}

-- `operator==` of the containers: as many elements, and each equal to its counterpart.
abbrev pub equal_lists : {A : Type 0} → (A → A → Bool) → List A → List A → Bool
equal_lists equal [] [] = true
equal_lists equal [] (y ∷ ys) = false
equal_lists equal (x ∷ xs) [] = false
equal_lists equal (x ∷ xs) (y ∷ ys) = equal x y && equal_lists equal xs ys

abbrev pub equal_pairs : {A : Type 0} → (A → A → Bool) → Bytes × A → Bytes × A → Bool
equal_pairs equal (k, v) (j, w) = same_bytes k j && equal v w

abbrev pub equal_types : SpanReferenceType → SpanReferenceType → Bool
equal_types child_of_ref child_of_ref = true
equal_types child_of_ref follows_from_ref = false
equal_types follows_from_ref child_of_ref = false
equal_types follows_from_ref follows_from_ref = true

abbrev pub equal_times : ℤ → ℤ → Bool
equal_times (pos m) (pos n) = m == n
equal_times (pos m) (negsuc n) = false
equal_times (negsuc m) (pos n) = false
equal_times (negsuc m) (negsuc n) = m == n

-- `operator==` of `SpanContextData`, and of `SpanReferenceData`.
unfoldable pub equal_contexts : SpanContextData → SpanContextData → Bool
equal_contexts lhs rhs =
    lhs.trace_id == rhs.trace_id
    && lhs.span_id == rhs.span_id
    && equal_lists (equal_pairs same_bytes) lhs.baggage rhs.baggage

unfoldable pub equal_references : SpanReferenceData → SpanReferenceData → Bool
equal_references lhs rhs =
    equal_types lhs.reference_type rhs.reference_type
    && lhs.trace_id == rhs.trace_id
    && lhs.span_id == rhs.span_id

-- `operator!=` of both.
unfoldable pub differing_contexts : SpanContextData → SpanContextData → Bool
differing_contexts lhs rhs = not (equal_contexts lhs rhs)

unfoldable pub differing_references : SpanReferenceData → SpanReferenceData → Bool
differing_references lhs rhs = not (equal_references lhs rhs)

module _ (equal_values : Value → Value → Bool) where
  -- `operator==` of `LogRecord`
  unfoldable pub equal_log_records : LogRecord → LogRecord → Bool
  equal_log_records lhs rhs =
      equal_times lhs.timestamp rhs.timestamp
      && equal_lists (equal_pairs equal_values) lhs.fields rhs.fields

  -- `operator!=` of `LogRecord`
  unfoldable pub differing_log_records : LogRecord → LogRecord → Bool
  differing_log_records lhs rhs = not (equal_log_records lhs rhs)

  -- `operator==` of `SpanData`
  unfoldable pub equal_span_data : SpanData → SpanData → Bool
  equal_span_data lhs rhs =
      equal_contexts lhs.span_context rhs.span_context
      && equal_lists equal_references lhs.references rhs.references
      && same_bytes lhs.operation_name rhs.operation_name
      && equal_times lhs.start_timestamp rhs.start_timestamp
      && equal_times lhs.duration rhs.duration
      && equal_lists (equal_pairs equal_values) lhs.tags rhs.tags
      && equal_lists equal_log_records lhs.logs rhs.logs

  -- `operator!=` of `SpanData`
  unfoldable pub differing_span_data : SpanData → SpanData → Bool
  differing_span_data lhs rhs = not (equal_span_data lhs rhs)

-- Two lists of as many elements, of which each is related to its counterpart.
abbrev pub Pointwise : {A : Type 0} → (A → A → Type 0) → List A → List A → Type 0
Pointwise R [] [] = Unit
Pointwise R [] (y ∷ ys) = ⊥
Pointwise R (x ∷ xs) [] = ⊥
Pointwise R (x ∷ xs) (y ∷ ys) = R x y × Pointwise R xs ys

-- The same key, and values that the variant takes for equal.
abbrev pub SameItem : (Value → Value → Bool) → Bytes × Value → Bytes × Value → Type 0
SameItem equal_values (k, v) (j, w) = (k ≡ j) × (equal_values v w ≡ true)

pub record SameLog (equal_values : Value → Value → Bool) (lhs rhs : LogRecord) : Type 0 where
  pub timestamp : lhs.timestamp ≡ rhs.timestamp
  pub fields : Pointwise (SameItem equal_values) lhs.fields rhs.fields

-- The same data, up to values that the variant takes for equal.
pub record SameData (equal_values : Value → Value → Bool) (lhs rhs : SpanData) : Type 0 where
  pub span_context : lhs.span_context ≡ rhs.span_context
  pub references : lhs.references ≡ rhs.references
  pub operation_name : lhs.operation_name ≡ rhs.operation_name
  pub start_timestamp : lhs.start_timestamp ≡ rhs.start_timestamp
  pub duration : lhs.duration ≡ rhs.duration
  pub tags : Pointwise (SameItem equal_values) lhs.tags rhs.tags
  pub logs : Pointwise (SameLog equal_values) lhs.logs rhs.logs
