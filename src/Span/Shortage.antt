-- ===== src/Span/Shortage.antt =====
-- `FinishWithOptions` of mocktracer/src/mock_span.cpp where memory can be short. A heap has an entry for
-- each place where memory may be needed: for a string that is short enough to need none, memory is given.
pub mod Finish
pub mod Setters
pub mod Atomic
pub mod Kept
use opentracing_cpp.Base.{
  ◌≡◌, refl, arith, Bool, true, false, List, [], ◌∷◌, Option, none, some, Bytes, if◌then◌else◌,
  Option-cases, ◌∙◌, ◌⊎◌, inl, inr, ap,
}
use opentracing_cpp.Heap.{
  Heap, Action, Attempt, done, go_on, bad_alloc, has_memory, after_new, allocate, modify, gets,
  ◌>>=◌, ◌>>◌, ignoring,
}
use opentracing_cpp.Base.Int.{ℤ}
use opentracing_cpp.Dict.{assign, find}
use opentracing_cpp.Dict.Laws.{assign_twice}
use opentracing_cpp.Context.{copy_baggage}
use opentracing_cpp.SpanData.{Value, null, LogRecord}
use opentracing_cpp.Recorder.{Recorder}
use opentracing_cpp.Span.{
  FinishSpanOptions, MockSpan, set_operation_name, set_tag, log, set_baggage_item, baggage_item,
  finish_with_options,
}
use opentracing_cpp.Span.Threads.{
  Setter, sets_operation_name, sets_tag, logs, sets_baggage_item, apply, apply_all,
}

-- The memory for so many elements: none for no element.
abbrev pub reserve : {S A : Type 0} → List A → Action S Unit
reserve [] = modify λ s. s
reserve (x ∷ xs) = allocate

-- A copy of a value: only what owns memory asks for it.
abbrev pub copy_value : {S : Type 0} → Value → Action S Unit
copy_value (Value.boolean b) = modify λ s. s
copy_value (Value.double d) = modify λ s. s
copy_value (Value.int64 n) = modify λ s. s
copy_value (Value.uint64 n) = modify λ s. s
copy_value (Value.string s) = allocate
copy_value (Value.string_view s) = modify λ s. s
copy_value Value.null = modify λ s. s
copy_value (Value.c_string s) = modify λ s. s
copy_value (Value.values vs) = allocate
copy_value (Value.dictionary d) = allocate

-- A copy of each field: the key and the value.
abbrev pub copy_fields : {S : Type 0} → List (Bytes × Value) → Action S Unit
copy_fields [] = modify λ s. s
copy_fields ((key, value) ∷ fields) = do allocate; copy_value value; copy_fields fields

-- `push_back` of each log record, into memory that was reserved.
abbrev pub copy_records : {S : Type 0} → List LogRecord → Action S Unit
copy_records [] = modify λ s. s
copy_records (log_record ∷ log_records) = do
  reserve log_record.fields
  copy_fields log_record.fields
  copy_records log_records

abbrev pub or_terminate : {S : Type 0} → Attempt Unit × S × Heap → Option S
or_terminate (done a, s, heap) = some s
or_terminate (bad_alloc, s, heap) = none

module _ {R : Type 0} (recorder : Recorder R) where
  abbrev pub finish_body : ℤ → FinishSpanOptions → Action (MockSpan × Option R) Unit
  finish_body steady_now options = do
    reserve options.log_records
    copy_records options.log_records
    baggage ← gets λ s. s.0.span_context.baggage
    copy_baggage baggage
    modify λ s. finish_with_options recorder steady_now options s.0 s.1

  -- `FinishWithOptions`, which is `noexcept` and catches nothing: `none` is `std::terminate`.
  unfoldable pub finish_or_terminate :
      ℤ → FinishSpanOptions → MockSpan → Option R → Heap → Option (MockSpan × Option R)
  finish_or_terminate steady_now options span r heap =
      if span.is_finished
      then some (span, r)
      else or_terminate (finish_body steady_now options (span, r) heap)
