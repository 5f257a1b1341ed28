-- ===== src/Span/Shortage/Finish.antt =====
-- `FinishWithOptions` of mocktracer/src/mock_span.cpp where memory can be short.
use opentracing_cpp.Base.{
  ℕ, ◌+◌, ◌*◌, suc, zero, ◌≡◌, Bool, true, ◌&&◌, List, [], ◌∷◌, Option, none, some, Bytes, length,
  count, if◌then◌else◌,
}
use opentracing_cpp.Heap.{Heap, Attempt, Action, done, bad_alloc, has_memory, after_new}
use opentracing_cpp.SpanData.{Value, LogRecord}
use opentracing_cpp.Recorder.{Recorder}
use opentracing_cpp.Span.{FinishSpanOptions, MockSpan}

-- The next `n` allocations are given memory.
abbrev pub has_all : ℕ → Heap → Bool
has_all zero heap = true
has_all (suc n) heap = has_memory heap && has_all n (after_new heap)

abbrev pub reserve_cost : {A : Type 0} → List A → ℕ
reserve_cost [] = 0
reserve_cost (x ∷ xs) = 1

abbrev pub value_cost : Value → ℕ
value_cost (Value.boolean b) = 0
value_cost (Value.double d) = 0
value_cost (Value.int64 n) = 0
value_cost (Value.uint64 n) = 0
value_cost (Value.string s) = 1
value_cost (Value.string_view s) = 0
value_cost Value.null = 0
value_cost (Value.c_string s) = 0
value_cost (Value.values vs) = 1
value_cost (Value.dictionary d) = 1

abbrev pub field_cost : Bytes × Value → ℕ
field_cost (key, value) = 1 + value_cost value

-- The allocations that copying the log records takes, and that finishing takes.
abbrev pub record_cost : LogRecord → ℕ
record_cost log_record = reserve_cost log_record.fields + count field_cost log_record.fields

abbrev pub finish_cost : FinishSpanOptions → MockSpan → ℕ
finish_cost options span =
    reserve_cost options.log_records
    + count record_cost options.log_records
    + 3 * length span.span_context.baggage

-- What so many allocations come to, and the heap behind them or behind the first that fails.
abbrev ask : ℕ → Heap → Attempt Unit × Heap
ask zero heap = (done tt, heap)
ask (suc n) heap =
    let rest = ask n (after_new heap) in
    if has_memory heap then rest else (bad_alloc, after_new heap)

abbrev ask_further : ℕ → Attempt Unit × Heap → Attempt Unit × Heap
ask_further n (done a, heap) = ask n heap
ask_further n (bad_alloc, heap) = (bad_alloc, heap)

module _ {S : Type 0} where
  -- Code that makes so many allocations, and changes nothing.
  abbrev Costs : ℕ → Action S Unit → Type 0
  Costs n m = (s : S) (heap : Heap) → m s heap ≡ ((ask n heap).0, s, (ask n heap).1)

  -- `done_with` is what the code comes to if so many allocations are given memory.
  abbrev outcome : S → Attempt Unit × Heap → Option S
  outcome done_with (done a, heap) = some done_with
  outcome done_with (bad_alloc, heap) = none
