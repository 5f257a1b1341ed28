-- ===== src/Context.antt =====
-- mocktracer/src/mock_span_context.cpp and mock_span_context.h. `SpanContext` is an interface of
-- include/opentracing/span.h; a value here says which class an object has.
use opentracing_cpp.Base.{Bool, true, false, List, [], ◌∷◌, Bytes, ℕ, Option, some, none}
use opentracing_cpp.Heap.{Heap, Action, Attempt, done, bad_alloc, allocate, modify, ◌>>=◌, ◌>>◌}
use opentracing_cpp.SpanData.{SpanContextData}
use opentracing_cpp.Json.Text.{print_number}
pub mod Identity

pub data SpanContext : Type 0 where
  -- `MockSpanContext`
  mock : SpanContextData → SpanContext
  -- `NoopSpanContext` of src/noop.cpp
  noop : SpanContext
  -- a class of another tracer
  foreign : ℕ → SpanContext

-- The baggage loop of `MockSpanContext::ForeachBaggageItem`: the function says whether to go on.
-- `S` is what the function captures.
unfoldable pub foreach_baggage_item :
    {S : Type 0} → (Bytes → Bytes → S → Bool × S) → List (Bytes × Bytes) → S → S
foreach_baggage_item f [] s = s
foreach_baggage_item f ((key, value) ∷ baggage) s =
    let (go_on, s') = f key value s in
    elim go_on [ true ↦ foreach_baggage_item f baggage s' | false ↦ s' ]

-- `MockSpanContext::CopyData`, into an object that held `old`.
unfoldable pub copy_data : SpanContextData → SpanContextData → SpanContextData
copy_data data_ old = record old {
  trace_id = data_.trace_id;
  span_id = data_.span_id;
  baggage = data_.baggage;
}

-- `SpanContextData{}` in a new `MockSpanContext{}`.
abbrev pub empty_context : SpanContextData
empty_context = record { trace_id = 0; span_id = 0; baggage = [] }

-- `data.baggage = data_.baggage`: a node with two strings for each item.
abbrev pub copy_baggage : {S : Type 0} → List (Bytes × Bytes) → Action S Unit
copy_baggage [] = modify λ s. s
copy_baggage (item ∷ baggage) = do allocate; allocate; allocate; copy_baggage baggage

abbrev or_null : SpanContextData → Attempt Unit × SpanContextData × Heap → Option SpanContextData
or_null copy (done a, s, heap) = some copy
or_null copy (bad_alloc, s, heap) = none

-- `MockSpanContext::Clone`: a null pointer, if the new object or its copy of the baggage has no memory.
unfoldable pub clone : Heap → SpanContextData → Option SpanContextData
unfolding copy_data
clone heap data_ =
    or_null (copy_data data_ empty_context) ((allocate >> copy_baggage data_.baggage) data_ heap)

-- The move assignment: what is assigned to, and what is left of the other object. A moved-from map may
-- hold anything, which `left` says.
unfoldable pub assign_context :
    (List (Bytes × Bytes) → List (Bytes × Bytes))
    → SpanContextData
    → SpanContextData
    → SpanContextData × SpanContextData
assign_context left data_ other = (
  record data_ { trace_id = other.trace_id; span_id = other.span_id; baggage = other.baggage },
  record other { baggage = left other.baggage },
)

-- `MockSpanContext::ToTraceID`, with the digits of `std::to_string`.
unfoldable pub to_trace_id : SpanContextData → Bytes
to_trace_id data_ = print_number 10 data_.trace_id

-- `MockSpanContext::ToSpanID`
unfoldable pub to_span_id : SpanContextData → Bytes
to_span_id data_ = print_number 10 data_.span_id

-- `dynamic_cast<const MockSpanContext*>`
abbrev pub as_mock : SpanContext → Option SpanContextData
as_mock (mock data_) = some data_
as_mock noop = none
as_mock (foreign n) = none
