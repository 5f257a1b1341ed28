-- ===== src/Context/Identity.antt =====
-- The ids of a context as text, and the loop over its baggage: mocktracer/src/mock_span_context.cpp and
-- mock_span_context.h.
use opentracing_cpp.Base.{
  ◌≡◌, refl, sym, ap, ◌∙◌, Bool, List, [], ◌∷◌, ◌++◌, append-nil, append_assoc, Bytes, Bool-cases,
  inl, inr, if◌then◌else◌,
}
use opentracing_cpp.SpanData.{SpanContextData}
use opentracing_cpp.Json.Digits.{value_from, decimal, value_from-print_number}
use opentracing_cpp.Context.{foreach_baggage_item, to_trace_id, to_span_id}

-- The number in base 10 that the text of a trace id spells.
to_trace_id_lem : (c : SpanContextData) → value_from 10 0 (to_trace_id c) ≡ c.trace_id
unfolding to_trace_id
to_trace_id_lem c = value_from-print_number 10 decimal c.trace_id

to_span_id_lem : (c : SpanContextData) → value_from 10 0 (to_span_id c) ≡ c.span_id
unfolding to_span_id
to_span_id_lem c = value_from-print_number 10 decimal c.span_id

-- Two contexts of which `ToTraceID` and `ToSpanID` return the same texts have the same ids.
same_ids :
    (c d : SpanContextData)
    → to_trace_id c ≡ to_trace_id d
    → to_span_id c ≡ to_span_id d
    → (c.trace_id ≡ d.trace_id) × (c.span_id ≡ d.span_id)
same_ids c d trace span = (
  sym (to_trace_id_lem c) ∙ ap (value_from 10 0) trace ∙ to_trace_id_lem d,
  sym (to_span_id_lem c) ∙ ap (value_from 10 0) span ∙ to_span_id_lem d,
)

-- The items up to the first that a test refuses, which is included.
abbrev pub up_to : (Bytes → Bytes → Bool) → List (Bytes × Bytes) → List (Bytes × Bytes)
up_to go_on [] = []
up_to go_on ((key, value) ∷ items) =
    let rest = up_to go_on items in (key, value) ∷ (if go_on key value then rest else [])

-- A function that keeps what it is called with, and goes on as a test says.
abbrev pub keep_items :
    (Bytes → Bytes → Bool) → Bytes → Bytes → List (Bytes × Bytes) → Bool × List (Bytes × Bytes)
keep_items go_on key value kept = (go_on key value, kept ++ (key, value) ∷ [])

-- `ForeachBaggageItem` calls its function for the items in their order, up to the first for which the
-- function returns false, and not again behind it.
foreach_baggage_item-up_to :
    (go_on : Bytes → Bytes → Bool) (items kept : List (Bytes × Bytes))
    → foreach_baggage_item (keep_items go_on) items kept ≡ kept ++ up_to go_on items
unfolding foreach_baggage_item
foreach_baggage_item-up_to go_on [] kept = sym (append-nil kept)
foreach_baggage_item-up_to go_on ((key, value) ∷ items) kept = elim (Bool-cases (go_on key value)) [
  | inl goes ↦ rw goes (
      foreach_baggage_item-up_to go_on items (kept ++ (key, value) ∷ [])
      ∙ append_assoc kept ((key, value) ∷ []) (up_to go_on items))
  | inr stops ↦ rw stops refl
]
