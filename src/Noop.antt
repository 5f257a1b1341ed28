-- ===== src/Noop.antt =====
-- src/noop.cpp: the tracer that does nothing. Its spans have no state.
use opentracing_cpp.Base.{
  List, [], ◌∷◌, Option, none, some, Bytes, ◌≡◌, refl, sym, ap, ◌∙◌, Bool, if◌then◌else◌,
}
use opentracing_cpp.Heap.{Heap, has_memory}
use opentracing_cpp.Base.Int.{ℤ}
use opentracing_cpp.Error.{Expected, ok}
use opentracing_cpp.SpanData.{Value}
use opentracing_cpp.Context.{SpanContext, noop}
use opentracing_cpp.Span.{FinishSpanOptions, StartSpanOptions}

-- `NoopSpan` holds its tracer and a `NoopSpanContext`, and no data.
pub record NoopSpan : Type 0 where
  pub span_context : SpanContext

-- The methods of `NoopSpan` that change a span elsewhere: none changes this one.
pub data Call : Type 0 where
  finish_with_options : FinishSpanOptions → Call
  set_operation_name : Bytes → Call
  set_tag : Bytes → Value → Call
  set_baggage_item : Bytes → Bytes → Call
  log : ℤ → List (Bytes × Value) → Call

unfoldable pub call : Call → NoopSpan → NoopSpan
call (finish_with_options options) span = span
call (set_operation_name name) span = span
call (set_tag key value) span = span
call (set_baggage_item restricted_key value) span = span
call (log timestamp fields) span = span

-- `NoopSpan::BaggageItem`
unfoldable pub baggage_item : Bytes → NoopSpan → Bytes
baggage_item restricted_key span = []

-- `NoopSpanContext::ForeachBaggageItem`: the function is not called.
unfoldable pub foreach_baggage_item : {S : Type 0} → (Bytes → Bytes → S → Bool × S) → S → S
foreach_baggage_item f s = s

-- `NoopTracer::StartSpanWithOptions`: a null pointer, if the span has no memory.
unfoldable pub start_span_with_options : Heap → Bytes → StartSpanOptions → Option NoopSpan
start_span_with_options heap operation_name options =
    if has_memory heap then some (record { span_context = noop }) else none

-- `MakeNoopTracer`: a tracer has no state, and there is none without memory.
unfoldable pub make_noop_tracer : Heap → Option (Unit {0})
make_noop_tracer heap = if has_memory heap then some tt else none

-- The three `NoopTracer::Inject`, over carriers of any type: success, and nothing written.
unfoldable pub inject : {W : Type 0} → SpanContext → W → Expected (Unit {0}) × W
inject sc writer = (ok tt, writer)

-- The three `NoopTracer::Extract`: success, with no context.
unfoldable pub extract : {W : Type 0} → W → Expected (Option SpanContext)
extract reader = ok none

unfoldable pub call_all : List Call → NoopSpan → NoopSpan
call_all [] span = span
call_all (c ∷ calls) span = call_all calls (call c span)

call_lem : (c : Call) (span : NoopSpan) → call c span ≡ span
unfolding call
call_lem (finish_with_options options) span = refl
call_lem c span = refl

-- No sequence of calls on a span that has been started can be told from no call: it is what it was, and
-- has no baggage.
call_all_lem :
    (calls : List Call) (heap : Heap) (name key : Bytes) (options : StartSpanOptions)
    (span : NoopSpan)
    → start_span_with_options heap name options ≡ some span
    → (start_span_with_options heap name options ≡ some (call_all calls span))
      × (baggage_item key (call_all calls span) ≡ [])
unfolding baggage_item call_all
call_all_lem calls heap name key options span started =
    (started ∙ ap some (sym (same calls span)), refl)
  where
    same : (cs : List Call) (span : NoopSpan) → call_all cs span ≡ span
    same [] span = refl
    same (c ∷ cs) span = same cs (call c span) ∙ call_lem c span
