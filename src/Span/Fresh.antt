-- ===== src/Span/Fresh.antt =====
-- What the threads that call setters of mocktracer/src/mock_span.cpp have loaded, against the span.
use opentracing_cpp.Base.{◌≡◌, refl, ap, false, List, All, [], ◌∷◌, arith, count}
use opentracing_cpp.SpanData.{SpanData, SpanContextData}
use opentracing_cpp.Span.{MockSpan, set_operation_name, set_tag, log, set_baggage_item}
use opentracing_cpp.Span.Threads.{
  changed, asking, reading, found, answered, Mutex, span_mutex, baggage_mutex, Setter,
  sets_operation_name, sets_tag, logs, sets_baggage_item, mutex_of, apply, merge, Thread, waiting,
  holding, loaded, stored, returned, finishing, claimed, copying, copied, finished,
}
use opentracing_cpp.Span.Exclusion.{same, holds}

-- What a thread has loaded is what its mutex protects now. Threads that finish the span have no place.
unfoldable pub Fresh : MockSpan → Thread → Type 0
Fresh span (waiting c) = Unit
Fresh span (holding c) = Unit
Fresh span (loaded c copy) = merge (mutex_of c) copy span ≡ span
Fresh span (stored c) = Unit
Fresh span (returned c) = Unit
Fresh span (finishing now options) = ⊥
Fresh span (claimed now options) = ⊥
Fresh span copying = ⊥
Fresh span copied = ⊥
Fresh span finished = ⊥
Fresh span changed = ⊥
Fresh span (asking key) = ⊥
Fresh span (reading key) = ⊥
Fresh span (found key value) = ⊥
Fresh span (answered key value) = ⊥

data_eq : {s t : MockSpan} → s ≡ t → s.data_ ≡ t.data_
data_eq e = ap (λ (r : MockSpan). r.data_) e

context_eq : {s t : MockSpan} → s ≡ t → s.span_context ≡ t.span_context
context_eq e = ap (λ (r : MockSpan). r.span_context) e

-- To store what a call makes of a fresh copy is to make the call.
pub merge-apply :
    (c : Setter) (copy span : MockSpan)
    → merge (mutex_of c) copy span ≡ span
    → merge (mutex_of c) (apply c copy) span ≡ apply c span
unfolding merge mutex_of apply set_operation_name set_tag log set_baggage_item
merge-apply (sets_operation_name name) copy span e =
    ap (λ (d : SpanData). (set_operation_name name (record span { data_ = d }))) (data_eq e)
merge-apply (sets_tag key value) copy span e =
    ap (λ (d : SpanData). (set_tag key value (record span { data_ = d }))) (data_eq e)
merge-apply (logs timestamp fields) copy span e =
    ap (λ (d : SpanData). (log timestamp fields (record span { data_ = d }))) (data_eq e)
merge-apply (sets_baggage_item key value) copy span e =
    ap (λ (d : SpanContextData). (set_baggage_item key value (record span { span_context = d })))
      (context_eq e)

-- A store behind one mutex leaves what the other protects.
merge_other :
    (k j : Mutex) (copy made span : MockSpan)
    → same k j ≡ false
    → merge j copy span ≡ span
    → merge j copy (merge k made span) ≡ merge k made span
unfolding merge
merge_other span_mutex span_mutex copy made span other e = absurd (cc)
merge_other span_mutex baggage_mutex copy made span other e =
    ap (λ (d : SpanContextData). record span { data_ = made.data_; span_context = d })
      (context_eq e)
merge_other baggage_mutex span_mutex copy made span other e =
    ap (λ (d : SpanData). record span { span_context = made.span_context; data_ = d }) (data_eq e)
merge_other baggage_mutex baggage_mutex copy made span other e = absurd (cc)

Fresh-merge :
    (k : Mutex) (made span : MockSpan) (t : Thread)
    → holds k t ≡ 0
    → Fresh span t
    → Fresh (merge k made span) t
unfolding Fresh
Fresh-merge k made span (waiting c) free h = tt
Fresh-merge k made span (holding c) free h = tt
Fresh-merge k made span (loaded c copy) free h =
    merge_other k (mutex_of c) copy made span (ground arith) h
Fresh-merge k made span (stored c) free h = tt
Fresh-merge k made span (returned c) free h = tt
Fresh-merge k made span (finishing now options) free h = h
Fresh-merge k made span (claimed now options) free h = h
Fresh-merge k made span copying free h = h
Fresh-merge k made span copied free h = h
Fresh-merge k made span finished free h = h
Fresh-merge k made span changed free h = h
Fresh-merge k made span (asking key) free h = h
Fresh-merge k made span (reading key) free h = h
Fresh-merge k made span (found key value) free h = h
Fresh-merge k made span (answered key value) free h = h

pub All-Fresh-merge :
    (k : Mutex) (made span : MockSpan) (threads : List Thread)
    → count (holds k) threads ≡ 0
    → All (Fresh span) threads
    → All (Fresh (merge k made span)) threads
All-Fresh-merge k made span [] none h = tt
All-Fresh-merge k made span (t ∷ threads) none (ht, hs) = (
  Fresh-merge k made span t (omega arith) ht,
  All-Fresh-merge k made span threads (omega arith) hs,
)

pub merge_self : (k : Mutex) (span : MockSpan) → merge k span span ≡ span
unfolding merge
merge_self span_mutex span = refl
merge_self baggage_mutex span = refl
