-- ===== src/Span/Threads.antt =====
-- The methods of mocktracer/src/mock_span.cpp called on one span by many threads. A thread takes the
-- mutex that its method takes, loads what the mutex protects, stores what the method makes of it, and
-- releases the mutex. `FinishWithOptions` exchanges the flag, changes `data_` without the mutex of the
-- span, copies the context with the mutex of the baggage, and hands `data_` to the recorder.
-- `BaggageItem` reads an item with the mutex of the baggage. Steps of different threads are taken in any
-- order. A program whose threads may use `data_` at once without a common mutex has no defined behaviour:
-- the theorems are about threads without such a race, but for Span.Unguarded, which exhibits it.
use opentracing_cpp.Base.{
  if◌then◌else◌, ◌≡◌, ◌⊎◌, All, Bool, true, false, List, [], ◌∷◌, ◌++◌, Bytes,
}
use opentracing_cpp.Base.Int.{ℤ}
use opentracing_cpp.SpanData.{Value, SpanData}
use opentracing_cpp.Context.{copy_data}
use opentracing_cpp.Span.{
  FinishSpanOptions, MockSpan, finished_data, set_operation_name, set_tag, log, set_baggage_item,
  baggage_item,
}

-- `mutex_` of the span, and `baggage_mutex_` of its context.
pub data Mutex : Type 0 where
  span_mutex baggage_mutex : Mutex

-- The calls that change a span without finishing it.
pub data Setter : Type 0 where
  sets_operation_name : Bytes → Setter
  sets_tag : Bytes → Value → Setter
  logs : ℤ → List (Bytes × Value) → Setter
  sets_baggage_item : Bytes → Bytes → Setter

-- The mutex of the `lock_guard`.
unfoldable pub mutex_of : Setter → Mutex
mutex_of (sets_operation_name name) = span_mutex
mutex_of (sets_tag key value) = span_mutex
mutex_of (logs timestamp fields) = span_mutex
mutex_of (sets_baggage_item key value) = baggage_mutex

-- What the call does to a span that no other thread uses.
unfoldable pub apply : Setter → MockSpan → MockSpan
apply (sets_operation_name name) span = set_operation_name name span
apply (sets_tag key value) span = set_tag key value span
apply (logs timestamp fields) span = log timestamp fields span
apply (sets_baggage_item key value) span = set_baggage_item key value span

unfoldable pub apply_all : List Setter → MockSpan → MockSpan
apply_all [] span = span
apply_all (c ∷ calls) span = apply_all calls (apply c span)

-- Where a thread stands in its call. `loaded` has a copy of the span, of which it uses what its mutex
-- protects.
pub data Thread : Type 0 where
  waiting : Setter → Thread
  holding : Setter → Thread
  loaded : Setter → MockSpan → Thread
  stored : Setter → Thread
  returned : Setter → Thread
  -- `FinishWithOptions`: before and behind the exchange of the flag, behind the change of `data_`, in
  -- `CopyData` with the mutex of the baggage, behind it, and at its end
  finishing : ℤ → FinishSpanOptions → Thread
  claimed : ℤ → FinishSpanOptions → Thread
  changed : Thread
  copying : Thread
  copied : Thread
  finished : Thread
  -- `BaggageItem`: before the mutex, behind it, with the result, and without the mutex
  asking : Bytes → Thread
  reading : Bytes → Thread
  found : Bytes → Bytes → Thread
  answered : Bytes → Bytes → Thread

-- `has_recorder` is `recorder_ != nullptr`, and `recorded` what `RecordSpan` has been called with.
pub record Shared : Type 0 where
  pub span : MockSpan
  pub mutex_ : Bool
  pub baggage_mutex_ : Bool
  pub has_recorder : Bool
  pub recorded : List SpanData

abbrev pub is_locked : Mutex → Shared → Bool
is_locked span_mutex m = m.mutex_
is_locked baggage_mutex m = m.baggage_mutex_

abbrev pub set_lock : Mutex → Bool → Shared → Shared
set_lock span_mutex b m = record m { mutex_ = b }
set_lock baggage_mutex b m = record m { baggage_mutex_ = b }

-- What a mutex protects is taken from the first span, all else from the second.
unfoldable pub merge : Mutex → MockSpan → MockSpan → MockSpan
merge span_mutex from span = record span { data_ = from.data_ }
merge baggage_mutex from span = record span { span_context = from.span_context }

-- What `FinishWithOptions` makes of `data_` before it copies the context.
abbrev pub prepared : ℤ → FinishSpanOptions → MockSpan → SpanData
prepared now options span = record (finished_data now options span) {
  span_context = span.data_.span_context;
}

abbrev pub with_context : MockSpan → MockSpan
with_context span = record span {
  data_ = record span.data_ { span_context = copy_data span.span_context span.data_.span_context };
}

-- `recorder_->RecordSpan(std::move(data_))`
unfoldable pub call_recorder : (SpanData → SpanData) → Shared → Shared
call_recorder left m = record m {
  span = record m.span { data_ = left m.span.data_ };
  recorded = m.recorded ++ m.span.data_ ∷ [];
}

-- One step of one thread.
pub data Move (m : Shared) : Thread → Thread → Shared → Type 0 where
  locks :
      (c : Setter)
      → is_locked (mutex_of c) m ≡ false
      → Move m (waiting c) (holding c) (set_lock (mutex_of c) true m)
  loads : (c : Setter) → Move m (holding c) (loaded c m.span) m
  stores :
      (c : Setter) (copy : MockSpan)
      → Move m
          (loaded c copy)
          (stored c)
          (record m { span = merge (mutex_of c) (apply c copy) m.span })
  unlocks : (c : Setter) → Move m (stored c) (returned c) (set_lock (mutex_of c) false m)
  -- `if (is_finished_.exchange(true)) return;`
  claims :
      (now : ℤ) (options : FinishSpanOptions)
      → m.span.is_finished ≡ false
      → Move m
          (finishing now options)
          (claimed now options)
          (record m { span = record m.span { is_finished = true } })
  leaves :
      (now : ℤ) (options : FinishSpanOptions)
      → m.span.is_finished ≡ true
      → Move m (finishing now options) finished m
  -- the log records and the duration: without a mutex
  prepares :
      (now : ℤ) (options : FinishSpanOptions)
      → Move m
          (claimed now options)
          changed
          (record m { span = record m.span { data_ = prepared now options m.span } })
  -- the `lock_guard` of `CopyData`
  enters : m.baggage_mutex_ ≡ false → Move m changed copying (record m { baggage_mutex_ = true })
  -- `span_context_.CopyData(data_.span_context)`
  copies : Move m copying copied (record m { span = with_context m.span; baggage_mutex_ = false })
  -- `left` says what `RecordSpan` leaves in `data_`
  records :
      (left : SpanData → SpanData)
      → Move m copied finished (if m.has_recorder then call_recorder left m else m)
  asks :
      (key : Bytes)
      → m.baggage_mutex_ ≡ false
      → Move m (asking key) (reading key) (record m { baggage_mutex_ = true })
  reads : (key : Bytes) → Move m (reading key) (found key (baggage_item key m.span)) m
  leaves_baggage :
      (key value : Bytes)
      → Move m (found key value) (answered key value) (record m { baggage_mutex_ = false })

pub record State : Type 0 where
  pub shared : Shared
  pub threads : List Thread

pub data Step (s : State) : State → Type 0 where
  moves :
      {p q : Thread} {m : Shared} (before after : List Thread)
      → s.threads ≡ before ++ p ∷ after
      → Move s.shared p q m
      → Step s (record { shared = m; threads = before ++ q ∷ after })

-- The states that some threads come to on a span whose mutexes are free.
abbrev pub begin : Bool → MockSpan → List Thread → State
begin has_recorder span threads = record {
  shared = record {
    span = span;
    mutex_ = false;
    baggage_mutex_ = false;
    has_recorder = has_recorder;
    recorded = [];
  };
  threads = threads;
}

-- A thread that has called none of `SetOperationName`, `SetTag` and `Log`.
abbrev pub IsNoDataSetter : Thread → Type 0
IsNoDataSetter (waiting c) = mutex_of c ≡ baggage_mutex
IsNoDataSetter t = Unit

-- A thread that has not called `FinishWithOptions`.
abbrev pub IsNoFinisher : Thread → Type 0
IsNoFinisher (finishing now options) = ⊥
IsNoFinisher t = Unit

-- No thread sets the name, a tag or a log while another may finish the span.
abbrev pub HasNoRace : List Thread → Type 0
HasNoRace threads = All IsNoDataSetter threads ⊎ All IsNoFinisher threads

pub data Reach (s0 : State) : State → Type 0 where
  start : Reach s0 s0
  later : {s t : State} → Reach s0 s → Step s t → Reach s0 t
