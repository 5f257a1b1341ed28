-- ===== src/Span.antt =====
-- mocktracer/src/mock_span.cpp and mock_span.h, with the options of include/opentracing/tracer.h
-- and span.h and `convert_time_point` of util.h. Times are counts of nanoseconds, and a time that
-- was not set is 0. Each method is one step; what the clocks show and what the
-- generator draws are arguments.
pub mod Calls
pub mod Start
pub mod Threads
pub mod Exclusion
pub mod Fresh
pub mod Stores
pub mod Linear
pub mod Progress
pub mod Claimed
pub mod Finishers
pub mod Shortage
pub mod Unguarded
use opentracing_cpp.Base.{
  ℕ, Bool, true, false, ◌&&◌, List, [], ◌∷◌, ◌++◌, Option, none, some, Bytes, if◌then◌else◌,
}
use opentracing_cpp.Base.Int.{ℤ, pos, ◌+ℤ◌, ◌-ℤ◌, is_zero}
use opentracing_cpp.Dict.{assign, emplace, find}
use opentracing_cpp.SpanData.{
  SpanReferenceType, Value, SpanContextData, SpanReferenceData, LogRecord, SpanData,
}
use opentracing_cpp.Context.{SpanContext, foreach_baggage_item, copy_data, as_mock}
use opentracing_cpp.Recorder.{Recorder}

pub record StartSpanOptions : Type 0 where
  pub start_system_timestamp : ℤ
  pub start_steady_timestamp : ℤ
  -- a null pointer is `none`
  pub references : List (SpanReferenceType × Option SpanContext)
  pub tags : List (Bytes × Value)

pub record FinishSpanOptions : Type 0 where
  pub finish_steady_timestamp : ℤ
  pub log_records : List LogRecord

-- What `SystemClock::now()` and `SteadyClock::now()` show. Each is read once at most in a call.
pub record Clocks : Type 0 where
  pub system_now : ℤ
  pub steady_now : ℤ

-- The random engine of the thread.
pub record Generator (G : Type 0) : Type 0 where
  pub next : G → ℕ × G

-- `convert_time_point`, between two clocks that show these times.
unfoldable pub convert_time_point : ℤ → ℤ → ℤ → ℤ
convert_time_point from_now to_now from_time_point = to_now +ℤ (from_time_point -ℤ from_now)

-- `ComputeStartTimestamps`
unfoldable pub compute_start_timestamps : Clocks → ℤ → ℤ → ℤ × ℤ
compute_start_timestamps now system steady =
    if is_zero system && is_zero steady
    then (now.system_now, now.steady_now)
    else if is_zero system
    then (convert_time_point now.steady_now now.system_now steady, steady)
    else if is_zero steady
    then (system, convert_time_point now.system_now now.steady_now system)
    else (system, steady)

-- The function that `SetSpanReference` hands to `ForeachBaggageItem`.
abbrev pub copy_item : Bytes → Bytes → List (Bytes × Bytes) → Bool × List (Bytes × Bytes)
copy_item key value baggage = (true, assign key value baggage)

abbrev reference_data : SpanReferenceType → SpanContextData → SpanReferenceData
reference_data kind context = record {
  reference_type = kind;
  trace_id = context.trace_id;
  span_id = context.span_id;
}

-- The two lists that the constructor fills from the references.
pub record Gathered : Type 0 where
  pub baggage : List (Bytes × Bytes)
  pub references : List SpanReferenceData

abbrev add_context : SpanReferenceType → Option SpanContextData → Gathered → Gathered
add_context kind none g = g
add_context kind (some context) g = record {
  baggage = foreach_baggage_item copy_item context.baggage g.baggage;
  references = g.references ++ reference_data kind context ∷ [];
}

-- `SetSpanReference` and the `push_back` that follows it where it returns true: a null pointer and
-- a context of another class are passed over.
unfoldable pub set_span_reference : SpanReferenceType × Option SpanContext → Gathered → Gathered
set_span_reference (kind, none) g = g
set_span_reference (kind, some context) g = add_context kind (as_mock context) g

unfoldable pub set_span_references :
    List (SpanReferenceType × Option SpanContext) → Gathered → Gathered
set_span_references [] g = g
set_span_references (r ∷ references) g = set_span_references references (set_span_reference r g)

-- `data_.tags[tag.first] = tag.second` for each tag.
unfoldable pub set_tags : List (Bytes × Value) → List (Bytes × Value) → List (Bytes × Value)
set_tags [] tags = tags
set_tags ((key, value) ∷ rest) tags = set_tags rest (assign key value tags)

-- The object, but for its tracer and the pointer to its recorder.
pub record MockSpan : Type 0 where
  pub span_context : SpanContextData
  pub start_steady : ℤ
  pub is_finished : Bool
  pub data_ : SpanData

-- The trace id is that of the first reference, or else it is drawn.
abbrev pub trace_id_of : {G : Type 0} → Generator G → G → List SpanReferenceData → ℕ × G
trace_id_of gen g [] = gen.next g
trace_id_of gen g (r ∷ references) = (r.trace_id, g)

-- The constructor of `MockSpan`; the generator goes on from its new state.
unfoldable pub make_span :
    {G : Type 0} → Generator G → G → Clocks → Bytes → StartSpanOptions → MockSpan × G
make_span gen g now operation_name options =
    let (system, steady) =
      compute_start_timestamps now options.start_system_timestamp options.start_steady_timestamp in
    let gathered =
      set_span_references options.references (record { baggage = []; references = [] }) in
    let (trace_id, g1) = trace_id_of gen g gathered.references in
    let (span_id, g2) = gen.next g1 in
    (
      record {
        span_context = record {
          trace_id = trace_id;
          span_id = span_id;
          baggage = gathered.baggage;
        };
        start_steady = steady;
        is_finished = false;
        data_ = record {
          span_context = record { trace_id = 0; span_id = 0; baggage = [] };
          references = gathered.references;
          operation_name = operation_name;
          start_timestamp = system;
          duration = pos 0;
          tags = set_tags options.tags [];
          logs = [];
        };
      },
      g2,
    )

-- The data that `FinishWithOptions` records, with the steady clock's time.
unfoldable pub finished_data : ℤ → FinishSpanOptions → MockSpan → SpanData
finished_data steady_now options span =
    let finish_timestamp =
      if is_zero options.finish_steady_timestamp
      then steady_now
      else options.finish_steady_timestamp in
    record span.data_ {
      logs = span.data_.logs ++ options.log_records;
      duration = finish_timestamp -ℤ span.start_steady;
      span_context = copy_data span.span_context span.data_.span_context;
    }

-- The options that `Span::Finish` starts from.
abbrev pub default_finish : ℤ → FinishSpanOptions
default_finish steady_now = record { finish_steady_timestamp = steady_now; log_records = [] }

-- `for (const auto& option : option_list) option.get().Apply(options);`
unfoldable pub apply_all : {O : Type 0} → List (O → O) → O → O
apply_all [] options = options
apply_all (apply ∷ rest) options = apply_all rest (apply options)

module _ {R : Type 0} (recorder : Recorder R) where
  -- `if (recorder_ != nullptr)`
  abbrev record_data : SpanData → Option R → Option R × SpanData
  record_data data_ none = (none, data_)
  record_data data_ (some r) = let (r', left) = recorder.record_span data_ r in (some r', left)

  -- `MockSpan::FinishWithOptions`: the span and its recorder afterwards.
  unfoldable pub finish_with_options :
      ℤ → FinishSpanOptions → MockSpan → Option R → MockSpan × Option R
  finish_with_options steady_now options span r =
      if span.is_finished
      then (span, r)
      else let (r', left) = record_data (finished_data steady_now options span) r in
        (record span { is_finished = true; data_ = left }, r')

  -- `Span::Finish`, with what its options do to the defaults. It reads the steady clock first, and
  -- `FinishWithOptions` may do so again.
  unfoldable pub finish :
      ℤ
      → ℤ
      → List (FinishSpanOptions → FinishSpanOptions)
      → MockSpan
      → Option R
      → MockSpan × Option R
  finish steady_now later option_list span r =
      finish_with_options later (apply_all option_list (default_finish steady_now)) span r

  -- `~MockSpan`: the recorder afterwards.
  unfoldable pub destroy : ℤ → ℤ → MockSpan → Option R → Option R
  destroy steady_now later span r =
      if span.is_finished then r else (finish steady_now later [] span r).1

unfoldable pub set_operation_name : Bytes → MockSpan → MockSpan
set_operation_name name span = record span { data_ = record span.data_ { operation_name = name } }

unfoldable pub set_tag : Bytes → Value → MockSpan → MockSpan
set_tag key value span = record span {
  data_ = record span.data_ { tags = assign key value span.data_.tags };
}

-- The three overloads of `Log`; the first takes the time from the system clock.
unfoldable pub log : ℤ → List (Bytes × Value) → MockSpan → MockSpan
log timestamp fields span =
    let log_record : LogRecord = record { timestamp = timestamp; fields = fields } in
    record span { data_ = record span.data_ { logs = span.data_.logs ++ log_record ∷ [] } }

unfoldable pub set_baggage_item : Bytes → Bytes → MockSpan → MockSpan
set_baggage_item restricted_key value span =
    let context = span.span_context in
    record span {
      span_context = record context { baggage = emplace restricted_key value context.baggage };
    }

abbrev found_or_empty : Option Bytes → Bytes
found_or_empty none = []
found_or_empty (some value) = value

-- `BaggageItem`: a missing key gives the empty string.
unfoldable pub baggage_item : Bytes → MockSpan → Bytes
baggage_item restricted_key span = found_or_empty (find restricted_key span.span_context.baggage)
