-- ===== src/Json/Pipeline.antt =====
-- From the calls on a span of mocktracer/src/mock_span.cpp to the text that the recorder of
-- mocktracer/src/json_recorder.cpp leaves behind.
use opentracing_cpp.Base.{ℕ, ◌≡◌, ap, ◌∙◌, false, List, All, [], ◌∷◌, Bytes, Option, none, some}
use opentracing_cpp.Base.Int.{ℤ}
use opentracing_cpp.SpanData.{SpanData}
use opentracing_cpp.Span.{FinishSpanOptions, MockSpan, finish_with_options, finished_data, destroy}
use opentracing_cpp.Span.Calls.{Call, IsQuiet, run, recorded_data}
use opentracing_cpp.Json.Recorder.{JsonRecorder, json_recorder, json_close}
use opentracing_cpp.Recorder.{record_all}
use opentracing_cpp.Json.Tree.{Json}
use opentracing_cpp.Json.SpanTree.{spans_tree, IsCleanSpan}
use opentracing_cpp.Json.ReadBack.{PrintsNumbers, new_recorder, read_flushed, parse_json-json_close}

-- What is read of the text of a recorder when it has been closed.
abbrev pub read_closed : (ℕ → Bytes) → Option JsonRecorder → Option Json
read_closed print_double none = none
read_closed print_double (some r) = read_flushed (json_close print_double r).out

module _ (print_double : ℕ → Bytes) (left : SpanData → SpanData) where
  -- A span that is not finished has a JSON recorder on a new stream. After some calls that do not finish
  -- it, a first call that does, any further calls, its destruction and `Close` of the recorder, the
  -- flushed text is read as the array of one tree: that of the span's data as the first call to finish it
  -- found them, if their strings are UTF-8 and need no code for a control character, and finite doubles
  -- are printed as JSON numbers.
  pub read_closed-destroy :
      (before after : List Call) (span : MockSpan) (finish_now : ℤ) (options : FinishSpanOptions)
      (steady_now later : ℤ)
      → PrintsNumbers print_double
      → All (IsQuiet (json_recorder print_double left)) before
      → span.is_finished ≡ false
      → (let recorder = json_recorder print_double left in
          IsCleanSpan
            (finished_data finish_now options (run recorder before (span, some new_recorder)).0))
      → let recorder = json_recorder print_double left in
        read_closed print_double (
          let (span1, r1) = run recorder before (span, some new_recorder) in
          let (span2, r2) = finish_with_options recorder finish_now options span1 r1 in
          let (span3, r3) = run recorder after (span2, r2) in
          destroy recorder steady_now later span3 r3)
        ≡ some (
            spans_tree print_double (
              finished_data finish_now options (run recorder before (span, some new_recorder)).0
              ∷ []))
  unfolding record_all
  read_closed-destroy before after span finish_now options steady_now later prints quiet open_
        clean =
      let recorder = json_recorder print_double left in
      let data_ =
        finished_data finish_now options (run recorder before (span, some new_recorder)).0 in
      ap (read_closed print_double) (
        recorded_data recorder before after span new_recorder finish_now options steady_now later
          quiet open_)
      ∙ parse_json-json_close print_double left (data_ ∷ []) prints (clean, tt)
