-- ===== src/Session.antt =====
-- A whole session: the factory of mocktracer/src/tracer_factory.cpp makes a tracer of a configuration, the
-- tracer of mocktracer/src/tracer.cpp starts a span, the span is finished, and the tracer is closed.
use opentracing_cpp.Base.{
  ℕ, ◌≡◌, refl, ◌∙◌, ◌⊎◌, inl, List, All, [], ◌∷◌, Bytes, Option, none, some, map,
}
use opentracing_cpp.Base.Int.{ℤ}
use opentracing_cpp.Error.{ok}
use opentracing_cpp.SpanData.{SpanData}
use opentracing_cpp.Span.{
  FinishSpanOptions, Clocks, Generator, MockSpan, make_span, finish_with_options, finished_data,
  destroy, apply_all,
}
use opentracing_cpp.Span.Calls.{Call, IsQuiet, run}
use opentracing_cpp.Tracer.{MockTracer, start_span_with_options, close}
use opentracing_cpp.Options.{StartSpanOption, apply, default_start, start_span}
use opentracing_cpp.Json.Tree.{Json}
use opentracing_cpp.Json.SpanTree.{spans_tree, IsCleanSpan}
use opentracing_cpp.Json.Recorder.{Output, JsonRecorder, json_recorder}
use opentracing_cpp.Json.ReadBack.{PrintsNumbers, new_output, new_recorder, read_flushed}
use opentracing_cpp.Json.Pipeline.{read_closed, read_closed-destroy}
use opentracing_cpp.Configuration.{make_mock_tracer, make_json_recorder, tracer_of, make_tracer}
use opentracing_cpp.Configuration.Grammar.{
  Layout, IsBlank, IsPlain, document, parse_configuration-document,
}

-- What is read of the file of a tracer.
abbrev pub read_file : Option JsonRecorder → Option Json
read_file none = none
read_file (some r) = read_flushed r.out

-- A span is called before it is finished, is finished, is called again, and is destroyed.
abbrev pub use_span :
    (ℕ → Bytes)
    → (SpanData → SpanData)
    → List Call
    → List Call
    → ℤ
    → FinishSpanOptions
    → MockSpan
    → Option JsonRecorder
    → Option JsonRecorder
use_span print_double left before after now options span r =
    let recorder = json_recorder print_double left in
    let (span1, r1) = run recorder before (span, r) in
    let (span2, r2) = finish_with_options recorder now options span1 r1 in
    let (span3, r3) = run recorder after (span2, r2) in destroy recorder now now span3 r3

-- The span that a tracer starts with some options.
abbrev pub started :
    {G : Type 0} → Generator G → G → Clocks → Bytes → List StartSpanOption → MockSpan
started gen g now name options =
    (make_span gen g now name (apply_all (map apply options) default_start)).0

read_file-close :
    (print_double : ℕ → Bytes) (left : SpanData → SpanData) (tracer : MockTracer JsonRecorder)
    (r : Option JsonRecorder)
    → read_file (close (json_recorder print_double left) (record tracer { recorder = r })).recorder
      ≡ read_closed print_double r
unfolding close
read_file-close print_double left tracer none = refl
read_file-close print_double left tracer (some r) = refl

-- A document of a configuration names a file, which is opened as an empty file. With memory for all that is
-- asked for, `MakeTracer` makes a tracer of the document and leaves the message, and `StartSpan` of this
-- tracer makes a span, whatever the options are. After some calls on the span that do not finish it, a
-- first call that does, any further calls, its destruction and `Close` of the tracer, the file is read as
-- the JSON array of one tree: that of the span's data as the first call to finish it found them, if their
-- strings are UTF-8 and need no code for a control character, and finite doubles are printed as JSON
-- numbers.
pub read_file-make_tracer :
    {G : Type 0} (print_double : ℕ → Bytes) (left : SpanData → SpanData)
    (open_file : Bytes → Output ⊎ Bytes) (l : Layout) (filename message : Bytes) (gen : Generator G)
    (g : G) (clocks : Clocks) (name : Bytes) (options : List StartSpanOption)
    (before after : List Call) (finish_now : ℤ) (finish_options : FinishSpanOptions)
    → PrintsNumbers print_double
    → IsBlank l
    → All IsPlain filename
    → open_file filename ≡ inl new_output
    → All (IsQuiet (json_recorder print_double left)) before
    → IsCleanSpan (
        finished_data finish_now finish_options
          (run
            (json_recorder print_double left)
            before
            (started gen g clocks name options, some new_recorder)).0)
    → (tracer : MockTracer JsonRecorder) × (span : MockSpan) × (make_tracer open_file
          (some (document l filename))
          message
          []
        ≡ (ok tracer, message))
      × ((start_span tracer gen g clocks name options).0 ≡ some span)
      × (read_file
            (close (json_recorder print_double left) (record tracer {
              recorder =
                  use_span print_double left before after finish_now finish_options span
                    tracer.recorder;
            })).recorder
          ≡ some (
              spans_tree print_double (
                finished_data finish_now finish_options
                  (run (json_recorder print_double left) before (span, tracer.recorder)).0
                ∷ [])))
read_file-make_tracer print_double left open_file l filename message gen g clocks name options
      before after finish_now finish_options prints blank plain opened quiet clean =
    let tracer = tracer_of new_output in
    let span = started gen g clocks name options in
    (
      tracer,
      span,
      unfold make_tracer in rw (parse_configuration-document l filename blank plain, opened) refl,
      unfold start_span start_span_with_options in refl,
      read_file-close print_double left tracer _
          ∙ (unfold tracer_of make_mock_tracer make_json_recorder make_span in
              read_closed-destroy print_double left before after span finish_now finish_options
                finish_now finish_now prints quiet refl clean),
    )
