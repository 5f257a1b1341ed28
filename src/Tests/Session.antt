-- ===== src/Tests/Session.antt =====
-- A tracer from its configuration to the file that it leaves, and a recorder that is closed twice.
use opentracing_cpp.Base.{
  ℕ, suc, ◌≡◌, refl, ◌⊎◌, inl, List, [], ◌∷◌, ◌++◌, Bytes, codes, some, none,
}
use opentracing_cpp.Base.Int.{pos}
use opentracing_cpp.SpanData.{string, uint64, null}
use opentracing_cpp.Error.{ok}
use opentracing_cpp.Context.{copy_data}
use opentracing_cpp.Dict.{assign}
use opentracing_cpp.Recorder.{Recorder}
use opentracing_cpp.Span.{
  MockSpan, FinishSpanOptions, Clocks, Generator, finished_data, set_tag, log, make_span, set_tags,
  apply_all, set_span_references,
}
use opentracing_cpp.Span.Calls.{Call, sets_tag, logs, finishes_with, run, step}
use opentracing_cpp.Tracer.{MockTracer, close}
use opentracing_cpp.Options.{StartSpanOption, start_span}
use opentracing_cpp.Json.SpanTree.{spans_tree, IsCleanValue}
use opentracing_cpp.Json.Recorder.{Output, JsonRecorder, json_recorder, json_close}
use opentracing_cpp.Recorder.{record_all}
use opentracing_cpp.Json.ReadBack.{new_output, new_recorder}
use opentracing_cpp.Json.Closing.{flushed_text, flushed_text-two_closes}
use opentracing_cpp.Json.Parser.{parse_json}
use opentracing_cpp.Json.Utf8.{is_utf8, is_utf8_in}
use opentracing_cpp.Configuration.{make_tracer}
use opentracing_cpp.Configuration.Grammar.{document}
use opentracing_cpp.Session.{use_span, read_file, read_file-make_tracer}
use opentracing_cpp.Tests.Texts.{
  one_half, one_half-PrintsNumbers, written_span, written_span-IsCleanSpan,
}
use opentracing_cpp.Tests.Setup.{layout}

abbrev before : List Call
before = sets_tag (codes "a") (string (codes "\t")) ∷ logs (pos 7) ((codes "event", null) ∷ []) ∷ []

abbrev finish_options : FinishSpanOptions
finish_options = record { finish_steady_timestamp = pos 100; log_records = [] }

abbrev after : List Call
after = finishes_with (pos 200) finish_options ∷ sets_tag (codes "late") (uint64 1) ∷ []

abbrev counter : Generator ℕ
counter = record { next = λ n. (n, suc n) }

abbrev clocks : Clocks
clocks = record { system_now = pos 1000; steady_now = pos 50 }

abbrev open_any : Bytes → Output ⊎ Bytes
open_any filename = inl new_output

abbrev options : List StartSpanOption
options = []

abbrev recorder : Recorder JsonRecorder
recorder = json_recorder one_half (λ d. d)

read_file-make_tracer_example :
    (tracer : MockTracer JsonRecorder) × (span : MockSpan) × (make_tracer open_any
        (some (document layout (codes "a.json")))
        (codes "old")
        []
      ≡ (ok tracer, codes "old"))
    × ((start_span tracer counter 7 clocks (codes "work") options).0 ≡ some span)
    × (read_file
          (close recorder (record tracer {
            recorder =
                use_span one_half
                  (λ d. d)
                  before
                  after
                  (pos 100)
                  finish_options
                  span
                  tracer.recorder;
          })).recorder
        ≡ some (
            spans_tree one_half (
              finished_data (pos 100) finish_options (run recorder before (span, tracer.recorder)).0
              ∷ [])))
unfolding finished_data run step set_tag log assign copy_data IsCleanValue make_span set_tags
    apply_all set_span_references is_utf8 is_utf8_in
read_file-make_tracer_example =
    read_file-make_tracer one_half (λ d. d) open_any layout (codes "a.json") (codes "old") counter 7
      clocks (codes "work") options before after (pos 100) finish_options one_half-PrintsNumbers
      (tt, (refl, tt), tt, (refl, (refl, tt)), tt, (refl, tt))
      (refl, (refl, (refl, (refl, (refl, (refl, tt)))))) refl (tt, (tt, tt))
      (record {
        baggage = tt;
        operation_name = (refl, refl);
        tags = (((refl, refl), (refl, refl)), tt);
        logs = ((((refl, refl), tt), tt), tt);
      })

flushed_text-two_closes_example :
    (first : Bytes) × (second : Bytes) × (flushed_text
        (json_close one_half (
          record_all recorder []
            (json_close one_half (record_all recorder (written_span ∷ []) new_recorder)))).out
      ≡ first ++ second)
    × (parse_json first ≡ some (spans_tree one_half (written_span ∷ [])))
    × (parse_json second ≡ some (spans_tree one_half []))
    × (parse_json (first ++ second) ≡ none)
flushed_text-two_closes_example =
    flushed_text-two_closes one_half (λ d. d) (written_span ∷ []) [] one_half-PrintsNumbers
      (written_span-IsCleanSpan, tt) tt
