-- ===== src/Tests/Spans.antt =====
-- A span with tags, baggage and references, started, changed and finished.
use opentracing_cpp.Base.{
  ◌≡◌, ◌≢◌, refl, ap, map, List, [], ◌∷◌, none, some, codes, arith, Bytes, get_or, ℕ, suc,
}
use opentracing_cpp.Base.Int.{pos}
use opentracing_cpp.Dict.{find, assign_all}
use opentracing_cpp.SpanData.{string, uint64, child_of_ref, follows_from_ref, SpanData}
use opentracing_cpp.Context.{mock, noop}
use opentracing_cpp.Recorder.{Recorder, InMemoryRecorder, in_memory}
use opentracing_cpp.Span.{
  StartSpanOptions, FinishSpanOptions, Clocks, Generator, MockSpan, make_span,
  compute_start_timestamps, set_baggage_item, baggage_item, finish_with_options, finished_data,
  destroy,
}
use opentracing_cpp.Span.Calls.{
  Call, sets_tag, sets_baggage_item, finishes_with, run, recorded_data, destroy-run,
}
use opentracing_cpp.Span.Start.{
  mock_contexts, reference_of, make_span-IsOrdered, value_or, baggage_item-set_baggage_item,
}
use opentracing_cpp.Propagation.TextMap.{default_options}
use opentracing_cpp.Tracer.{MockTracer}
use opentracing_cpp.Options
use opentracing_cpp.Options.{StartSpanOption, start_timestamp, child_of, follows_from, start_span}
use opentracing_cpp.Options.Applied.{references_of, tags_of, times_of, start_span_lem}
use opentracing_cpp.Tests.Values.{some_context}

-- A generator that counts.
abbrev counter : Generator ℕ
counter = record { next = λ n. (n, suc n) }

abbrev now : Clocks
now = record { system_now = pos 1000; steady_now = pos 50 }

abbrev start_options : StartSpanOptions
start_options = record {
  start_system_timestamp = pos 0;
  start_steady_timestamp = pos 40;
  references =
      (follows_from_ref, none)
      ∷ (child_of_ref, some noop)
      ∷ (child_of_ref, some (mock some_context))
      ∷ [];
  tags = (codes "z", string (codes "1")) ∷ (codes "a", uint64 2) ∷ [];
}

abbrev mock_tracer : MockTracer InMemoryRecorder
mock_tracer = record {
  recorder = some (record { spans = [] });
  propagation_options = default_options;
}

abbrev span : MockSpan
span = (make_span counter 7 now (codes "work") start_options).0

abbrev recorder : Recorder InMemoryRecorder
recorder = in_memory (λ d. d)

abbrev finish_options : FinishSpanOptions
finish_options = record { finish_steady_timestamp = pos 90; log_records = [] }

key_ne : codes "a" ≢ codes "z"
key_ne e = let first : ◌≡◌ {A = ℕ} 97 122 = ap (λ (key : Bytes). get_or key 0 0) e in omega arith

baggage_item-set_baggage_item_example :
    (baggage_item (codes "a") (set_baggage_item (codes "a") (codes "9") span)
      ≡ value_or (find (codes "a") span.span_context.baggage) (codes "9"))
    × (baggage_item (codes "z") (set_baggage_item (codes "a") (codes "9") span)
        ≡ baggage_item (codes "z") span)
baggage_item-set_baggage_item_example =
    baggage_item-set_baggage_item (codes "a") (codes "z") (codes "9") span
      (make_span-IsOrdered counter 7 now (codes "work") start_options) key_ne

abbrev before : List Call
before = sets_tag (codes "a") (uint64 3) ∷ sets_baggage_item (codes "k") (codes "v") ∷ []

abbrev after : List Call
after = finishes_with (pos 200) finish_options ∷ sets_tag (codes "late") (uint64 1) ∷ []

-- The first call to finish counts, and the second and the destruction do not.
recorded_data_example :
    (let (span1, r1) = run recorder before (span, some (record { spans = [] })) in
      let (span2, r2) = finish_with_options recorder (pos 100) finish_options span1 r1 in
      let (span3, r3) = run recorder after (span2, r2) in
      destroy recorder (pos 300) (pos 301) span3 r3)
    ≡ some
        (recorder.record_span
          (finished_data
            (pos 100)
            finish_options
            (run recorder before (span, some (record { spans = [] }))).0)
          (record { spans = [] })).0
unfolding make_span
recorded_data_example =
    recorded_data recorder before after span (record { spans = [] }) (pos 100) finish_options
      (pos 300) (pos 301) (tt, (tt, tt)) refl

destroy-run_example :
    (data_ : SpanData) × ((let (span', r') =
          run recorder after (span, some (record { spans = [] })) in
        destroy recorder (pos 300) (pos 301) span' r')
      ≡ some (recorder.record_span data_ (record { spans = [] })).0)
unfolding make_span
destroy-run_example =
    destroy-run recorder after span (record { spans = [] }) (pos 300) (pos 301) refl

-- A null pointer, a tag that is set twice, and a start time between them.
abbrev option_list : List StartSpanOption
option_list =
    follows_from none
    ∷ Options.set_tag (codes "a") (uint64 1)
    ∷ start_timestamp (pos 5) (pos 6)
    ∷ child_of (some (mock some_context))
    ∷ Options.set_tag (codes "a") (uint64 2)
    ∷ []

start_span_example :
    (started : MockSpan) × ((start_span mock_tracer counter 7 now (codes "work") option_list).0
      ≡ some started)
    × (started.data_.references ≡ map reference_of (mock_contexts (references_of option_list)))
    × (started.data_.tags ≡ assign_all (tags_of option_list) [])
    × ((started.data_.start_timestamp, started.start_steady)
        ≡ compute_start_timestamps now
            (times_of option_list (pos 0, pos 0)).0
            (times_of option_list (pos 0, pos 0)).1)
start_span_example = start_span_lem mock_tracer counter 7 now (codes "work") option_list
