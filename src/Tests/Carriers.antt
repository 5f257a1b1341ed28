-- ===== src/Tests/Carriers.antt =====
-- Carriers that keep their entries in a list, and the tracer on them.
use opentracing_cpp.Base.{
  ◌≡◌, refl, ap, ◌∙◌, Bool, true, List, [], ◌∷◌, ◌++◌, none, some, codes, arith, Bytes,
}
use opentracing_cpp.Memory.{to_memory}
use opentracing_cpp.Error.{ok, unexpected, returned, same_bytes, lookup_key_not_supported_error}
use opentracing_cpp.Stream.{string_buffer, istringstream}
use opentracing_cpp.Base64
use opentracing_cpp.Base.{ℕ, suc, false}
use opentracing_cpp.Base.Int.{pos}
use opentracing_cpp.Context.{SpanContext, mock, empty_context}
use opentracing_cpp.Span.{MockSpan, Generator, Clocks}
use opentracing_cpp.Options.{child_of, start_span}
use opentracing_cpp.Tracer.Remote.{IsChild, join_trace}
use opentracing_cpp.Propagation.Wire.{wire_format}
use opentracing_cpp.Propagation.TextMap.{
  default_options, TextMapReader, TextMapWriter, lookup_key, iequals, tolower,
}
use opentracing_cpp.Propagation.TextMap.Lookup.{
  visit, first_match, lookup_key-first_match, iequals-map,
}
use opentracing_cpp.Propagation.TextMap.RoundTrip.{Carrier, inject-set, IsShort}
use opentracing_cpp.Recorder.{InMemoryRecorder}
use opentracing_cpp.Tracer.{
  MockTracer, inject_impl, inject_stream, inject_map, extract_stream, extract_headers,
}
use opentracing_cpp.Tracer.RoundTrip.{extract-inject_stream}
use opentracing_cpp.Tests.Values.{big_host, some_context, some_context-Fits}

abbrev Entries : Type 0
Entries = List (Bytes × Bytes)

abbrev list_writer : TextMapWriter Entries
list_writer = record { set = λ key value m. (ok tt, (key, value) ∷ m) }

abbrev list_reader : Entries → TextMapReader
list_reader m = record {
  lookup_key = λ key. unexpected lookup_key_not_supported_error;
  foreach_key = λ f s. visit f m s;
}

module _ (key_compare : Bytes → Bytes → Bool)
    (reflexive : (key : Bytes) → key_compare key key ≡ true) where
  list_stores :
      (key value : Bytes) (m m' : Entries)
      → list_writer.set key value m ≡ (ok tt, m')
      → lookup_key (list_reader m') key key_compare ≡ ok value
  list_stores key value m m' done = rw (← ap (λ r. r.1) done) (
      lookup_key-first_match (list_reader ((key, value) ∷ m)) key key_compare ((key, value) ∷ m)
        refl (λ f s. refl)
      ∙ rw (reflexive key) refl)

  abbrev list_carrier : Carrier Entries key_compare
  list_carrier = record { writer = list_writer; reader = list_reader; stores = list_stores }

iequals_refl : (key : Bytes) → iequals key key ≡ true
iequals_refl key = (iequals-map key key).1 refl

abbrev tracer : MockTracer InMemoryRecorder
tracer = record { recorder = none; propagation_options = default_options }

some_context-IsShort : IsShort big_host some_context
unfolding to_memory
some_context-IsShort = omega arith

extract-inject_stream_example :
    (bytes : Bytes) × (inject_stream big_host tracer string_buffer
        (mock some_context)
        (record { buffer = codes "log"; is_good = true })
      ≡ (ok tt, record { buffer = codes "log" ++ bytes; is_good = true }))
    × (extract_stream big_host tracer [] (istringstream (bytes ++ codes "more"))
        ≡ returned (ok (some (mock some_context))))
extract-inject_stream_example =
    extract-inject_stream big_host tracer [] some_context (codes "log") (codes "more") (refl, refl)
      refl some_context-Fits

-- What the example of injection has made of an empty carrier.
abbrev injected : Entries
injected = (codes "x-ot-span-context", Base64.encode (wire_format big_host some_context)) ∷ []

inject_some_context :
    inject_map big_host tracer list_writer (mock some_context) [] ≡ (ok tt, injected)
unfolding inject_map inject_impl
inject_some_context = inject-set big_host default_options list_writer [] some_context

-- A span of the client, with the context that was injected.
abbrev client_span : MockSpan
client_span = record {
  span_context = some_context;
  start_steady = pos 4;
  is_finished = false;
  data_ = record {
    span_context = empty_context;
    references = [];
    operation_name = codes "call";
    start_timestamp = pos 7;
    duration = pos 0;
    tags = [];
    logs = [];
  };
}

-- A generator that counts.
abbrev counter : Generator ℕ
counter = record { next = λ n. (n, suc n) }

abbrev now : Clocks
now = record { system_now = pos 1000; steady_now = pos 50 }

join_trace_example :
    (parent : SpanContext) × (extract_headers big_host tracer [] (list_reader injected)
      ≡ returned (ok (some parent)))
    × (child : MockSpan) × ((start_span tracer counter 7 now
          (codes "serve")
          (child_of (some parent) ∷ [])).0
        ≡ some child)
    × IsChild some_context 7 child
join_trace_example =
    join_trace big_host tracer tracer (list_carrier iequals iequals_refl) [] injected [] client_span
      counter 7 now (codes "serve") (refl, refl) refl refl some_context-Fits some_context-IsShort
      inject_some_context

abbrev two_entries : Entries
two_entries = (codes "Key", codes "1") ∷ (codes "key", codes "2") ∷ []

lookup_key-first_match_example :
    lookup_key (list_reader two_entries) (codes "key") same_bytes
    ≡ first_match same_bytes (codes "key") two_entries
lookup_key-first_match_example =
    lookup_key-first_match (list_reader two_entries) (codes "key") same_bytes two_entries refl
      (λ f s. refl)

-- The second entry is the first that matches, unless case is ignored.
first_match_key :
    (first_match same_bytes (codes "key") two_entries ≡ ok (codes "2"))
    × (first_match iequals (codes "key") two_entries ≡ ok (codes "1"))
unfolding same_bytes iequals tolower
first_match_key = (refl, refl)
