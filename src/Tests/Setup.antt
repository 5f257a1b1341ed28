-- ===== src/Tests/Setup.antt =====
-- The configuration, the loading of a library, the recorders' text, error codes and the two tracers
-- that are always there.
use opentracing_cpp.Base.{
  ℕ, ◌≡◌, refl, ap, Bool, true, false, ◌||◌, List, [], ◌∷◌, ◌++◌, Option, none, some, ◌⊎◌, inl, inr,
  ◌↔◌, codes, arith, Bytes, All, length, if◌then◌else◌,
}
use opentracing_cpp.Error.{ErrorCode, ok, system_category}
use opentracing_cpp.SpanData.{SpanData, uint64}
use opentracing_cpp.Json.Text.{print_number}
use opentracing_cpp.Json.{write_escaped_string, write_uint64}
use opentracing_cpp.Json.Escape.{write_uint64-write_escaped_string}
use opentracing_cpp.Configuration.{parsed, parse_configuration, tracer_of, make_tracer}
use opentracing_cpp.Json.Recorder.{Output}
use opentracing_cpp.Json.ReadBack.{new_output}
use opentracing_cpp.Configuration.Grammar.{
  Layout, IsBlank, IsPlain, document, parse_configuration-document,
}
use opentracing_cpp.Configuration.Factory.{IsMadeFrom, make_tracer-IsMadeFrom}
use opentracing_cpp.Configuration.Acceptance.{document-parse_configuration}
use opentracing_cpp.Span.{StartSpanOptions}
use opentracing_cpp.Noop.{Call, set_tag, set_baggage_item}
use opentracing_cpp.Tests.Values.{some_context}

abbrev pub layout : Layout
layout = record { s1 = []; s2 = codes " "; s3 = []; s4 = codes "  "; s5 = []; s6 = 10 ∷ [] }

-- { "output_file":  "a.json"} and a line feed.
parse_configuration-document_example :
    parse_configuration (document layout (codes "a.json"))
    ≡ parsed
        (codes "a.json")
        (record { position = length (document layout (codes "a.json")); rest = [] })
parse_configuration-document_example =
    parse_configuration-document layout (codes "a.json")
      (tt, (refl, tt), tt, (refl, (refl, tt)), tt, (refl, tt))
      (refl, (refl, (refl, (refl, (refl, (refl, tt))))))

document-parse_configuration_example :
    (l : Layout) × IsBlank l
    × All IsPlain (codes "a.json")
    × (document layout (codes "a.json") ≡ document l (codes "a.json"))
document-parse_configuration_example =
    document-parse_configuration (document layout (codes "a.json")) (codes "a.json")
      (record { position = length (document layout (codes "a.json")); rest = [] })
      (parse_configuration-document layout (codes "a.json")
        (tt, (refl, tt), tt, (refl, (refl, tt)), tt, (refl, tt))
        (refl, (refl, (refl, (refl, (refl, (refl, tt)))))))

-- Every file is opened.
abbrev open_any : Bytes → Output ⊎ Bytes
open_any filename = inl new_output

made_example :
    (make_tracer open_any (some (document layout (codes "a.json"))) [] []).0
    ≡ ok (tracer_of new_output)
unfolding make_tracer
made_example =
    rw
      (parse_configuration-document layout (codes "a.json")
        (tt, (refl, tt), tt, (refl, (refl, tt)), tt, (refl, tt))
        (refl, (refl, (refl, (refl, (refl, (refl, tt)))))))
      refl

make_tracer-IsMadeFrom_example :
    IsMadeFrom open_any (document layout (codes "a.json")) (tracer_of new_output)
make_tracer-IsMadeFrom_example =
    make_tracer-IsMadeFrom open_any (document layout (codes "a.json")) [] [] (tracer_of new_output)
      made_example

-- Behind a string with an escape character, 255 is printed as "ff".
write_uint64-write_escaped_string_example :
    (write_uint64 255 (write_escaped_string (27 ∷ []) (record { text = []; is_hex = false }))).text
    ≡ (write_escaped_string (27 ∷ []) (record { text = []; is_hex = false })).text
      ++ print_number 16 255
write_uint64-write_escaped_string_example =
    write_uint64-write_escaped_string (27 ∷ []) 255 (record { text = []; is_hex = false })

abbrev span_data : SpanData
span_data = record {
  span_context = some_context;
  references = [];
  operation_name = codes "work";
  start_timestamp = opentracing_cpp.Base.Int.pos 1;
  duration = opentracing_cpp.Base.Int.pos 2;
  tags = [];
  logs = [];
}

abbrev other_copy : ErrorCode
other_copy = record { value = 2; category = record { name = system_category.name; copy = 9 } }

abbrev no_options : StartSpanOptions
no_options = record {
  start_system_timestamp = opentracing_cpp.Base.Int.pos 0;
  start_steady_timestamp = opentracing_cpp.Base.Int.pos 0;
  references = [];
  tags = [];
}

abbrev noop_calls : List Call
noop_calls = set_tag (codes "a") (uint64 1) ∷ set_baggage_item (codes "k") (codes "v") ∷ []
