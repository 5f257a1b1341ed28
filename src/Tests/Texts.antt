-- ===== src/Tests/Texts.antt =====
-- Spans that are written as JSON and read back.
use opentracing_cpp.Base.{◌++◌}
use opentracing_cpp.Base.{ℕ, ◌≡◌, refl, false, [], ◌∷◌, Bytes, codes, some}
use opentracing_cpp.Base.Int.{pos, negsuc}
use opentracing_cpp.SpanData.{
  SpanData, string, uint64, int64, double, values, nil, cons, dictionary, end, entry,
  follows_from_ref,
}
use opentracing_cpp.Json.Utf8.{is_utf8, is_utf8_in}
use opentracing_cpp.Json.{to_json}
use opentracing_cpp.Json.Parser.{parse_json}
use opentracing_cpp.Json.SpanTree.{spans_tree, IsCleanSpan, IsCleanValue}
use opentracing_cpp.Json.ReadBack.{PrintsNumbers, parse_json-to_json}
use opentracing_cpp.Json.Numbers.{run as run_number, advance}
use opentracing_cpp.Base.{false}
use opentracing_cpp.Tests.Values.{some_context}

abbrev pub one_half : ℕ → Bytes
one_half d = codes "0.5"

pub one_half-PrintsNumbers : PrintsNumbers one_half
unfolding PrintsNumbers run_number advance
one_half-PrintsNumbers d not_nan finite = refl

-- Tags of every shape.
abbrev pub written_span : SpanData
written_span = record {
  span_context = some_context;
  references = record { reference_type = follows_from_ref; trace_id = 1; span_id = 2 } ∷ [];
  operation_name = codes "say \"hi\" " ++ 0xc3 ∷ 0xa9 ∷ [];
  start_timestamp = negsuc 4999;
  duration = pos 1500000;
  tags =
      (codes "a", values (cons (uint64 2) (cons (double 7) nil)))
      ∷ (codes "d", dictionary (entry (codes "k") (int64 (negsuc 3)) end))
      ∷ [];
  logs = record { timestamp = pos 2000; fields = (codes "event", string (codes "x\ny")) ∷ [] } ∷ [];
}

pub written_span-IsCleanSpan : IsCleanSpan written_span
unfolding IsCleanValue is_utf8 is_utf8_in
written_span-IsCleanSpan = record {
  baggage = (((refl, refl), (refl, refl)), (((refl, refl), (refl, refl)), tt));
  operation_name = (refl, refl);
  tags = (((refl, refl), (tt, (tt, tt))), (((refl, refl), ((refl, refl), (tt, tt))), tt));
  logs = ((((refl, refl), (refl, refl)), tt), tt);
}

parse_json-to_json_example :
    parse_json (
      (to_json one_half
        (written_span ∷ written_span ∷ [])
        (record { text = []; is_hex = false })).text)
    ≡ some (spans_tree one_half (written_span ∷ written_span ∷ []))
parse_json-to_json_example =
    parse_json-to_json one_half (written_span ∷ written_span ∷ []) one_half-PrintsNumbers
      (written_span-IsCleanSpan, (written_span-IsCleanSpan, tt))
