-- ===== src/Json/Closing.antt =====
-- A recorder of mocktracer/src/json_recorder.cpp that is closed more than once.
use opentracing_cpp.Base.{
  ℕ, zero, suc, ◌+◌, true, ◌≤◌, ◌*◌, ◌≡◌, refl, ap, ◌∙◌, List, All, [], ◌∷◌, ◌++◌, Bytes, Option,
  none, some, length, length-append, arith,
}
use opentracing_cpp.SpanData.{SpanData}
use opentracing_cpp.Json.{to_json}
use opentracing_cpp.Json.Text.{Writer}
use opentracing_cpp.Json.Tree.{Items, array, show}
use opentracing_cpp.Json.Parser.{parse_json, parse_value, parse_kind, whole}
use opentracing_cpp.Json.Weight.{IsValid, weight, weight_items-le, weight-show}
use opentracing_cpp.Json.Parsed.{parse_items-show, parse_json-show}
use opentracing_cpp.Json.SpanTree.{items_of, spans_tree, span_tree, IsCleanSpan}
use opentracing_cpp.Recorder.{record_all}
use opentracing_cpp.Json.Recorder.{
  Output, JsonRecorder, json_recorder, json_close, json_close-record_all,
}
use opentracing_cpp.Json.Written.{Emits-to_json}
use opentracing_cpp.Json.ReadBack.{PrintsNumbers, new_output, new_recorder, spans_tree-IsValid}

-- A text with an array behind another is not read.
parse_json-two :
    (vs : Items) (rest : Bytes)
    → IsValid (array vs)
    → parse_json (show (array vs) ++ b'[' ∷ rest) ≡ none
unfolding parse_json parse_value parse_kind show IsValid weight
parse_json-two vs rest h = ap whole (
    parsed (3 * length (show (array vs) ++ b'[' ∷ rest))
      (omega (arith, weight-show (array vs) h, length-append (show (array vs)) (b'[' ∷ rest))))
  where
    parsed :
        (f : ℕ)
        → 1 + weight (array vs) ≤ f
        → parse_value f (show (array vs) ++ b'[' ∷ rest) ≡ some (array vs, b'[' ∷ rest)
    parsed zero enough = absurd (omega arith)
    parsed (suc zero) enough = absurd (omega (arith, weight_items-le vs))
    parsed (suc (suc f)) enough = rw (parse_items-show vs true (b'[' ∷ rest) f h (omega arith)) refl

parse_json-array :
    (print_double : ℕ → Bytes) (spans more : List SpanData)
    → PrintsNumbers print_double
    → All IsCleanSpan spans
    → parse_json (show (spans_tree print_double spans) ++ show (spans_tree print_double more))
      ≡ none
unfolding show
parse_json-array print_double spans more prints clean =
    parse_json-two (items_of (span_tree print_double) spans) _
      (spans_tree-IsValid print_double spans prints clean)

-- The text that a stream has flushed.
abbrev pub flushed_text : Option Output → Bytes
flushed_text none = []
flushed_text (some o) = o.flushed

module _ (print_double : ℕ → Bytes) (left : SpanData → SpanData) (spans more : List SpanData) where
  -- A recorder that records spans and is closed, and does so once more.
  abbrev pub closed_twice : Option Output
  closed_twice =
      (json_close print_double (
        record_all (json_recorder print_double left) more (
          json_close print_double
            (record_all (json_recorder print_double left) spans new_recorder)))).out

  flushed_text-closed_twice :
      All IsCleanSpan spans
      → All IsCleanSpan more
      → flushed_text closed_twice
        ≡ show (spans_tree print_double spans) ++ show (spans_tree print_double more)
  flushed_text-closed_twice clean clean_more =
      let first = Emits-to_json print_double spans clean in
      let second = Emits-to_json print_double more clean_more in
      let tree = spans_tree print_double spans in
      ap
        (λ (r : JsonRecorder).
          flushed_text
            (json_close print_double (record_all (json_recorder print_double left) more r)).out)
        (json_close-record_all print_double left spans new_output)
      ∙ ap (λ (r : JsonRecorder). flushed_text r.out)
          (json_close-record_all print_double left more _)
      ∙ ap (λ (w : Writer). (to_json print_double more w).text) (first.adds [])
      ∙ ap (λ (w : Writer). w.text) (second.adds (show tree))

-- A recorder on a new stream in base 10 records some spans and is closed, and then records some spans or
-- none and is closed once more, where all keys and strings of the spans are UTF-8 without a control
-- character that is written as a code, and finite doubles are printed as JSON numbers. Then the text that
-- is flushed is two JSON texts, one behind the other: the first is read as the array of the trees of the
-- first spans, and the second as that of the later ones. The whole is not read as a JSON text.
pub flushed_text-two_closes :
    (print_double : ℕ → Bytes) (left : SpanData → SpanData) (spans more : List SpanData)
    → PrintsNumbers print_double
    → All IsCleanSpan spans
    → All IsCleanSpan more
    → (first : Bytes) × (second : Bytes) × (flushed_text
          (json_close print_double (
            record_all (json_recorder print_double left) more (
              json_close print_double
                (record_all (json_recorder print_double left) spans new_recorder)))).out
        ≡ first ++ second)
      × (parse_json first ≡ some (spans_tree print_double spans))
      × (parse_json second ≡ some (spans_tree print_double more))
      × (parse_json (first ++ second) ≡ none)
flushed_text-two_closes print_double left spans more prints clean clean_more = (
  show (spans_tree print_double spans),
  show (spans_tree print_double more),
  flushed_text-closed_twice print_double left spans more clean clean_more,
  parse_json-show _ (spans_tree-IsValid print_double spans prints clean),
  parse_json-show _ (spans_tree-IsValid print_double more prints clean_more),
  parse_json-array print_double spans more prints clean,
)
