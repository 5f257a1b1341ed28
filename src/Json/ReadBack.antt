-- ===== src/Json/ReadBack.antt =====
-- The JSON text that mocktracer/src/json.cpp writes for spans is read back as the tree of the spans.
use opentracing_cpp.Base.{
  ℕ, ◌≡◌, refl, codes, ap, ◌∙◌, true, false, List, All, [], ◌∷◌, Bytes, Option, none, some,
  Bool-cases, inl, inr,
}
use opentracing_cpp.SpanData.{
  SpanReferenceType, child_of_ref, follows_from_ref, Value, Values, Dictionary, LogRecord, SpanData,
  SpanContextData, SpanReferenceData,
}
use opentracing_cpp.Json.{is_nan, is_inf, signbit, microseconds, to_json}
use opentracing_cpp.Json.Numbers.{is_number, integer_text-is_number, print_number-is_number}
use opentracing_cpp.Json.Text.{Writer}
use opentracing_cpp.Json.Tree.{Json, Members, member, no_members, object, text}
use opentracing_cpp.Json.Parser.{parse_json}
use opentracing_cpp.Json.Weight.{IsValid, AreValid, HaveValid}
use opentracing_cpp.Json.Parsed.{parse_json-show}
use opentracing_cpp.Json.Utf8.{is_utf8, is_utf8_in}
use opentracing_cpp.Json.Ids.{is_utf8-pad_left}
use opentracing_cpp.Json.SpanTree.{
  IsClean, IsCleanPair, IsCleanLog, IsCleanValue, AreCleanValues, AreCleanEntries, id_text,
  reference_name, items_of, members_of, context_tree, reference_tree, double_tree, value_tree,
  value_trees, entry_trees, field_tree, log_tree, span_tree, spans_tree, IsCleanSpan,
}
use opentracing_cpp.Recorder.{record_all}
use opentracing_cpp.Json.Recorder.{
  Output, JsonRecorder, json_recorder, json_close, json_close-record_all,
}
use opentracing_cpp.Json.Written.{Emits-to_json}

reference_name-is_utf8 : (t : SpanReferenceType) → is_utf8 (reference_name t) ≡ true
unfolding is_utf8 is_utf8_in
reference_name-is_utf8 child_of_ref = refl
reference_name-is_utf8 follows_from_ref = refl

items_of-AreValid :
    {A : Type 0} (tree : A → Json) (P : A → Type 0)
    → ((x : A) → P x → IsValid (tree x))
    → (xs : List A) → All P xs
    → AreValid (items_of tree xs)
unfolding items_of IsValid
items_of-AreValid tree P each [] h = tt
items_of-AreValid tree P each (x ∷ xs) (hx, hs) = (each x hx, items_of-AreValid tree P each xs hs)

members_of-HaveValid :
    {A : Type 0} (tree : A → Json) (P : A → Type 0)
    → ((x : A) → P x → IsValid (tree x))
    → (xs : List (Bytes × A)) → All (IsCleanPair P) xs
    → HaveValid (members_of tree xs)
unfolding members_of IsValid
members_of-HaveValid tree P each [] h = tt
members_of-HaveValid tree P each ((k, x) ∷ xs) ((hk, hx), hs) =
    (hk.1, (each x hx, members_of-HaveValid tree P each xs hs))

text-IsValid : (s : Bytes) → IsClean s → IsValid (text s)
unfolding IsValid
text-IsValid s h = h.1

-- The ids of a context or a reference, with what follows them.
ids-HaveValid :
    (trace_id span_id : ℕ) (members : Members)
    → HaveValid members
    → HaveValid (
        member
          (codes "trace_id")
          (text (id_text trace_id))
          (member (codes "span_id") (text (id_text span_id)) members))
unfolding IsValid is_utf8 is_utf8_in
ids-HaveValid trace_id span_id _ h =
    (refl, (is_utf8-pad_left 16 trace_id, (refl, (is_utf8-pad_left 16 span_id, h))))

context_tree-IsValid :
    (c : SpanContextData) → All (IsCleanPair IsClean) c.baggage → IsValid (context_tree c)
unfolding IsValid is_utf8 is_utf8_in
context_tree-IsValid c clean =
    ids-HaveValid c.trace_id c.span_id
      (member (codes "baggage") (object (members_of text c.baggage)) no_members)
      (refl, (members_of-HaveValid text IsClean text-IsValid c.baggage clean, tt))

reference_tree-IsValid : (r : SpanReferenceData) → Unit {0} → IsValid (reference_tree r)
unfolding IsValid is_utf8 is_utf8_in
reference_tree-IsValid r _ = (
  refl,
  (reference_name-is_utf8 r.reference_type, ids-HaveValid r.trace_id r.span_id no_members tt),
)

All-Unit : {A : Type 0} (xs : List A) → All (λ _. Unit {0}) xs
All-Unit [] = tt
All-Unit (x ∷ xs) = (tt, All-Unit xs)

-- A finite double is printed as a number.
unfoldable pub PrintsNumbers : (ℕ → Bytes) → Type 0
PrintsNumbers print_double =
    (d : ℕ) → is_nan d ≡ false → is_inf d ≡ false → is_number (print_double d) ≡ true

module _ (print_double : ℕ → Bytes) (prints : PrintsNumbers print_double) where
  double_tree-IsValid : (d : ℕ) → IsValid (double_tree print_double d)
  unfolding IsValid PrintsNumbers is_utf8 is_utf8_in
  double_tree-IsValid d = elim (Bool-cases (is_nan d)) [
    | inl nan ↦ rw nan refl
    | inr not_nan ↦ rw not_nan (elim (Bool-cases (is_inf d)) [
      | inl inf ↦ rw inf (elim (Bool-cases (signbit d)) [ inl s ↦ rw s refl | inr s ↦ rw s refl ])
      | inr finite ↦ rw finite (prints d not_nan finite)
    ])
  ]

  mutual
    unfolding IsValid value_tree IsCleanValue

    value_tree-IsValid : (v : Value) → IsCleanValue v → IsValid (value_tree print_double v)
    value_tree-IsValid (Value.boolean b) h = tt
    value_tree-IsValid (Value.double d) h = double_tree-IsValid d
    value_tree-IsValid (Value.int64 n) h = integer_text-is_number n
    value_tree-IsValid (Value.uint64 n) h = print_number-is_number n
    value_tree-IsValid (Value.string s) h = h.1
    value_tree-IsValid (Value.string_view s) h = h.1
    value_tree-IsValid Value.null h = tt
    value_tree-IsValid (Value.c_string s) h = h.1
    value_tree-IsValid (Value.values vs) h = value_trees-AreValid vs h
    value_tree-IsValid (Value.dictionary d) h = entry_trees-HaveValid d h

    value_trees-AreValid :
        (vs : Values) → AreCleanValues vs → AreValid (value_trees print_double vs)
    value_trees-AreValid Values.nil h = tt
    value_trees-AreValid (Values.cons v vs) (hv, hs) =
        (value_tree-IsValid v hv, value_trees-AreValid vs hs)

    entry_trees-HaveValid :
        (d : Dictionary) → AreCleanEntries d → HaveValid (entry_trees print_double d)
    entry_trees-HaveValid Dictionary.end h = tt
    entry_trees-HaveValid (Dictionary.entry k v d) (hk, (hv, hs)) =
        (hk.1, (value_tree-IsValid v hv, entry_trees-HaveValid d hs))

  field_tree-IsValid :
      (f : Bytes × Value) → IsCleanPair IsCleanValue f → IsValid (field_tree print_double f)
  unfolding IsValid is_utf8 is_utf8_in
  field_tree-IsValid (key, value) (hk, hv) =
      (refl, (hk.1, (refl, (value_tree-IsValid value hv, tt))))

  log_tree-IsValid : (r : LogRecord) → IsCleanLog r → IsValid (log_tree print_double r)
  unfolding IsValid is_utf8 is_utf8_in
  log_tree-IsValid r clean =
      let fields =
        items_of-AreValid (field_tree print_double) (IsCleanPair IsCleanValue) field_tree-IsValid
          r.fields clean in
      (refl, (integer_text-is_number (microseconds r.timestamp), (refl, (fields, tt))))

  span_tree-IsValid : (s : SpanData) → IsCleanSpan s → IsValid (span_tree print_double s)
  unfolding IsValid is_utf8 is_utf8_in
  span_tree-IsValid s clean =
      let references =
        items_of-AreValid reference_tree (λ _. Unit {0}) reference_tree-IsValid s.references
          (All-Unit s.references) in
      let tags =
        members_of-HaveValid (value_tree print_double) IsCleanValue value_tree-IsValid s.tags
          clean.tags in
      let logs =
        items_of-AreValid (log_tree print_double) IsCleanLog log_tree-IsValid s.logs clean.logs in
      let begun = integer_text-is_number (microseconds s.start_timestamp) in
      let took = integer_text-is_number (microseconds s.duration) in
      (
        refl,
        (
          context_tree-IsValid s.span_context clean.baggage,
          (
            refl,
            (
              references,
              (
                refl,
                (
                  clean.operation_name.1,
                  (refl, (begun, (refl, (took, (refl, (tags, (refl, (logs, tt)))))))),
                ),
              ),
            ),
          ),
        ),
      )

pub spans_tree-IsValid :
    (print_double : ℕ → Bytes) (spans : List SpanData)
    → PrintsNumbers print_double
    → All IsCleanSpan spans
    → IsValid (spans_tree print_double spans)
unfolding IsValid
spans_tree-IsValid print_double spans prints clean =
    items_of-AreValid (span_tree print_double) IsCleanSpan (span_tree-IsValid print_double prints)
      spans clean

-- Let all keys and strings of the spans be UTF-8 without a control character that is written as a code,
-- and let the finite doubles be printed as JSON numbers. Then what `ToJson` writes for the spans on a stream in base
-- 10 is a JSON text, which is read as the array of the trees of the spans in their order: with the ids, the
-- baggage, the references, the name, the times in microseconds, the tags with nested values, and the logs.
pub parse_json-to_json :
    (print_double : ℕ → Bytes) (spans : List SpanData)
    → PrintsNumbers print_double
    → All IsCleanSpan spans
    → parse_json ((to_json print_double spans (record { text = []; is_hex = false })).text)
      ≡ some (spans_tree print_double spans)
parse_json-to_json print_double spans prints clean =
    ap (λ (w : Writer). parse_json w.text) ((Emits-to_json print_double spans clean).adds [])
    ∙ parse_json-show (spans_tree print_double spans)
        (spans_tree-IsValid print_double spans prints clean)

abbrev pub new_output : Output
new_output = record { writer = record { text = []; is_hex = false }; flushed = [] }

abbrev pub new_recorder : JsonRecorder
new_recorder = record { out = some new_output; spans = [] }

-- What is read of the text that a stream has flushed.
abbrev pub read_flushed : Option Output → Option Json
read_flushed none = none
read_flushed (some o) = parse_json o.flushed

-- A recorder on a new stream in base 10 records spans and is closed, where all keys and strings of the
-- spans are UTF-8 without a control character that is written as a code, and finite doubles are printed as
-- JSON numbers.
-- Then the text that is flushed is read as one JSON array with the trees of the spans, in the order in
-- which they were recorded.
pub parse_json-json_close :
    (print_double : ℕ → Bytes) (left : SpanData → SpanData) (spans : List SpanData)
    → PrintsNumbers print_double
    → All IsCleanSpan spans
    → read_flushed
        (json_close print_double
          (record_all (json_recorder print_double left) spans new_recorder)).out
      ≡ some (spans_tree print_double spans)
parse_json-json_close print_double left spans prints clean =
    rw (json_close-record_all print_double left spans new_output)
      (parse_json-to_json print_double spans prints clean)
