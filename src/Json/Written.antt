-- ===== src/Json/Written.antt =====
-- The text that mocktracer/src/json.cpp writes for spans is the text of their tree, and is read back as
-- that tree.
use opentracing_cpp.Base.{
  ℕ, ◌+◌, ◌≡◌, true, false, List, All, [], ◌∷◌, arith, Bytes, codes, length, ltb,
}
use opentracing_cpp.SpanData.{
  SpanReferenceType, child_of_ref, follows_from_ref, Value, Values, Dictionary, SpanContextData,
  SpanReferenceData, LogRecord, SpanData,
}
use opentracing_cpp.Json.Text.{emit, ◌▷◌}
use opentracing_cpp.Json.{
  reference_type_name, is_nan, is_inf, signbit, count_values, count_entries, write_escaped_string,
  write_context, write_reference, write_double, write_value, write_values, write_dictionary,
  write_field, write_log, write_span, to_json,
}
use opentracing_cpp.Json.Tree.{show, show_text, show_items, show_members, text}
use opentracing_cpp.Json.SpanTree.{
  reference_name, context_tree, reference_tree, double_tree, value_tree, value_trees, entry_trees,
  field_tree, log_tree, span_tree, spans_tree, IsClean, IsCleanValue, AreCleanValues,
  AreCleanEntries, IsCleanPair, IsCleanLog, IsCleanSpan,
}
use opentracing_cpp.Json.Emits.{
  Emits, Emits-emit, ◌▸◌, Emits-if, Emits-close, Emits-close_then, Emits-string, Emits-write_items,
  Emits-entry, Emits-write_members, Emits-write_id, Emits-write_uint64, Emits-write_int64,
  Emits-write_duration,
}

Emits-write_context :
    (c : SpanContextData)
    → All (IsCleanPair IsClean) c.baggage
    → Emits (write_context c) (show (context_tree c))
unfolding write_context show show_text
Emits-write_context c h =
    let baggage =
      Emits-write_members IsClean write_escaped_string text Emits-string c.baggage
        (length c.baggage) 0 h (omega arith) in
    let all =
      Emits-emit (codes "{\"trace_id\":")
      ▸ Emits-write_id c.trace_id
      ▸ Emits-emit (codes ",\"span_id\":")
      ▸ Emits-write_id c.span_id
      ▸ Emits-emit (codes ",\"baggage\":{")
      ▸ Emits-close _ (codes "}") (codes "}") baggage in
    record { adds = all.adds }

Emits-reference_name :
    (t : SpanReferenceType) → Emits (emit (reference_type_name t)) (show (text (reference_name t)))
unfolding show show_text
Emits-reference_name child_of_ref = Emits-emit _
Emits-reference_name follows_from_ref = Emits-emit _

Emits-write_reference :
    (r : SpanReferenceData) → Emits (write_reference r) (show (reference_tree r))
unfolding write_reference show show_text
Emits-write_reference r =
    let all =
      Emits-emit (codes "{\"reference_type\":")
      ▸ Emits-reference_name r.reference_type
      ▸ Emits-emit (codes ",\"trace_id\":")
      ▸ Emits-write_id r.trace_id
      ▸ Emits-emit (codes ",\"span_id\":")
      ▸ Emits-write_id r.span_id
      ▸ Emits-emit (codes "}") in
    record { adds = all.adds }

All-unit : {A : Type 0} (xs : List A) → All (λ _. Unit {0}) xs
All-unit [] = tt
All-unit (x ∷ xs) = (tt, All-unit xs)

module _ (print_double : ℕ → Bytes) where
  Emits-write_double :
      (d : ℕ) → Emits (write_double print_double d) (show (double_tree print_double d))
  unfolding write_double show show_text
  Emits-write_double d = Emits-if (is_nan d) _ _ (Emits-emit _) (
      Emits-if (is_inf d) _ _ (Emits-if (signbit d) _ _ (Emits-emit _) (Emits-emit _))
        (Emits-emit _))

  mutual
    unfolding write_value value_tree IsCleanValue count_values count_entries show

    Emits-write_value :
        (v : Value)
        → IsCleanValue v
        → Emits (write_value print_double v) (show (value_tree print_double v))
    Emits-write_value (Value.boolean b) h = record { adds = λ t. (Emits-emit _).adds t }
    Emits-write_value (Value.double d) h = record { adds = (Emits-write_double d).adds }
    Emits-write_value (Value.int64 n) h = record { adds = (Emits-write_int64 n).adds }
    Emits-write_value (Value.uint64 n) h = record { adds = (Emits-write_uint64 n).adds }
    Emits-write_value (Value.string s) h = record { adds = (Emits-string s h).adds }
    Emits-write_value (Value.string_view s) h = record { adds = (Emits-string s h).adds }
    Emits-write_value Value.null h = record { adds = (Emits-emit (codes "null")).adds }
    Emits-write_value (Value.c_string s) h = record { adds = (Emits-string s h).adds }
    Emits-write_value (Value.values vs) h = record {
      adds =
          let all =
            ◌▸◌ (Emits-emit (codes "["))
              (Emits-write_values vs (count_values vs) 0 h (omega arith)) in
          all.adds;
    }
    Emits-write_value (Value.dictionary d) h = record {
      adds =
          let all =
            ◌▸◌ (Emits-emit (codes "{"))
              (Emits-write_dictionary d (count_entries d) 0 h (omega arith)) in
          all.adds;
    }

    Emits-write_values :
        (vs : Values) (num index : ℕ)
        → AreCleanValues vs
        → num ≡ index + count_values vs
        → Emits
            (write_values print_double vs num index ▷ emit (codes "]"))
            (show_items true (value_trees print_double vs))
    Emits-write_values Values.nil num index h n = record { adds = (Emits-emit (codes "]")).adds }
    Emits-write_values (Values.cons v Values.nil) num index (hv, hs) n =
        let last : ltb (index + 1) num ≡ false = ground arith in
        record {
          adds = λ t. rw last ((◌▸◌ (Emits-write_value v hv) (Emits-emit (codes "]"))).adds t);
        }
    Emits-write_values (Values.cons v (Values.cons u vs)) num index (hv, hs) n =
        let more : ltb (index + 1) num ≡ true = ground arith in
        let rest = Emits-write_values (Values.cons u vs) num (index + 1) hs (omega arith) in
        let all = ◌▸◌ (Emits-write_value v hv) (◌▸◌ (Emits-emit (codes ",")) rest) in
        record { adds = λ t. rw more (all.adds t) }

    Emits-write_dictionary :
        (d : Dictionary) (num index : ℕ)
        → AreCleanEntries d
        → num ≡ index + count_entries d
        → Emits
            (write_dictionary print_double d num index ▷ emit (codes "}"))
            (show_members true (entry_trees print_double d))
    Emits-write_dictionary Dictionary.end num index h n = record {
      adds = (Emits-emit (codes "}")).adds;
    }
    Emits-write_dictionary (Dictionary.entry k v Dictionary.end) num index (hk, (hv, hs)) n =
        let last : ltb (index + 1) num ≡ false = ground arith in
        let all = Emits-entry k hk (Emits-write_value v hv) (Emits-emit (codes "}")) in
        record { adds = λ t. rw last (all.adds t) }
    Emits-write_dictionary (Dictionary.entry k v (Dictionary.entry l u d)) num index (hk, (hv, hs))
          n =
        let more : ltb (index + 1) num ≡ true = ground arith in
        let rest =
          Emits-write_dictionary (Dictionary.entry l u d) num (index + 1) hs (omega arith) in
        let all = Emits-entry k hk (Emits-write_value v hv) (◌▸◌ (Emits-emit (codes ",")) rest) in
        record { adds = λ t. rw more (all.adds t) }

  Emits-write_field :
      (f : Bytes × Value)
      → IsCleanPair IsCleanValue f
      → Emits (write_field print_double f) (show (field_tree print_double f))
  unfolding write_field show show_text
  Emits-write_field (key, value) (hk, hv) =
      let all =
        Emits-emit (codes "{\"key\":")
        ▸ Emits-string key hk
        ▸ Emits-emit (codes ",\"value\":")
        ▸ Emits-write_value value hv
        ▸ Emits-emit (codes "}") in
      record { adds = all.adds }

  Emits-write_log :
      (r : LogRecord)
      → IsCleanLog r
      → Emits (write_log print_double r) (show (log_tree print_double r))
  unfolding write_log show show_text
  Emits-write_log r h =
      let fields =
        Emits-write_items (write_field print_double) (field_tree print_double) Emits-write_field
          r.fields (length r.fields) 0 h (omega arith) in
      let all =
        Emits-emit (codes "{\"timestamp\":")
        ▸ Emits-write_duration r.timestamp
        ▸ Emits-emit (codes ",\"fields\":[")
        ▸ Emits-close _ (codes "]") (codes "}") fields in
      record { adds = all.adds }

  Emits-write_span :
      (s : SpanData)
      → IsCleanSpan s
      → Emits (write_span print_double s) (show (span_tree print_double s))
  unfolding write_span show show_text
  Emits-write_span s h =
      let references =
        Emits-write_items {P = λ _. Unit {0}} write_reference reference_tree
          (λ r _. Emits-write_reference r) s.references (length s.references) 0
          (All-unit s.references) (omega arith) in
      let tags =
        Emits-write_members IsCleanValue (write_value print_double) (value_tree print_double)
          Emits-write_value s.tags (length s.tags) 0 h.tags (omega arith) in
      let logs =
        Emits-write_items (write_log print_double) (log_tree print_double) Emits-write_log s.logs
          (length s.logs) 0 h.logs (omega arith) in
      let all =
        Emits-emit (codes "{\"span_context\":")
        ▸ Emits-write_context s.span_context h.baggage
        ▸ Emits-emit (codes ",\"references\":[")
        ▸ Emits-close_then _ (codes "]") (codes ",\"operation_name\":") references (
            Emits-string s.operation_name h.operation_name
            ▸ Emits-emit (codes ",\"start_timestamp\":")
            ▸ Emits-write_duration s.start_timestamp
            ▸ Emits-emit (codes ",\"duration\":")
            ▸ Emits-write_duration s.duration
            ▸ Emits-emit (codes ",\"tags\":{")
            ▸ Emits-close_then _ (codes "}") (codes ",\"logs\":[") tags
                (Emits-close _ (codes "]") (codes "}") logs)) in
      record { adds = all.adds }

  pub Emits-to_json :
      (spans : List SpanData)
      → All IsCleanSpan spans
      → Emits (to_json print_double spans) (show (spans_tree print_double spans))
  unfolding to_json show
  Emits-to_json spans h =
      let all =
        Emits-emit (codes "[")
        ▸ Emits-write_items (write_span print_double) (span_tree print_double) Emits-write_span
            spans (length spans) 0 h (omega arith) in
      record { adds = all.adds }
