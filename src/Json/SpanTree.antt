-- ===== src/Json/SpanTree.antt =====
-- The trees of the JSON texts that mocktracer/src/json.cpp writes for spans, and the strings that are
-- UTF-8 and for which no code of a control character is written.
use opentracing_cpp.Base.{ℕ, ◌≡◌, true, false, List, [], ◌∷◌, Bytes, codes, All, if◌then◌else◌}
use opentracing_cpp.Base.Int.{ℤ}
use opentracing_cpp.SpanData.{
  SpanReferenceType, child_of_ref, follows_from_ref, Value, Values, Dictionary, SpanContextData,
  SpanReferenceData, LogRecord, SpanData,
}
use opentracing_cpp.Json.{is_nan, is_inf, signbit, microseconds}
use opentracing_cpp.Json.Text.{print_number, pad_left}
use opentracing_cpp.Json.Escape.{has_control}
use opentracing_cpp.Json.Utf8.{is_utf8}
use opentracing_cpp.Json.Numbers.{integer_text}
use opentracing_cpp.Json.Tree.{
  Json, Items, Members, null, bool, number, text, array, object, no_items, item, no_members, member,
}

unfoldable pub items_of : {A : Type 0} → (A → Json) → List A → Items
items_of tree [] = no_items
items_of tree (x ∷ xs) = item (tree x) (items_of tree xs)

unfoldable pub members_of : {A : Type 0} → (A → Json) → List (Bytes × A) → Members
members_of tree [] = no_members
members_of tree ((key, x) ∷ xs) = member key (tree x) (members_of tree xs)

-- An id: sixteen digits in base 16, as a string.
abbrev pub id_text : ℕ → Bytes
id_text id = pad_left 16 (print_number 16 id)

abbrev pub reference_name : SpanReferenceType → Bytes
reference_name child_of_ref = codes "CHILD_OF"
reference_name follows_from_ref = codes "FOLLOWS_FROM"

abbrev pub context_tree : SpanContextData → Json
context_tree c = object (
    member (codes "trace_id") (text (id_text c.trace_id)) (
      member (codes "span_id") (text (id_text c.span_id))
        (member (codes "baggage") (object (members_of text c.baggage)) no_members)))

abbrev pub reference_tree : SpanReferenceData → Json
reference_tree r = object (
    member (codes "reference_type") (text (reference_name r.reference_type)) (
      member (codes "trace_id") (text (id_text r.trace_id))
        (member (codes "span_id") (text (id_text r.span_id)) no_members)))

-- A time or a duration in microseconds.
abbrev pub time_tree : ℤ → Json
time_tree t = number (integer_text (microseconds t))

module _ (print_double : ℕ → Bytes) where
  -- The doubles that are no JSON numbers are strings.
  abbrev pub double_tree : ℕ → Json
  double_tree d =
      if is_nan d
      then text (codes "NaN")
      else if is_inf d
      then if signbit d then text (codes "-Inf") else text (codes "+Inf")
      else number (print_double d)

  unfoldable mutual
    pub value_tree : Value → Json
    value_tree (Value.boolean b) = bool b
    value_tree (Value.double d) = double_tree d
    value_tree (Value.int64 n) = number (integer_text n)
    value_tree (Value.uint64 n) = number (print_number 10 n)
    value_tree (Value.string s) = text s
    value_tree (Value.string_view s) = text s
    value_tree Value.null = null
    value_tree (Value.c_string s) = text s
    value_tree (Value.values vs) = array (value_trees vs)
    value_tree (Value.dictionary d) = object (entry_trees d)

    pub value_trees : Values → Items
    value_trees Values.nil = no_items
    value_trees (Values.cons v vs) = item (value_tree v) (value_trees vs)

    pub entry_trees : Dictionary → Members
    entry_trees Dictionary.end = no_members
    entry_trees (Dictionary.entry k v d) = member k (value_tree v) (entry_trees d)

  abbrev pub field_tree : Bytes × Value → Json
  field_tree (key, value) =
      object
        (member (codes "key") (text key) (member (codes "value") (value_tree value) no_members))

  abbrev pub log_tree : LogRecord → Json
  log_tree r = object (
      member (codes "timestamp") (time_tree r.timestamp)
        (member (codes "fields") (array (items_of field_tree r.fields)) no_members))

  abbrev pub span_tree : SpanData → Json
  span_tree s = object (
      member (codes "span_context") (context_tree s.span_context) (
        member (codes "references") (array (items_of reference_tree s.references)) (
          member (codes "operation_name") (text s.operation_name) (
            member (codes "start_timestamp") (time_tree s.start_timestamp) (
              member (codes "duration") (time_tree s.duration) (
                member (codes "tags") (object (members_of value_tree s.tags))
                  (member (codes "logs") (array (items_of log_tree s.logs)) no_members)))))))

  abbrev pub spans_tree : List SpanData → Json
  spans_tree spans = array (items_of span_tree spans)

-- UTF-8 without the control characters that are written as a code.
abbrev pub IsClean : Bytes → Type 0
IsClean s = (has_control s ≡ false) × (is_utf8 s ≡ true)

unfoldable mutual
  pub IsCleanValue : Value → Type 0
  IsCleanValue (Value.boolean b) = Unit
  IsCleanValue (Value.double d) = Unit
  IsCleanValue (Value.int64 n) = Unit
  IsCleanValue (Value.uint64 n) = Unit
  IsCleanValue (Value.string s) = IsClean s
  IsCleanValue (Value.string_view s) = IsClean s
  IsCleanValue Value.null = Unit
  IsCleanValue (Value.c_string s) = IsClean s
  IsCleanValue (Value.values vs) = AreCleanValues vs
  IsCleanValue (Value.dictionary d) = AreCleanEntries d

  pub AreCleanValues : Values → Type 0
  AreCleanValues Values.nil = Unit
  AreCleanValues (Values.cons v vs) = IsCleanValue v × AreCleanValues vs

  pub AreCleanEntries : Dictionary → Type 0
  AreCleanEntries Dictionary.end = Unit
  AreCleanEntries (Dictionary.entry k v d) = IsClean k × (IsCleanValue v × AreCleanEntries d)

-- A key and what belongs to it.
abbrev pub IsCleanPair : {A : Type 0} → (A → Type 0) → Bytes × A → Type 0
IsCleanPair P p = IsClean p.0 × P p.1

abbrev pub IsCleanLog : LogRecord → Type 0
IsCleanLog r = All (IsCleanPair IsCleanValue) r.fields

-- The strings of the span are UTF-8, and none needs a code.
pub record IsCleanSpan (s : SpanData) : Type 0 where
  pub baggage : All (IsCleanPair IsClean) s.span_context.baggage
  pub operation_name : IsClean s.operation_name
  pub tags : All (IsCleanPair IsCleanValue) s.tags
  pub logs : All IsCleanLog s.logs
