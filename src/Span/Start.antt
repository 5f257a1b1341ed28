-- ===== src/Span/Start.antt =====
-- How the constructor and the setters of mocktracer/src/mock_span.cpp fill a span.
use opentracing_cpp.Base.{
  ◌≡◌, ◌≢◌, refl, ap, ◌∙◌, not, List, [], ◌∷◌, ◌++◌, append_assoc, append-nil, Option, none, some,
  Bytes, if◌then◌else◌, arith, map, inl, inr, Option-cases,
}
use opentracing_cpp.Base.Int.{ℤ, ◌-ℤ◌, is_zero, add_sub_left}
use opentracing_cpp.Dict.{IsSorted, find, emplace, assign_all}
use opentracing_cpp.Dict.Laws.{
  assign_all-IsSorted, find-assign_self, find-assign_ne, find-emplace_self, find-emplace_ne,
}
use opentracing_cpp.SpanData.{SpanReferenceType, SpanReferenceData, SpanContextData, Value}
use opentracing_cpp.Context.{SpanContext, foreach_baggage_item}
use opentracing_cpp.Span.{
  StartSpanOptions, Clocks, Generator, convert_time_point, compute_start_timestamps, copy_item,
  Gathered, set_span_reference, set_span_references, set_tags, MockSpan, make_span, set_tag,
  set_baggage_item, baggage_item, found_or_empty,
}

-- The contexts of this tracer among the references, in their order.
abbrev pub mock_contexts :
    List (SpanReferenceType × Option SpanContext) → List (SpanReferenceType × SpanContextData)
mock_contexts [] = []
mock_contexts ((kind, none) ∷ references) = mock_contexts references
mock_contexts ((kind, some (SpanContext.mock data_)) ∷ references) =
    (kind, data_) ∷ mock_contexts references
mock_contexts ((kind, some SpanContext.noop) ∷ references) = mock_contexts references
mock_contexts ((kind, some (SpanContext.foreign n)) ∷ references) = mock_contexts references

abbrev pub reference_of : SpanReferenceType × SpanContextData → SpanReferenceData
reference_of (kind, context) = record {
  reference_type = kind;
  trace_id = context.trace_id;
  span_id = context.span_id;
}

-- All baggage of some contexts, one after the other.
abbrev pub all_baggage : List (SpanReferenceType × SpanContextData) → List (Bytes × Bytes)
all_baggage [] = []
all_baggage ((kind, context) ∷ contexts) = context.baggage ++ all_baggage contexts

-- The loop of `ForeachBaggageItem` with the copying function visits every item.
foreach-copy_item :
    (items baggage : List (Bytes × Bytes))
    → foreach_baggage_item copy_item items baggage ≡ assign_all items baggage
unfolding foreach_baggage_item assign_all
foreach-copy_item [] baggage = refl
foreach-copy_item ((key, value) ∷ items) baggage = foreach-copy_item items _

assign_all-append :
    (xs ys m : List (Bytes × Bytes)) → assign_all (xs ++ ys) m ≡ assign_all ys (assign_all xs m)
unfolding assign_all
assign_all-append [] ys m = refl
assign_all-append ((k, v) ∷ xs) ys m = assign_all-append xs ys _

set_span_references-lists :
    (references : List (SpanReferenceType × Option SpanContext)) (g : Gathered)
    → set_span_references references g ≡ record {
      baggage = assign_all (all_baggage (mock_contexts references)) g.baggage;
      references = g.references ++ map reference_of (mock_contexts references);
    }
unfolding set_span_references set_span_reference
set_span_references-lists [] g = unfold assign_all in ground (arith, append-nil g.references)
set_span_references-lists ((kind, none) ∷ references) g = set_span_references-lists references g
set_span_references-lists ((kind, some (SpanContext.mock context)) ∷ references) g =
    set_span_references-lists references _
    ∙ rw (
      foreach-copy_item context.baggage g.baggage,
      assign_all-append context.baggage (all_baggage (mock_contexts references)) g.baggage,
      append_assoc g.references (reference_of (kind, context) ∷ []),
    )
set_span_references-lists ((kind, some SpanContext.noop) ∷ references) g =
    set_span_references-lists references g
set_span_references-lists ((kind, some (SpanContext.foreign n)) ∷ references) g =
    set_span_references-lists references g

-- A new span records the references to contexts of this tracer and no others, in their order, and
-- its context has all their baggage, where a later reference overrides an earlier one.
pub make_span-references :
    {G : Type 0} (gen : Generator G) (g : G) (now : Clocks) (name : Bytes)
    (options : StartSpanOptions)
    → let span = (make_span gen g now name options).0 in
      (span.data_.references ≡ map reference_of (mock_contexts options.references))
      × (span.span_context.baggage ≡ assign_all (all_baggage (mock_contexts options.references)) [])
unfolding make_span
make_span-references gen g now name options =
    rw (set_span_references-lists options.references (record { baggage = []; references = [] }))
      (refl, refl)

-- A span whose first reference of this tracer is to `parent` joins its trace, and draws one number,
-- its own id.
pub make_span-trace :
    {G : Type 0} (gen : Generator G) (g : G) (now : Clocks) (name : Bytes)
    (options : StartSpanOptions) (kind : SpanReferenceType) (parent : SpanContextData)
    (others : List (SpanReferenceType × SpanContextData))
    → mock_contexts options.references ≡ (kind, parent) ∷ others
    → let (span, g') = make_span gen g now name options in
      (span.span_context.trace_id ≡ parent.trace_id)
      × (span.span_context.span_id ≡ (gen.next g).0)
      × (g' ≡ (gen.next g).1)
unfolding make_span
make_span-trace gen g now name options kind parent others e =
    rw (set_span_references-lists options.references (record { baggage = []; references = [] }), e)
      (refl, refl, refl)

-- The difference to the clock of the given time is the difference of the time that is estimated to
-- the other clock.
convert_time_point_lem :
    (from_now to_now t : ℤ) → convert_time_point from_now to_now t -ℤ to_now ≡ t -ℤ from_now
unfolding convert_time_point
convert_time_point_lem from_now to_now t = add_sub_left to_now (t -ℤ from_now)

-- Where just one of the two start times is set, it is kept, and the other is estimated to be as far
-- from its clock.
compute_start_timestamps_lem :
    (now : Clocks) (system steady : ℤ)
    → is_zero system ≡ not (is_zero steady)
    → let (system', steady') = compute_start_timestamps now system steady in
      ((if is_zero system then steady' else system') ≡ (if is_zero system then steady else system))
      × (system' -ℤ now.system_now ≡ steady' -ℤ now.steady_now)
unfolding compute_start_timestamps
compute_start_timestamps_lem now system steady one = ground (
  arith,
  convert_time_point_lem now.steady_now now.system_now steady,
  convert_time_point_lem now.system_now now.steady_now system,
)

pub set_tags-assign_all :
    (entries tags : List (Bytes × Value)) → set_tags entries tags ≡ assign_all entries tags
unfolding set_tags assign_all
set_tags-assign_all [] tags = refl
set_tags-assign_all ((k, v) ∷ entries) tags = set_tags-assign_all entries _

-- Both maps of a span are in the order of their keys.
pub record IsOrdered (span : MockSpan) : Type 0 where
  pub tags_sorted : IsSorted span.data_.tags
  pub baggage_sorted : IsSorted span.span_context.baggage

-- The tags and the baggage of a new span are in the order of their keys, with no key twice, whatever
-- the options are.
pub make_span-IsOrdered :
    {G : Type 0} (gen : Generator G) (g : G) (now : Clocks) (name : Bytes)
    (options : StartSpanOptions)
    → IsOrdered (make_span gen g now name options).0
unfolding make_span
make_span-IsOrdered gen g now name options = record {
  tags_sorted = rw (set_tags-assign_all options.tags []) (assign_all-IsSorted options.tags [] tt);
  baggage_sorted =
      rw (set_span_references-lists options.references (record { baggage = []; references = [] }))
        (assign_all-IsSorted (all_baggage (mock_contexts options.references)) [] tt);
}

-- In a span whose maps are in order, a tag that is set has the new value, and every other tag the one
-- it had.
pub set_tag_lem :
    (key other : Bytes) (value : Value) (span : MockSpan)
    → IsOrdered span
    → key ≢ other
    → (find key (set_tag key value span).data_.tags ≡ some value)
      × (find other (set_tag key value span).data_.tags ≡ find other span.data_.tags)
unfolding set_tag
set_tag_lem key other value span ordered ne = (
  find-assign_self key value span.data_.tags ordered.tags_sorted,
  find-assign_ne key other value span.data_.tags ordered.tags_sorted ne,
)

-- The value of an optional string, or else another.
abbrev pub value_or : Option Bytes → Bytes → Bytes
value_or none value = value
value_or (some old) value = old

-- In a span whose maps are in order, a baggage item is set once: a key that is present keeps its
-- value, a new one gets the value, and every other item is what it was.
pub baggage_item-set_baggage_item :
    (key other value : Bytes) (span : MockSpan)
    → IsOrdered span
    → key ≢ other
    → (baggage_item key (set_baggage_item key value span)
        ≡ value_or (find key span.span_context.baggage) value)
      × (baggage_item other (set_baggage_item key value span) ≡ baggage_item other span)
unfolding baggage_item set_baggage_item
baggage_item-set_baggage_item key other value span ordered ne = (
  elim (Option-cases (find key span.span_context.baggage)) [
    | inl e ↦ rw (found, e)
    | inr (old, e) ↦ rw (found, e)
  ],
  ap found_or_empty (find-emplace_ne key other value _ ordered.baggage_sorted ne),
)
  where
    found :
        find key (emplace key value span.span_context.baggage)
        ≡ (elim (find key span.span_context.baggage) [ none ↦ some value | some w ↦ some w ])
    found = find-emplace_self key value span.span_context.baggage ordered.baggage_sorted
