-- ===== src/Options/Applied.antt =====
-- What a list of options of include/opentracing/tracer.h makes of a span that is started with it.
use opentracing_cpp.Base.{
  ◌≡◌, refl, ap, ◌∙◌, List, [], ◌∷◌, ◌++◌, append_assoc, append-nil, arith, Option, none, some,
  Bytes, map,
}
use opentracing_cpp.Base.Int.{ℤ, pos}
use opentracing_cpp.Dict.{assign_all}
use opentracing_cpp.SpanData.{SpanReferenceType, Value}
use opentracing_cpp.Context.{SpanContext}
use opentracing_cpp.Span.{
  StartSpanOptions, Clocks, Generator, MockSpan, make_span, compute_start_timestamps, apply_all,
}
use opentracing_cpp.Span.Start.{
  mock_contexts, reference_of, make_span-references, set_tags-assign_all,
}
use opentracing_cpp.Tracer.{MockTracer, start_span_with_options}
use opentracing_cpp.Options.{
  StartSpanOption, start_timestamp, span_reference, set_tag, apply, default_start, start_span,
}

-- The references among some options that are no null pointers, and the tags, in their order.
abbrev pub references_of : List StartSpanOption → List (SpanReferenceType × Option SpanContext)
references_of [] = []
references_of (start_timestamp system steady ∷ options) = references_of options
references_of (span_reference kind none ∷ options) = references_of options
references_of (span_reference kind (some context) ∷ options) =
    (kind, some context) ∷ references_of options
references_of (set_tag key value ∷ options) = references_of options

abbrev pub tags_of : List StartSpanOption → List (Bytes × Value)
tags_of [] = []
tags_of (start_timestamp system steady ∷ options) = tags_of options
tags_of (span_reference kind context ∷ options) = tags_of options
tags_of (set_tag key value ∷ options) = (key, value) ∷ tags_of options

-- The times of the last option that gives some, or else those of `d`.
abbrev pub times_of : List StartSpanOption → ℤ × ℤ → ℤ × ℤ
times_of [] d = d
times_of (start_timestamp system steady ∷ options) d = times_of options (system, steady)
times_of (span_reference kind context ∷ options) d = times_of options d
times_of (set_tag key value ∷ options) d = times_of options d

apply_all-lists :
    (options : List StartSpanOption) (o : StartSpanOptions)
    → apply_all (map apply options) o ≡ record {
      start_system_timestamp =
          (times_of options (o.start_system_timestamp, o.start_steady_timestamp)).0;
      start_steady_timestamp =
          (times_of options (o.start_system_timestamp, o.start_steady_timestamp)).1;
      references = o.references ++ references_of options;
      tags = o.tags ++ tags_of options;
    }
unfolding apply_all apply
apply_all-lists [] o = ground (arith, append-nil o.references, append-nil o.tags)
apply_all-lists (start_timestamp system steady ∷ options) o = apply_all-lists options _
apply_all-lists (span_reference kind none ∷ options) o = apply_all-lists options o
apply_all-lists (span_reference kind (some context) ∷ options) o =
    apply_all-lists options _
    ∙ rw (append_assoc o.references ((kind, some context) ∷ []) (references_of options)) refl
apply_all-lists (set_tag key value ∷ options) o =
    apply_all-lists options _ ∙ rw (append_assoc o.tags ((key, value) ∷ []) (tags_of options)) refl

-- `StartSpan` makes a span with the references and the tags among its options, in whatever order the
-- options are mixed: null pointers and contexts of other classes are left out, a later tag overrides an
-- earlier one, and of several start times the last one counts.
pub start_span_lem :
    {R G : Type 0} (tracer : MockTracer R) (gen : Generator G) (g : G) (now : Clocks) (name : Bytes)
    (options : List StartSpanOption)
    → (span : MockSpan) × ((start_span tracer gen g now name options).0 ≡ some span)
      × (span.data_.references ≡ map reference_of (mock_contexts (references_of options)))
      × (span.data_.tags ≡ assign_all (tags_of options) [])
      × ((span.data_.start_timestamp, span.start_steady)
          ≡ compute_start_timestamps now
              (times_of options (pos 0, pos 0)).0
              (times_of options (pos 0, pos 0)).1)
unfolding start_span start_span_with_options make_span
start_span_lem tracer gen g now name options =
    let applied = apply_all (map apply options) default_start in
    let lists = apply_all-lists options default_start in
    let (references, _) = make_span-references gen g now name applied in
    (
      (make_span gen g now name applied).0,
      refl,
      references
          ∙ ap (λ (o : StartSpanOptions). map reference_of (mock_contexts o.references)) lists,
      set_tags-assign_all applied.tags []
          ∙ ap (λ (o : StartSpanOptions). assign_all o.tags []) lists,
      ap
          (λ (o : StartSpanOptions).
            compute_start_timestamps now o.start_system_timestamp o.start_steady_timestamp)
          lists,
    )
