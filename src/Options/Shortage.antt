-- ===== src/Options/Shortage.antt =====
-- The options of include/opentracing/tracer.h and `StartSpanWithOptions` of mocktracer/src/tracer.cpp where
-- memory can be short.
use mathlib.Core.List.{Sublistᴰ}
use opentracing_cpp.Base.{
  ◌≡◌, refl, ap, ◌∙◌, ◌⊎◌, inl, inr, List, [], ◌∷◌, Option, none, some, Bytes, map, if◌then◌else◌,
  Bool-cases, arith,
}
use opentracing_cpp.Heap.{Heap, Action, has_memory, allocate, modify, ◌>>◌, ignoring}
use opentracing_cpp.Span.{StartSpanOptions, Clocks, Generator, MockSpan, apply_all}
use opentracing_cpp.Tracer.{MockTracer, start_span_with_options}
use opentracing_cpp.Options.{
  StartSpanOption, start_timestamp, span_reference, set_tag, apply, default_start, start_span,
}

-- `Apply` of the three classes. The string of a tag, its value and the element of the vector each take
-- memory.
unfoldable pub apply_body : StartSpanOption → Action StartSpanOptions Unit
apply_body (start_timestamp system_when steady_when) =
    modify (apply (start_timestamp system_when steady_when))
apply_body (span_reference kind none) = modify λ options. options
apply_body (span_reference kind (some referenced)) = do
  allocate
  modify (apply (span_reference kind (some referenced)))
apply_body (set_tag key value) = do allocate; allocate; allocate; modify (apply (set_tag key value))

-- `option.get().Apply(options)` for each option: what is thrown is ignored.
unfoldable pub apply_options :
    List StartSpanOption → StartSpanOptions → Heap → StartSpanOptions × Heap
apply_options [] options heap = (options, heap)
apply_options (option ∷ rest) options heap =
    let (options', heap') = ignoring (apply_body option) options heap in
    apply_options rest options' heap'

module _ {R G : Type 0} (tracer : MockTracer R) (gen : Generator G) (g : G) (now : Clocks) where
  -- `StartSpanWithOptions`: where the constructor of the span is not given all the memory that it asks for,
  -- it throws before it draws a number, and a null pointer is returned.
  unfoldable pub start_span_or_null : Bytes → StartSpanOptions → Heap → Option MockSpan × G
  start_span_or_null operation_name options heap =
      if has_memory heap
      then start_span_with_options tracer gen g now operation_name options
      else (none, g)

  -- `Tracer::StartSpan`
  unfoldable pub start_span_short : Bytes → List StartSpanOption → Heap → Option MockSpan × G
  start_span_short operation_name option_list heap =
      let (options, rest) = apply_options option_list default_start heap in
      start_span_or_null operation_name options rest

ignored :
    (option : StartSpanOption) (options : StartSpanOptions) (heap : Heap)
    → ((ignoring (apply_body option) options heap).0 ≡ apply option options)
      ⊎ ((ignoring (apply_body option) options heap).0 ≡ options)
unfolding apply_body
ignored (start_timestamp system_when steady_when) options heap = inl refl
ignored (span_reference kind none) options heap = inr refl
ignored (span_reference kind (some referenced)) options heap = ground arith
ignored (set_tag key value) options heap = ground arith

apply_options-sublist :
    (option_list : List StartSpanOption) (options : StartSpanOptions) (heap : Heap)
    → (kept : List StartSpanOption) × Sublistᴰ kept option_list
      × ((apply_options option_list options heap).0 ≡ apply_all (map apply kept) options)
unfolding apply_options apply_all
apply_options-sublist [] options heap = ([], Sublistᴰ.slnil, refl)
apply_options-sublist (option ∷ rest) options heap =
    let (options', heap') = ignoring (apply_body option) options heap in
    let (kept, within, made) = apply_options-sublist rest options' heap' in
    elim (ignored option options heap) [
      | inl e ↦
          (option ∷ kept, Sublistᴰ.cons-cons refl within, made ∙ ap (apply_all (map apply kept)) e)
      | inr e ↦ (kept, Sublistᴰ.cons within, made ∙ ap (apply_all (map apply kept)) e)
    ]

apply_options-enough :
    (option_list : List StartSpanOption) (options : StartSpanOptions)
    → apply_options option_list options [] ≡ (apply_all (map apply option_list) options, [])
unfolding apply_options apply_all apply_body apply
apply_options-enough [] options = refl
apply_options-enough (start_timestamp system_when steady_when ∷ rest) options =
    apply_options-enough rest _
apply_options-enough (span_reference kind none ∷ rest) options = apply_options-enough rest _
apply_options-enough (span_reference kind (some referenced) ∷ rest) options =
    apply_options-enough rest _
apply_options-enough (set_tag key value ∷ rest) options = apply_options-enough rest _

-- A span is started with some options, and any allocation can fail. Then `StartSpan` returns a null pointer
-- and draws no number, or it does what it does with memory for all, of some of the options in their
-- order: an option is applied as a whole or not at all. With memory for all it applies them all.
pub start_span_short-sublist :
    {R G : Type 0} (tracer : MockTracer R) (gen : Generator G) (g : G) (now : Clocks)
    (operation_name : Bytes) (option_list : List StartSpanOption) (heap : Heap)
    → ((start_span_short tracer gen g now operation_name option_list heap ≡ (none, g))
        ⊎ ((kept : List StartSpanOption) × Sublistᴰ kept option_list
            × (start_span_short tracer gen g now operation_name option_list heap
                ≡ start_span tracer gen g now operation_name kept)))
      × (start_span_short tracer gen g now operation_name option_list []
          ≡ start_span tracer gen g now operation_name option_list)
unfolding start_span_short start_span_or_null start_span
start_span_short-sublist tracer gen g now operation_name option_list heap =
    let (options, rest) = apply_options option_list default_start heap in
    let (kept, within, made) = apply_options-sublist option_list default_start heap in
    (
      elim (Bool-cases (has_memory rest)) [
        | inl given ↦ inr (
          kept,
          within,
          simp given (ap (start_span_with_options tracer gen g now operation_name) made),
        )
        | inr denied ↦ inl (simp denied refl)
      ],
      simp (apply_options-enough option_list default_start) refl,
    )
