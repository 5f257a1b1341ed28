-- ===== src/Recorder/Shortage.antt =====
-- `RecordSpan` of mocktracer/src/in_memory_recorder.cpp and json_recorder.cpp where memory can be short.
use mathlib.Core.List.{Sublistᴰ}
use opentracing_cpp.Base.{◌≡◌, refl, true, false, List, [], ◌∷◌, if◌then◌else◌}
use opentracing_cpp.Heap.{Heap, has_memory, after_new}
use opentracing_cpp.SpanData.{SpanData}
use opentracing_cpp.Recorder.{Recorder, record_all}

module _ {R : Type 0} (recorder : Recorder R) where
  -- `RecordSpan`: where the vector has no memory to grow, the span is dropped, and stays in the argument.
  unfoldable pub record_or_drop : SpanData → R → Heap → R × SpanData
  record_or_drop span_data r heap =
      if has_memory heap then recorder.record_span span_data r else (r, span_data)

  unfoldable record_all_or_drop : List SpanData → R → Heap → R
  record_all_or_drop [] r heap = r
  record_all_or_drop (s ∷ spans) r heap =
      record_all_or_drop spans (record_or_drop s r heap).0 (after_new heap)

  -- Where memory is short, a recorder is in the state that it is brought to by some of the spans, in
  -- their order, where it is not.
  record_all_or_drop-record_all :
      (spans : List SpanData) (r : R) (heap : Heap)
      → (kept : List SpanData) × Sublistᴰ kept spans
        × (record_all_or_drop spans r heap ≡ record_all recorder kept r)
  unfolding record_all_or_drop record_or_drop record_all
  record_all_or_drop-record_all [] r heap = ([], Sublistᴰ.slnil, refl)
  record_all_or_drop-record_all (s ∷ spans) r [] =
      let (kept, within, e) = record_all_or_drop-record_all spans (recorder.record_span s r).0 [] in
      (s ∷ kept, Sublistᴰ.cons-cons refl within, e)
  record_all_or_drop-record_all (s ∷ spans) r (true ∷ heap) =
      let (kept, within, e) =
        record_all_or_drop-record_all spans (recorder.record_span s r).0 heap in
      (s ∷ kept, Sublistᴰ.cons-cons refl within, e)
  record_all_or_drop-record_all (s ∷ spans) r (false ∷ heap) =
      let (kept, within, e) = record_all_or_drop-record_all spans r heap in
      (kept, Sublistᴰ.cons within, e)
