-- ===== src/Recorder/Contents.antt =====
-- What the readers of mocktracer/src/in_memory_recorder.cpp find after calls of `RecordSpan`.
use opentracing_cpp.Base.{
  ◌≡◌, refl, sym, ap, ◌∙◌, List, [], ◌∷◌, ◌++◌, append_assoc, append-nil, some, length,
}
use opentracing_cpp.SpanData.{SpanData}
use opentracing_cpp.Recorder.{
  InMemoryRecorder, in_memory, in_memory_record_span, in_memory_spans, in_memory_size,
  in_memory_top, last_span, record_all,
}

record_all-in_memory :
    (left : SpanData → SpanData) (spans : List SpanData) (r : InMemoryRecorder)
    → record_all (in_memory left) spans r ≡ record { spans = r.spans ++ spans }
unfolding record_all in_memory_record_span
record_all-in_memory left [] r =
    ap (λ (s : List SpanData). record { spans = s }) (sym (append-nil r.spans))
record_all-in_memory left (s ∷ spans) r =
    record_all-in_memory left spans (record { spans = r.spans ++ s ∷ [] })
    ∙ ap (λ (t : List SpanData). record { spans = t }) (append_assoc r.spans (s ∷ []) spans)

last_span-append : (spans : List SpanData) (s : SpanData) → last_span (spans ++ s ∷ []) ≡ some s
last_span-append [] s = refl
last_span-append (t ∷ []) s = refl
last_span-append (t ∷ u ∷ spans) s = last_span-append (u ∷ spans) s

-- After spans have been recorded by a recorder that had others, and one more behind them, `spans` returns
-- all in the order in which they were recorded, `size` their number, and `top` the last. Whatever the
-- moves out of the arguments leave there, the recorder's spans are those that were handed over.
in_memory_contents :
    (left : SpanData → SpanData) (old spans : List SpanData) (s : SpanData)
    → let r = record_all (in_memory left) (spans ++ s ∷ []) (record { spans = old }) in
      (in_memory_spans r ≡ old ++ (spans ++ s ∷ []))
      × (in_memory_size r ≡ length (old ++ (spans ++ s ∷ [])))
      × (in_memory_top r ≡ some s)
unfolding in_memory_spans in_memory_size in_memory_top
in_memory_contents left old spans s =
    rw (record_all-in_memory left (spans ++ s ∷ []) (record { spans = old })) (
      refl,
      refl,
      ap last_span (sym (append_assoc old spans (s ∷ []))) ∙ last_span-append (old ++ spans) s,
    )
