-- ===== src/Tests/Finishing.antt =====
-- Two threads that finish a span at once.
use mathlib.Core.List.{Memᴰ}
use opentracing_cpp.Base.{◌≡◌, refl, true, false, [], ◌∷◌, arith, length, List, some, map}
use opentracing_cpp.Base.Int.{pos}
use opentracing_cpp.Recorder.{in_memory}
use opentracing_cpp.Span.{MockSpan, finish_with_options}
use opentracing_cpp.Span.Threads.{
  Reach, start, later, moves, claimed, finished, claims, leaves, prepares, enters, copies, records,
  State, begin, call_recorder, prepared, with_context, Shared, finishing,
}
use opentracing_cpp.Span.Claimed.{recorded_once}
use opentracing_cpp.Span.Finishers.{Finish, finisher, finishers_linear}
use opentracing_cpp.Tests.Threads.{span, options}

abbrev calls : List Finish
calls = (pos 8, options) ∷ (pos 11, options) ∷ []

-- The second thread is the first to exchange the flag; the first thread returns in between.
abbrev claimed_span : MockSpan
claimed_span = record span { is_finished = true }

abbrev shared_with : MockSpan → Shared
shared_with s = record {
  span = s;
  mutex_ = false;
  baggage_mutex_ = false;
  has_recorder = true;
  recorded = [];
}

abbrev prepared_span : MockSpan
prepared_span = record claimed_span { data_ = prepared (pos 11) options claimed_span }

one_claims : Reach (begin true span (map finisher calls)) (record {
  shared = shared_with claimed_span;
  threads = finished ∷ claimed (pos 11) options ∷ [];
})
one_claims =
    later
      (later start (moves (finishing (pos 8) options ∷ []) [] refl (claims (pos 11) options refl)))
      (moves [] (claimed (pos 11) options ∷ []) refl (leaves (pos 8) options refl))

abbrev last : State
last = record {
  shared = call_recorder (λ d. d) (shared_with (with_context prepared_span));
  threads = finished ∷ finished ∷ [];
}

both_finish : Reach (begin true span (map finisher calls)) last
both_finish =
    later
      (later
        (later (later one_claims (moves (finished ∷ []) [] refl (prepares (pos 11) options)))
          (moves (finished ∷ []) [] refl (enters refl)))
        (moves (finished ∷ []) [] refl copies))
      (moves (finished ∷ []) [] refl (records (λ d. d)))

recorded_once_example : length last.shared.recorded ≡ 1
recorded_once_example =
    recorded_once span (map finisher calls) last (tt, (tt, tt)) (tt, (tt, tt)) refl both_finish
      (omega arith) (refl, (refl, tt))

finishers_linear_example :
    (f : Finish) × Memᴰ f calls
    × ((finish_with_options (in_memory (λ d. d)) f.0 f.1 span (some (record { spans = [] }))).1
        ≡ some (record { spans = last.shared.recorded }))
finishers_linear_example =
    finishers_linear span calls last (λ d. d) refl both_finish (omega arith) (refl, (refl, tt))
