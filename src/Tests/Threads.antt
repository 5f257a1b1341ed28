-- ===== src/Tests/Threads.antt =====
-- Two threads that set parts of a span at once, and one that sets beside one that finishes.
use opentracing_cpp.Base.{◌≡◌, refl, ◌*◌, ◌≤◌, ◌⊎◌, inr, true, [], ◌∷◌, length, All}
use opentracing_cpp.Span.Threads.{Reach, Step, start, later, moves}
use mathlib.Core.List.{Perm}
use opentracing_cpp.Base.{List, codes, false}
use opentracing_cpp.Base.Int.{pos}
use opentracing_cpp.SpanData.{uint64}
use opentracing_cpp.Span.{MockSpan, FinishSpanOptions, set_tag, set_baggage_item}
use opentracing_cpp.Span.Threads.{
  Setter, Shared, Move, claimed, changed, prepared, sets_tag, sets_baggage_item, mutex_of, apply,
  apply_all, merge, Thread, waiting, holding, loaded, stored, returned, finishing, locks, loads,
  stores, unlocks, State, begin,
}
use opentracing_cpp.Span.Linear.{setters_linear}
use opentracing_cpp.Span.Progress.{starts, goes_on, HasEnded, no_deadlock}
use opentracing_cpp.Span.Unguarded.{both_store_data}
use opentracing_cpp.Tests.Values.{some_context}

abbrev pub span : MockSpan
span = record {
  span_context = some_context;
  start_steady = pos 4;
  is_finished = false;
  data_ = record {
    span_context = some_context;
    references = [];
    operation_name = codes "work";
    start_timestamp = pos 7;
    duration = pos 0;
    tags = [];
    logs = [];
  };
}

abbrev pub options : FinishSpanOptions
options = record { finish_steady_timestamp = pos 9; log_records = [] }

abbrev sets_a : Setter
sets_a = sets_tag (codes "a") (uint64 1)

abbrev sets_b : Setter
sets_b = sets_baggage_item (codes "b") (codes "2")

abbrev two : List Thread
two = waiting sets_a ∷ waiting sets_b ∷ []

-- Both threads hold a mutex, each its own, and have loaded; the second stores first.
both_locked : Reach (begin true span two) (record {
  shared = record {
    span = span;
    mutex_ = true;
    baggage_mutex_ = true;
    has_recorder = true;
    recorded = [];
  };
  threads = loaded sets_a span ∷ loaded sets_b span ∷ [];
})
unfolding mutex_of
both_locked =
    later
      (later
        (later (later start (moves [] (waiting sets_b ∷ []) refl (locks sets_a refl)))
          (moves (holding sets_a ∷ []) [] refl (locks sets_b refl)))
        (moves [] (holding sets_b ∷ []) refl (loads sets_a)))
      (moves (loaded sets_a span ∷ []) [] refl (loads sets_b))

abbrev both_set : MockSpan
both_set = apply sets_b (apply sets_a span)

both_returned : Reach (begin true span two) (record {
  shared = record {
    span = both_set;
    mutex_ = false;
    baggage_mutex_ = false;
    has_recorder = true;
    recorded = [];
  };
  threads = returned sets_a ∷ returned sets_b ∷ [];
})
unfolding mutex_of merge apply set_tag set_baggage_item
both_returned =
    later
      (later
        (later (later both_locked (moves (loaded sets_a span ∷ []) [] refl (stores sets_b span)))
          (moves [] (stored sets_b ∷ []) refl (stores sets_a span)))
        (moves [] (stored sets_b ∷ []) refl (unlocks sets_a)))
      (moves (returned sets_a ∷ []) [] refl (unlocks sets_b))

setters_linear_example :
    (order : List Setter) × Perm order (sets_a ∷ sets_b ∷ []) × (both_set ≡ apply_all order span)
setters_linear_example =
    setters_linear true span (sets_a ∷ sets_b ∷ [])
      (record {
        shared = record {
          span = both_set;
          mutex_ = false;
          baggage_mutex_ = false;
          has_recorder = true;
          recorded = [];
        };
        threads = returned sets_a ∷ returned sets_b ∷ [];
      })
      both_returned (tt, (tt, tt))

both_store_data_example :
    (s : State) × (m : Shared) × (n : Shared) × Reach
      (begin true span (waiting sets_a ∷ finishing (pos 8) options ∷ []))
      s
    × (s.threads ≡ loaded sets_a span ∷ claimed (pos 8) options ∷ [])
    × (s.shared.mutex_ ≡ true)
    × Move s.shared (loaded sets_a span) (stored sets_a) m
    × Move s.shared (claimed (pos 8) options) changed n
    × (m.span.data_ ≡ (apply sets_a span).data_)
    × (n.span.data_ ≡ prepared (pos 8) options span)
both_store_data_example =
    both_store_data true span sets_a (pos 8) options refl (unfold mutex_of in refl)

no_deadlock_example :
    (1 ≤ 5 * length two)
    × (((t : State) × Step
            (record {
              shared = record {
                span = span;
                mutex_ = true;
                baggage_mutex_ = false;
                has_recorder = true;
                recorded = [];
              };
              threads = holding sets_a ∷ waiting sets_b ∷ [];
            })
            t)
        ⊎ All HasEnded (holding sets_a ∷ waiting sets_b ∷ []))
unfolding mutex_of
no_deadlock_example =
    no_deadlock true span two
      (record {
        shared = record {
          span = span;
          mutex_ = true;
          baggage_mutex_ = false;
          has_recorder = true;
          recorded = [];
        };
        threads = holding sets_a ∷ waiting sets_b ∷ [];
      })
      1 (tt, (tt, tt)) (inr (tt, (tt, tt)))
      (goes_on starts (moves [] (waiting sets_b ∷ []) refl (locks sets_a refl)))
