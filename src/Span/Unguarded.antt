-- ===== src/Span/Unguarded.antt =====
-- `FinishWithOptions` of mocktracer/src/mock_span.cpp beside a setter in another thread.
use opentracing_cpp.Base.{◌≡◌, Bool, refl, true, false, [], ◌∷◌}
use opentracing_cpp.Base.Int.{ℤ}
use opentracing_cpp.Span.{finished_data, FinishSpanOptions, MockSpan}
use opentracing_cpp.Span.Threads.{
  changed, prepares, span_mutex, Setter, mutex_of, waiting, loaded, stored, finishing, claimed,
  State, locks, loads, claims, stores, Move, Shared, moves, apply, merge, prepared, begin, Reach,
  start, later, set_lock, is_locked,
}

-- A thread calls `SetOperationName`, `SetTag` or `Log` on a span that is not finished, and another thread
-- finishes the span. Then there is an order of steps behind which the first, which holds the mutex of the
-- span, and the second, which does not, can each take their next step, and both steps store to `data_`: the
-- one what the setter makes of it, and the other what `FinishWithOptions` makes of it.
pub both_store_data :
    (has_recorder : Bool) (span : MockSpan) (c : Setter) (now : ℤ) (options : FinishSpanOptions)
    → span.is_finished ≡ false
    → mutex_of c ≡ span_mutex
    → (s : State) × (m : Shared) × (n : Shared) × Reach
        (begin has_recorder span (waiting c ∷ finishing now options ∷ []))
        s
      × (s.threads ≡ loaded c span ∷ claimed now options ∷ [])
      × (s.shared.mutex_ ≡ true)
      × Move s.shared (loaded c span) (stored c) m
      × Move s.shared (claimed now options) changed n
      × (m.span.data_ ≡ (apply c span).data_)
      × (n.span.data_ ≡ prepared now options span)
unfolding merge
both_store_data has_recorder span c now options open_ guarded =
    let others = finishing now options ∷ [] in
    let s0 = begin has_recorder span (waiting c ∷ others) in
    let free : is_locked (mutex_of c) s0.shared ≡ false = rw guarded refl in
    let m1 = set_lock (mutex_of c) true s0.shared in
    let same : m1.span ≡ span = rw guarded refl in
    let still_open : m1.span.is_finished ≡ false = rw guarded open_ in
    let r1 = later start (moves [] others refl (locks c free)) in
    let r2 = later r1 (moves [] others refl (loads c)) in
    (
      _,
      _,
      _,
      later r2 (moves (loaded c m1.span ∷ []) [] refl (claims now options still_open)),
      rw same refl,
      rw guarded refl,
      stores c span,
      prepares now options,
      rw guarded refl,
      unfold finished_data in rw same refl,
    )
