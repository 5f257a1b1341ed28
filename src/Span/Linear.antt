-- ===== src/Span/Linear.antt =====
-- The setters of mocktracer/src/mock_span.cpp, called by many threads on one span, against the same
-- calls one after the other.
use mathlib.Core.List.{Perm}
use mathlib.Core.List.Perm
use opentracing_cpp.Base.{◌≡◌, refl, ap, ◌∙◌, Bool, true, false, List, All, [], ◌∷◌, map, flat}
use opentracing_cpp.Span.{MockSpan}
use opentracing_cpp.Span.Threads.{
  changed, asking, reading, found, answered, enters, asks, reads, leaves_baggage, Mutex, span_mutex,
  baggage_mutex, Setter, mutex_of, apply_all, Thread, waiting, holding, loaded, stored, returned,
  finishing, claimed, copying, copied, finished, Shared, set_lock, locks, loads, stores, unlocks,
  claims, leaves, prepares, copies, records, State, Step, moves, begin, Reach, start, later,
}
use opentracing_cpp.Span.Fresh.{Fresh, merge_self}
use opentracing_cpp.Span.Exclusion.{IsExclusive, Reach-IsExclusive, HasCalled}
use opentracing_cpp.Span.Stores.{Linear, call_of, done_by, quiet-Linear, store-Linear, Linear-Fresh}

span-set_lock : (k : Mutex) (b : Bool) (m : Shared) → (set_lock k b m).span ≡ m.span
span-set_lock span_mutex b m = refl
span-set_lock baggage_mutex b m = refl

Step-Linear :
    {span0 : MockSpan} {setters : List Setter} {s t : State}
    → Linear span0 setters s
    → IsExclusive s
    → Step s t
    → Linear span0 setters t
unfolding Fresh
Step-Linear {s = s} lin ex (moves before after e (locks c free)) =
    quiet-Linear before after (waiting c) (holding c) _ lin e
      (span-set_lock (mutex_of c) true s.shared) (λ h. h) refl refl
Step-Linear {s = s} lin ex (moves before after e (loads c)) =
    quiet-Linear before after (holding c) (loaded c s.shared.span) _ lin e refl
      (λ _. merge_self (mutex_of c) s.shared.span) refl refl
Step-Linear lin ex (moves before after e (stores c copy)) =
    store-Linear before after c copy lin ex e
Step-Linear {s = s} lin ex (moves before after e (unlocks c)) =
    quiet-Linear before after (stored c) (returned c) _ lin e
      (span-set_lock (mutex_of c) false s.shared) (λ h. h) refl refl
Step-Linear lin ex (moves before after e (claims now options open_)) =
    absurd (Linear-Fresh before after (finishing now options) lin e)
Step-Linear lin ex (moves before after e (leaves now options over)) =
    absurd (Linear-Fresh before after (finishing now options) lin e)
Step-Linear lin ex (moves before after e (prepares now options)) =
    absurd (Linear-Fresh before after (claimed now options) lin e)
Step-Linear lin ex (moves before after e (enters free)) =
    absurd (Linear-Fresh before after changed lin e)
Step-Linear lin ex (moves before after e (asks key free)) =
    absurd (Linear-Fresh before after (asking key) lin e)
Step-Linear lin ex (moves before after e (reads key)) =
    absurd (Linear-Fresh before after (reading key) lin e)
Step-Linear lin ex (moves before after e (leaves_baggage key value)) =
    absurd (Linear-Fresh before after (found key value) lin e)
Step-Linear lin ex (moves before after e copies) = absurd (Linear-Fresh before after copying lin e)
Step-Linear lin ex (moves before after e (records left)) =
    absurd (Linear-Fresh before after copied lin e)

Fresh-waiting : (span : MockSpan) (setters : List Setter) → All (Fresh span) (map waiting setters)
unfolding Fresh
Fresh-waiting span [] = tt
Fresh-waiting span (c ∷ setters) = (tt, Fresh-waiting span setters)

HasCalled-waiting : (setters : List Setter) → All HasCalled (map waiting setters)
HasCalled-waiting [] = tt
HasCalled-waiting (c ∷ setters) = (tt, HasCalled-waiting setters)

done-waiting : (setters : List Setter) → flat done_by (map waiting setters) ≡ []
done-waiting [] = refl
done-waiting (c ∷ setters) = done-waiting setters

calls-waiting : (setters : List Setter) → flat call_of (map waiting setters) ≡ setters
calls-waiting [] = refl
calls-waiting (c ∷ setters) = ap (λ cs. c ∷ cs) (calls-waiting setters)

Reach-Linear :
    {has_recorder : Bool} {span : MockSpan} {setters : List Setter} {s : State}
    → Reach (begin has_recorder span (map waiting setters)) s
    → Linear span setters s
Reach-Linear {span = span} {setters = setters} start = record {
  fresh = Fresh-waiting span setters;
  order = [];
  made = unfold apply_all in refl;
  done = rw (done-waiting setters) Perm.rfl;
  calls = calls-waiting setters;
}
Reach-Linear {span = span} {setters = setters} (later r step) =
    Step-Linear (Reach-Linear r) (Reach-IsExclusive (HasCalled-waiting setters) r) step

abbrev pub HasReturned : Thread → Type 0
HasReturned (waiting c) = ⊥
HasReturned (holding c) = ⊥
HasReturned (loaded c copy) = ⊥
HasReturned (stored c) = ⊥
HasReturned (returned c) = Unit
HasReturned (finishing now options) = ⊥
HasReturned (claimed now options) = ⊥
HasReturned copying = ⊥
HasReturned copied = ⊥
HasReturned finished = ⊥
HasReturned changed = ⊥
HasReturned (asking key) = ⊥
HasReturned (reading key) = ⊥
HasReturned (found key value) = ⊥
HasReturned (answered key value) = ⊥

returned-done :
    (threads : List Thread) → All HasReturned threads → flat done_by threads ≡ flat call_of threads
returned-done [] h = refl
returned-done (waiting c ∷ threads) (bad, h) = absurd bad
returned-done (holding c ∷ threads) (bad, h) = absurd bad
returned-done (loaded c copy ∷ threads) (bad, h) = absurd bad
returned-done (stored c ∷ threads) (bad, h) = absurd bad
returned-done (returned c ∷ threads) (_, h) = ap (λ cs. c ∷ cs) (returned-done threads h)
returned-done (finishing now options ∷ threads) (bad, h) = absurd bad
returned-done (claimed now options ∷ threads) (bad, h) = absurd bad
returned-done (copying ∷ threads) (bad, h) = absurd bad
returned-done (copied ∷ threads) (bad, h) = absurd bad
returned-done (finished ∷ threads) (bad, h) = absurd bad
returned-done (changed ∷ threads) (bad, h) = absurd bad
returned-done (asking key ∷ threads) (bad, h) = absurd bad
returned-done (reading key ∷ threads) (bad, h) = absurd bad
returned-done (found key value ∷ threads) (bad, h) = absurd bad
returned-done (answered key value ∷ threads) (bad, h) = absurd bad

-- Threads make one call each of `SetOperationName`, `SetTag`, `Log` or `SetBaggageItem` on one span, and
-- their steps are taken in any order. When all have returned, the span is what the same calls, made one
-- after the other in some order, make of it: no call is lost, and none is made twice.
pub setters_linear :
    (has_recorder : Bool) (span : MockSpan) (setters : List Setter) (s : State)
    → Reach (begin has_recorder span (map waiting setters)) s
    → All HasReturned s.threads
    → (order : List Setter) × Perm order setters × (s.shared.span ≡ apply_all order span)
setters_linear has_recorder span setters s r h =
    let lin = Reach-Linear r in
    (lin.order, rw (returned-done s.threads h ∙ lin.calls) at lin.done, lin.made)
