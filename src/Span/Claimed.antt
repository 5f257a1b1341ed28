-- ===== src/Span/Claimed.antt =====
-- How often `FinishWithOptions` of mocktracer/src/mock_span.cpp calls the recorder, whatever the order of
-- the threads' steps.
use opentracing_cpp.Base.{
  ℕ, ◌+◌, ◌≤◌, ◌<◌, ◌≡◌, refl, ◌∙◌, Bool, true, false, List, All, [], ◌∷◌, arith, count,
  count-append, count_at, length, length-append, if◌then◌else◌,
}
use opentracing_cpp.Span.{MockSpan}
use opentracing_cpp.Span.Threads.{
  changed, asking, reading, found, answered, enters, asks, reads, leaves_baggage, Mutex, span_mutex,
  baggage_mutex, mutex_of, Thread, waiting, holding, loaded, stored, returned, finishing, claimed,
  copying, copied, finished, Shared, set_lock, merge, apply, Move, locks, loads, stores, unlocks,
  claims, leaves, prepares, copies, records, State, Step, moves, begin, Reach, start, later,
  IsNoDataSetter, call_recorder,
}
use opentracing_cpp.Span.Exclusion.{HasCalled, one_if}
use opentracing_cpp.Span.Progress.{HasEnded}

-- One for a thread that calls `FinishWithOptions`.
abbrev pub is_finisher : Thread → ℕ
is_finisher (waiting c) = 0
is_finisher (holding c) = 0
is_finisher (loaded c copy) = 0
is_finisher (stored c) = 0
is_finisher (returned c) = 0
is_finisher (finishing now options) = 1
is_finisher (claimed now options) = 1
is_finisher copying = 1
is_finisher copied = 1
is_finisher finished = 1
is_finisher changed = 1
is_finisher (asking key) = 0
is_finisher (reading key) = 0
is_finisher (found key value) = 0
is_finisher (answered key value) = 0

-- One for the thread that has set the flag and has not yet called the recorder.
abbrev pub has_claimed : Thread → ℕ
has_claimed (waiting c) = 0
has_claimed (holding c) = 0
has_claimed (loaded c copy) = 0
has_claimed (stored c) = 0
has_claimed (returned c) = 0
has_claimed (finishing now options) = 0
has_claimed (claimed now options) = 1
has_claimed copying = 1
has_claimed copied = 1
has_claimed finished = 0
has_claimed changed = 1
has_claimed (asking key) = 0
has_claimed (reading key) = 0
has_claimed (found key value) = 0
has_claimed (answered key value) = 0

-- One for a thread that has seen or set the flag.
abbrev has_exchanged : Thread → ℕ
has_exchanged (waiting c) = 0
has_exchanged (holding c) = 0
has_exchanged (loaded c copy) = 0
has_exchanged (stored c) = 0
has_exchanged (returned c) = 0
has_exchanged (finishing now options) = 0
has_exchanged (claimed now options) = 1
has_exchanged copying = 1
has_exchanged copied = 1
has_exchanged finished = 1
has_exchanged changed = 1
has_exchanged (asking key) = 0
has_exchanged (reading key) = 0
has_exchanged (found key value) = 0
has_exchanged (answered key value) = 0

flag-set_lock :
    (k : Mutex) (b : Bool) (m : Shared)
    → ((set_lock k b m).span.is_finished ≡ m.span.is_finished)
      × ((set_lock k b m).recorded ≡ m.recorded)
      × ((set_lock k b m).has_recorder ≡ m.has_recorder)
flag-set_lock span_mutex b m = (refl, refl, refl)
flag-set_lock baggage_mutex b m = (refl, refl, refl)

flag-merge : (k : Mutex) (from span : MockSpan) → (merge k from span).is_finished ≡ span.is_finished
unfolding merge
flag-merge span_mutex from span = refl
flag-merge baggage_mutex from span = refl

-- What a state says of the flag, of the calls of a recorder that is there, and of the threads.
abbrev pub Counts : Shared → ℕ → ℕ → Type 0
Counts m claimers exchangers =
    (m.has_recorder ≡ true)
    × (length m.recorded + claimers ≡ one_if m.span.is_finished)
    × (exchangers ≤ (if m.span.is_finished then exchangers else 0))

Move-Counts :
    {m n : Shared} {p q : Thread} (claimers exchangers : ℕ)
    → Move m p q n
    → Counts m (has_claimed p + claimers) (has_exchanged p + exchangers)
    → Counts n (has_claimed q + claimers) (has_exchanged q + exchangers)
Move-Counts {m} claimers exchangers (locks c free) (r, one, seen) =
    let (f, l, h) = flag-set_lock (mutex_of c) true m in (h ∙ r, rw (f, l) one, rw f seen)
Move-Counts claimers exchangers (loads c) h = h
Move-Counts {m} claimers exchangers (stores c copy) (r, one, seen) =
    let f = flag-merge (mutex_of c) (apply c copy) m.span in (r, rw f one, rw f seen)
Move-Counts {m} claimers exchangers (unlocks c) (r, one, seen) =
    let (f, l, h) = flag-set_lock (mutex_of c) false m in (h ∙ r, rw (f, l) one, rw f seen)
Move-Counts claimers exchangers (claims now options open_) (r, one, seen) =
    (r, ground (arith, open_), omega arith)
Move-Counts claimers exchangers (leaves now options over) (r, one, seen) =
    (r, one, ground (arith, over))
Move-Counts claimers exchangers (prepares now options) h = h
Move-Counts claimers exchangers (enters free) h = h
Move-Counts claimers exchangers (asks key free) h = h
Move-Counts claimers exchangers (reads key) h = h
Move-Counts claimers exchangers (leaves_baggage key value) h = h
Move-Counts claimers exchangers copies h = h
Move-Counts {m} claimers exchangers (records left) (r, one, seen) =
    unfold call_recorder in
    simp r (refl, ground (arith, length-append m.recorded (m.span.data_ ∷ [])), ground arith)

Move-is_finisher : {m n : Shared} {p q : Thread} → Move m p q n → is_finisher q ≡ is_finisher p
Move-is_finisher (locks c free) = refl
Move-is_finisher (loads c) = refl
Move-is_finisher (stores c copy) = refl
Move-is_finisher (unlocks c) = refl
Move-is_finisher (claims now options open_) = refl
Move-is_finisher (leaves now options over) = refl
Move-is_finisher (prepares now options) = refl
Move-is_finisher (enters free) = refl
Move-is_finisher (asks key free) = refl
Move-is_finisher (reads key) = refl
Move-is_finisher (leaves_baggage key value) = refl
Move-is_finisher copies = refl
Move-is_finisher (records left) = refl

pub record Counted (finishers : ℕ) (s : State) : Type 0 where
  pub counts : Counts s.shared (count has_claimed s.threads) (count has_exchanged s.threads)
  pub finishers_stay : count is_finisher s.threads ≡ finishers

Step-Counted : {finishers : ℕ} {s t : State} → Counted finishers s → Step s t → Counted finishers t
Step-Counted {finishers} {s} inv (moves {p} {q} {m} before after e move) =
    let old = count_at has_claimed s.threads before after p e in
    let seen = count_at has_exchanged s.threads before after p e in
    let claimers = count has_claimed before + count has_claimed after in
    let exchangers = count has_exchanged before + count has_exchanged after in
    let (r, one, h) = inv.counts in
    let (r2, one2, h2) =
      Move-Counts claimers exchangers move (r, omega (arith, one, old), ground (arith, h, seen)) in
    record {
      counts = (
        r2,
        omega (arith, one2, count-append has_claimed before (q ∷ after)),
        ground (arith, h2, count-append has_exchanged before (q ∷ after)),
      );
      finishers_stay = omega (
        arith,
        inv.finishers_stay,
        Move-is_finisher move,
        count_at is_finisher s.threads before after p e,
        count-append is_finisher before (q ∷ after),
      );
    }

none_exchanged :
    (threads : List Thread)
    → All HasCalled threads
    → (count has_claimed threads ≡ 0) × (count has_exchanged threads ≡ 0)
none_exchanged [] h = (refl, refl)
none_exchanged (waiting c ∷ threads) (_, h) =
    let (none, zero) = none_exchanged threads h in (omega (arith, none), omega (arith, zero))
none_exchanged (holding c ∷ threads) (bad, h) = absurd bad
none_exchanged (loaded c copy ∷ threads) (bad, h) = absurd bad
none_exchanged (stored c ∷ threads) (bad, h) = absurd bad
none_exchanged (returned c ∷ threads) (bad, h) = absurd bad
none_exchanged (finishing now options ∷ threads) (_, h) =
    let (none, zero) = none_exchanged threads h in (omega (arith, none), omega (arith, zero))
none_exchanged (claimed now options ∷ threads) (bad, h) = absurd bad
none_exchanged (copying ∷ threads) (bad, h) = absurd bad
none_exchanged (copied ∷ threads) (bad, h) = absurd bad
none_exchanged (finished ∷ threads) (bad, h) = absurd bad
none_exchanged (changed ∷ threads) (bad, h) = absurd bad
none_exchanged (asking key ∷ threads) (_, h) =
    let (none, zero) = none_exchanged threads h in (omega (arith, none), omega (arith, zero))
none_exchanged (reading key ∷ threads) (bad, h) = absurd bad
none_exchanged (found key value ∷ threads) (bad, h) = absurd bad
none_exchanged (answered key value ∷ threads) (bad, h) = absurd bad

pub Reach-Counted :
    {span : MockSpan} {threads : List Thread} {s : State}
    → All HasCalled threads
    → span.is_finished ≡ false
    → Reach (begin true span threads) s
    → Counted (count is_finisher threads) s
Reach-Counted {span} {threads} h open_ start =
    let (claimers, exchangers) = none_exchanged threads h in
    record {
      counts = (refl, ground (arith, claimers, open_), ground (arith, exchangers));
      finishers_stay = refl;
    }
Reach-Counted h open_ (later r step) = Step-Counted (Reach-Counted h open_ r) step

pub ended_counts :
    (threads : List Thread)
    → All HasEnded threads
    → (count has_claimed threads ≡ 0) × (count has_exchanged threads ≡ count is_finisher threads)
ended_counts [] h = (refl, refl)
ended_counts (waiting c ∷ threads) (bad, h) = absurd (omega arith)
ended_counts (holding c ∷ threads) (bad, h) = absurd (omega arith)
ended_counts (loaded c copy ∷ threads) (bad, h) = absurd (omega arith)
ended_counts (stored c ∷ threads) (bad, h) = absurd (omega arith)
ended_counts (returned c ∷ threads) (_, h) =
    let (none, same) = ended_counts threads h in (omega (arith, none), omega (arith, same))
ended_counts (finishing now options ∷ threads) (bad, h) = absurd (omega arith)
ended_counts (claimed now options ∷ threads) (bad, h) = absurd (omega arith)
ended_counts (copying ∷ threads) (bad, h) = absurd (omega arith)
ended_counts (copied ∷ threads) (bad, h) = absurd (omega arith)
ended_counts (finished ∷ threads) (_, h) =
    let (none, same) = ended_counts threads h in (omega (arith, none), omega (arith, same))
ended_counts (changed ∷ threads) (bad, h) = absurd (omega arith)
ended_counts (asking key ∷ threads) (bad, h) = absurd (omega arith)
ended_counts (reading key ∷ threads) (bad, h) = absurd (omega arith)
ended_counts (found key value ∷ threads) (bad, h) = absurd (omega arith)
ended_counts (answered key value ∷ threads) (_, h) =
    let (none, same) = ended_counts threads h in (omega (arith, none), omega (arith, same))

-- Threads make one call each on a span that is not finished and has a recorder: `FinishWithOptions`,
-- `SetBaggageItem` or `BaggageItem`, so that none races for `data_`. Their steps are taken in any order. When
-- all calls have returned, and one of them at least was to finish the span, `RecordSpan` has been called
-- exactly once.
pub recorded_once :
    (span : MockSpan) (threads : List Thread) (s : State)
    → All HasCalled threads
    → All IsNoDataSetter threads
    → span.is_finished ≡ false
    → Reach (begin true span threads) s
    → 0 < count is_finisher threads
    → All HasEnded s.threads
    → length s.shared.recorded ≡ 1
recorded_once span threads s called _ open_ r some_finisher ended =
    let inv = Reach-Counted called open_ r in
    let (_, one, seen) = inv.counts in
    let (claimers, exchangers) = ended_counts s.threads ended in
    ground (arith, one, seen, claimers, exchangers, inv.finishers_stay)
