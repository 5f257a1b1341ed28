-- ===== src/Span/Exclusion.antt =====
-- Who holds the mutexes of mocktracer/src/mock_span.cpp, whatever the order of the threads' steps.
use opentracing_cpp.Base.{
  ℕ, ◌+◌, ◌≤◌, ◌≡◌, refl, sym, ap, ◌∙◌, Bool, true, false, List, All, [], ◌∷◌, arith, count,
  count-append, count_at, if◌then◌else◌,
}
use opentracing_cpp.SpanData.{SpanData}
use opentracing_cpp.Span.{MockSpan}
use opentracing_cpp.Span.Threads.{
  changed, asking, reading, found, answered, enters, asks, reads, leaves_baggage, Mutex, span_mutex,
  baggage_mutex, mutex_of, Thread, waiting, holding, loaded, stored, returned, finishing, claimed,
  copying, copied, finished, Shared, is_locked, set_lock, Move, locks, loads, stores, unlocks,
  claims, leaves, prepares, copies, records, State, Step, moves, begin, Reach, start, later,
  call_recorder,
}

abbrev pub same : Mutex → Mutex → Bool
same span_mutex span_mutex = true
same span_mutex baggage_mutex = false
same baggage_mutex span_mutex = false
same baggage_mutex baggage_mutex = true

pub same_refl : (k : Mutex) → same k k ≡ true
same_refl span_mutex = refl
same_refl baggage_mutex = refl

-- One for a thread that is between taking and releasing the mutex.
abbrev pub holds : Mutex → Thread → ℕ
holds k (waiting c) = 0
holds k (holding c) = if same k (mutex_of c) then 1 else 0
holds k (loaded c copy) = if same k (mutex_of c) then 1 else 0
holds k (stored c) = if same k (mutex_of c) then 1 else 0
holds k (returned c) = 0
holds k (finishing now options) = 0
holds k (claimed now options) = 0
holds k copying = if same k baggage_mutex then 1 else 0
holds k copied = 0
holds k finished = 0
holds k changed = 0
holds k (asking key) = 0
holds k (reading key) = if same k baggage_mutex then 1 else 0
holds k (found key value) = if same k baggage_mutex then 1 else 0
holds k (answered key value) = 0

-- The threads that have made no step.
abbrev pub HasCalled : Thread → Type 0
HasCalled (waiting c) = Unit
HasCalled (holding c) = ⊥
HasCalled (loaded c copy) = ⊥
HasCalled (stored c) = ⊥
HasCalled (returned c) = ⊥
HasCalled (finishing now options) = Unit
HasCalled (claimed now options) = ⊥
HasCalled copying = ⊥
HasCalled copied = ⊥
HasCalled finished = ⊥
HasCalled changed = ⊥
HasCalled (asking key) = Unit
HasCalled (reading key) = ⊥
HasCalled (found key value) = ⊥
HasCalled (answered key value) = ⊥

abbrev pub one_if : Bool → ℕ
one_if b = if b then 1 else 0

is_locked-span :
    (k : Mutex) (m : Shared) (span : MockSpan)
    → is_locked k (record m { span = span }) ≡ is_locked k m
is_locked-span span_mutex m span = refl
is_locked-span baggage_mutex m span = refl

take_lock :
    (k j : Mutex) (m : Shared) (others : ℕ)
    → is_locked j m ≡ false
    → 0 + others ≡ one_if (is_locked k m)
    → one_if (same k j) + others ≡ one_if (is_locked k (set_lock j true m))
take_lock span_mutex span_mutex m others free h = ground arith
take_lock span_mutex baggage_mutex m others free h = h
take_lock baggage_mutex span_mutex m others free h = h
take_lock baggage_mutex baggage_mutex m others free h = ground arith

release_lock :
    (k j : Mutex) (m : Shared) (others : ℕ)
    → one_if (same k j) + others ≡ one_if (is_locked k m)
    → 0 + others ≡ one_if (is_locked k (set_lock j false m))
release_lock span_mutex span_mutex m others h = ground arith
release_lock span_mutex baggage_mutex m others h = h
release_lock baggage_mutex span_mutex m others h = h
release_lock baggage_mutex baggage_mutex m others h = ground arith

is_locked-record :
    (k : Mutex) (m : Shared) (left : SpanData → SpanData)
    → is_locked k (if m.has_recorder then call_recorder left m else m) ≡ is_locked k m
unfolding call_recorder
is_locked-record span_mutex m left = ground arith
is_locked-record baggage_mutex m left = ground arith

-- A move changes the number of the holders as it changes the mutex.
Move-holds :
    {m n : Shared} {p q : Thread} (k : Mutex) (others : ℕ)
    → Move m p q n
    → holds k p + others ≡ one_if (is_locked k m)
    → holds k q + others ≡ one_if (is_locked k n)
Move-holds {m} k others (locks c free) h = take_lock k (mutex_of c) m others free h
Move-holds k others (loads c) h = h
Move-holds {m} k others (stores c copy) h = h ∙ sym (ap one_if (is_locked-span k m _))
Move-holds {m} k others (unlocks c) h = release_lock k (mutex_of c) m others h
Move-holds {m} k others (claims now options open_) h = h ∙ sym (ap one_if (is_locked-span k m _))
Move-holds k others (leaves now options over) h = h
Move-holds {m} k others (prepares now options) h = h ∙ sym (ap one_if (is_locked-span k m _))
Move-holds {m} k others (enters free) h = take_lock k baggage_mutex m others free h
Move-holds {m} k others (asks key free) h = take_lock k baggage_mutex m others free h
Move-holds k others (reads key) h = h
Move-holds {m} k others (leaves_baggage key value) h = release_lock k baggage_mutex m others h
Move-holds {m} k others copies h =
    release_lock k baggage_mutex m others h ∙ sym (ap one_if (is_locked-span k _ _))
Move-holds {m} k others (records left) h = h ∙ sym (ap one_if (is_locked-record k m left))

-- A mutex is locked by the one thread that holds it, or free.
abbrev pub IsExclusive : State → Type 0
IsExclusive s = (k : Mutex) → count (holds k) s.threads ≡ one_if (is_locked k s.shared)

Step-IsExclusive : {s t : State} → IsExclusive s → Step s t → IsExclusive t
Step-IsExclusive {s} ex (moves {p} {q} before after e move) k =
    let moved =
      Move-holds k (count (holds k) before + count (holds k) after) move
        (omega (arith, ex k, count_at (holds k) s.threads before after p e)) in
    omega (arith, moved, count-append (holds k) before (q ∷ after))

none_holds :
    (k : Mutex) (threads : List Thread) → All HasCalled threads → count (holds k) threads ≡ 0
none_holds k [] h = refl
none_holds k (waiting c ∷ threads) (_, h) = omega (arith, none_holds k threads h)
none_holds k (holding c ∷ threads) (bad, h) = absurd bad
none_holds k (loaded c copy ∷ threads) (bad, h) = absurd bad
none_holds k (stored c ∷ threads) (bad, h) = absurd bad
none_holds k (returned c ∷ threads) (bad, h) = absurd bad
none_holds k (finishing now options ∷ threads) (_, h) = omega (arith, none_holds k threads h)
none_holds k (claimed now options ∷ threads) (bad, h) = absurd bad
none_holds k (copying ∷ threads) (bad, h) = absurd bad
none_holds k (copied ∷ threads) (bad, h) = absurd bad
none_holds k (finished ∷ threads) (bad, h) = absurd bad
none_holds k (changed ∷ threads) (bad, h) = absurd bad
none_holds k (asking key ∷ threads) (_, h) = omega (arith, none_holds k threads h)
none_holds k (reading key ∷ threads) (bad, h) = absurd bad
none_holds k (found key value ∷ threads) (bad, h) = absurd bad
none_holds k (answered key value ∷ threads) (bad, h) = absurd bad

begin-IsExclusive :
    (has_recorder : Bool) (span : MockSpan) (threads : List Thread)
    → All HasCalled threads
    → IsExclusive (begin has_recorder span threads)
begin-IsExclusive has_recorder span threads h span_mutex = none_holds span_mutex threads h
begin-IsExclusive has_recorder span threads h baggage_mutex = none_holds baggage_mutex threads h

pub Reach-IsExclusive :
    {has_recorder : Bool} {span : MockSpan} {threads : List Thread} {s : State}
    → All HasCalled threads
    → Reach (begin has_recorder span threads) s
    → IsExclusive s
Reach-IsExclusive {has_recorder} {span} {threads} h start =
    begin-IsExclusive has_recorder span threads h
Reach-IsExclusive h (later r step) = Step-IsExclusive (Reach-IsExclusive h r) step

-- Threads call the methods of one span, and their steps are taken in any order. At any time at most one
-- of them is between taking and releasing the mutex of the span, and at most one between taking and
-- releasing the mutex of the baggage.
one_holder :
    (has_recorder : Bool) (span : MockSpan) (threads : List Thread) (s : State) (k : Mutex)
    → All HasCalled threads
    → Reach (begin has_recorder span threads) s
    → count (holds k) s.threads ≤ 1
one_holder has_recorder span threads s k h r = ground (arith, Reach-IsExclusive h r k)
