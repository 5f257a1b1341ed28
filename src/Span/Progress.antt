-- ===== src/Span/Progress.antt =====
-- The threads that call methods of mocktracer/src/mock_span.cpp on one span block each other at no time.
use opentracing_cpp.Base.{
  ℕ, suc, ◌+◌, ◌*◌, ◌==◌, length, ◌≤◌, ◌<◌, ◌≡◌, Bool, ◌⊎◌, inl, inr, refl, ap, false, List, All,
  [], ◌∷◌, ◌++◌, arith, count, count-append, count_at, Bool-cases,
}
use opentracing_cpp.Span.{MockSpan}
use opentracing_cpp.Span.Threads.{
  changed, asking, reading, found, answered, enters, asks, reads, leaves_baggage, Mutex,
  baggage_mutex, mutex_of, Thread, waiting, holding, loaded, stored, returned, finishing, claimed,
  copying, copied, finished, Shared, is_locked, Move, locks, loads, stores, unlocks, claims, leaves,
  prepares, copies, records, State, Step, moves, begin, HasNoRace, Reach, start, later,
}
use opentracing_cpp.Span.Exclusion.{holds, HasCalled, IsExclusive, Reach-IsExclusive}

-- The most steps that a thread has still to make.
abbrev pub remaining : Thread → ℕ
remaining (waiting c) = 4
remaining (holding c) = 3
remaining (loaded c copy) = 2
remaining (stored c) = 1
remaining (returned c) = 0
remaining (finishing now options) = 5
remaining (claimed now options) = 4
remaining copying = 2
remaining copied = 1
remaining finished = 0
remaining changed = 3
remaining (asking key) = 3
remaining (reading key) = 2
remaining (found key value) = 1
remaining (answered key value) = 0

abbrev pub HasEnded : Thread → Type 0
HasEnded t = remaining t ≡ 0

Move-remaining : {m n : Shared} {p q : Thread} → Move m p q n → remaining q < remaining p
Move-remaining (locks c free) = omega arith
Move-remaining (loads c) = omega arith
Move-remaining (stores c copy) = omega arith
Move-remaining (unlocks c) = omega arith
Move-remaining (claims now options open_) = omega arith
Move-remaining (leaves now options over) = omega arith
Move-remaining (prepares now options) = omega arith
Move-remaining copies = omega arith
Move-remaining (records left) = omega arith
Move-remaining (enters free) = omega arith
Move-remaining (asks key free) = omega arith
Move-remaining (reads key) = omega arith
Move-remaining (leaves_baggage key value) = omega arith

Step-remaining : {s t : State} → Step s t → count remaining t.threads < count remaining s.threads
Step-remaining {s} (moves {p} {q} before after e move) = omega (
  arith,
  Move-remaining move,
  count_at remaining s.threads before after p e,
  count-append remaining before (q ∷ after),
)

-- A thread in a list that can move, in these circumstances.
abbrev Mover : Shared → List Thread → Type 0
Mover m threads =
    (before : List Thread) × (p : Thread) × (after : List Thread) × (threads ≡ before ++ p ∷ after)
    × (q : Thread) × (n : Shared) × Move m p q n

cons-Mover :
    (m : Shared) (t : Thread) (threads : List Thread) → Mover m threads → Mover m (t ∷ threads)
cons-Mover m t threads (before, p, after, e, q, n, move) =
    (t ∷ before, p, after, ap (λ ts. t ∷ ts) e, q, n, move)

-- At its end, or before the mutex.
abbrev Rests : Thread → Type 0
Rests (waiting c) = Unit
Rests (holding c) = ⊥
Rests (loaded c copy) = ⊥
Rests (stored c) = ⊥
Rests (returned c) = Unit
Rests (finishing now options) = ⊥
Rests (claimed now options) = ⊥
Rests copying = ⊥
Rests copied = ⊥
Rests finished = Unit
Rests changed = Unit
Rests (asking key) = Unit
Rests (reading key) = ⊥
Rests (found key value) = ⊥
Rests (answered key value) = Unit

here :
    (m : Shared) (p q : Thread) (n : Shared) (threads : List Thread)
    → Move m p q n
    → Mover m (p ∷ threads)
here m p q n threads move = ([], p, threads, refl, q, n, move)

past :
    (m : Shared) (t : Thread) (threads : List Thread)
    → Rests t
    → Mover m threads ⊎ All Rests threads
    → Mover m (t ∷ threads) ⊎ All Rests (t ∷ threads)
past m t threads h (inl mover) = inl (cons-Mover m t threads mover)
past m t threads h (inr rest) = inr (h, rest)

search_threads : (m : Shared) (threads : List Thread) → Mover m threads ⊎ All Rests threads
search_threads m [] = inr tt
search_threads m (holding c ∷ threads) = inl (here m _ _ _ threads (loads c))
search_threads m (loaded c copy ∷ threads) = inl (here m _ _ _ threads (stores c copy))
search_threads m (stored c ∷ threads) = inl (here m _ _ _ threads (unlocks c))
search_threads m (finishing now options ∷ threads) = elim (Bool-cases m.span.is_finished) [
  | inl over ↦ inl (here m _ _ _ threads (leaves now options over))
  | inr open_ ↦ inl (here m _ _ _ threads (claims now options open_))
]
search_threads m (copying ∷ threads) = inl (here m _ _ _ threads copies)
search_threads m (copied ∷ threads) = inl (here m _ _ _ threads (records (λ d. d)))
search_threads m (claimed now options ∷ threads) = inl (here m _ _ _ threads (prepares now options))
search_threads m (reading key ∷ threads) = inl (here m _ _ _ threads (reads key))
search_threads m (found key value ∷ threads) = inl (here m _ _ _ threads (leaves_baggage key value))
search_threads m (changed ∷ threads) = past m changed threads tt (search_threads m threads)
search_threads m (asking key ∷ threads) = past m (asking key) threads tt (search_threads m threads)
search_threads m (answered key value ∷ threads) =
    past m (answered key value) threads tt (search_threads m threads)
search_threads m (waiting c ∷ threads) = past m (waiting c) threads tt (search_threads m threads)
search_threads m (returned c ∷ threads) = past m (returned c) threads tt (search_threads m threads)
search_threads m (finished ∷ threads) = past m finished threads tt (search_threads m threads)

resting_holds :
    (k : Mutex) (threads : List Thread) → All Rests threads → count (holds k) threads ≡ 0
resting_holds k [] h = refl
resting_holds k (waiting c ∷ threads) (_, h) = omega (arith, resting_holds k threads h)
resting_holds k (holding c ∷ threads) (bad, h) = absurd bad
resting_holds k (loaded c copy ∷ threads) (bad, h) = absurd bad
resting_holds k (stored c ∷ threads) (bad, h) = absurd bad
resting_holds k (returned c ∷ threads) (_, h) = omega (arith, resting_holds k threads h)
resting_holds k (finishing now options ∷ threads) (bad, h) = absurd bad
resting_holds k (claimed now options ∷ threads) (bad, h) = absurd bad
resting_holds k (copying ∷ threads) (bad, h) = absurd bad
resting_holds k (copied ∷ threads) (bad, h) = absurd bad
resting_holds k (finished ∷ threads) (_, h) = omega (arith, resting_holds k threads h)
resting_holds k (changed ∷ threads) (_, h) = omega (arith, resting_holds k threads h)
resting_holds k (asking key ∷ threads) (_, h) = omega (arith, resting_holds k threads h)
resting_holds k (reading key ∷ threads) (bad, h) = absurd bad
resting_holds k (found key value ∷ threads) (bad, h) = absurd bad
resting_holds k (answered key value ∷ threads) (_, h) = omega (arith, resting_holds k threads h)

-- Where all rest and no mutex is locked, the first that waits can take its mutex.
waiting_moves :
    (m : Shared) (threads : List Thread)
    → ((k : Mutex) → is_locked k m ≡ false)
    → All Rests threads
    → 0 < count remaining threads
    → Mover m threads
waiting_moves m [] free h some_left = absurd (omega arith)
waiting_moves m (waiting c ∷ threads) free h some_left =
    here m _ _ _ threads (locks c (free (mutex_of c)))
waiting_moves m (holding c ∷ threads) free (bad, h) some_left = absurd bad
waiting_moves m (loaded c copy ∷ threads) free (bad, h) some_left = absurd bad
waiting_moves m (stored c ∷ threads) free (bad, h) some_left = absurd bad
waiting_moves m (returned c ∷ threads) free (_, h) some_left =
    cons-Mover m _ threads (waiting_moves m threads free h (omega arith))
waiting_moves m (finishing now options ∷ threads) free (bad, h) some_left = absurd bad
waiting_moves m (claimed now options ∷ threads) free (bad, h) some_left = absurd bad
waiting_moves m (changed ∷ threads) free (_, h) some_left =
    here m _ _ _ threads (enters (free baggage_mutex))
waiting_moves m (asking key ∷ threads) free (_, h) some_left =
    here m _ _ _ threads (asks key (free baggage_mutex))
waiting_moves m (reading key ∷ threads) free (bad, h) some_left = absurd bad
waiting_moves m (found key value ∷ threads) free (bad, h) some_left = absurd bad
waiting_moves m (answered key value ∷ threads) free (_, h) some_left =
    cons-Mover m _ threads (waiting_moves m threads free h (omega arith))
waiting_moves m (copying ∷ threads) free (bad, h) some_left = absurd bad
waiting_moves m (copied ∷ threads) free (bad, h) some_left = absurd bad
waiting_moves m (finished ∷ threads) free (_, h) some_left =
    cons-Mover m _ threads (waiting_moves m threads free h (omega arith))

taken : (s : State) → Mover s.shared s.threads → (t : State) × Step s t
taken s (before, p, after, e, q, n, move) = (_, moves before after e move)

goes_further : (s : State) → IsExclusive s → 0 < count remaining s.threads → (t : State) × Step s t
goes_further s ex some_left = elim (search_threads s.shared s.threads) [
  | inl mover ↦ taken s mover
  | inr rest ↦ taken s (
      waiting_moves s.shared s.threads (λ k. ground (arith, ex k, resting_holds k s.threads rest))
        rest some_left)
]

ended : (threads : List Thread) → count remaining threads ≡ 0 → All HasEnded threads
ended [] h = tt
ended (t ∷ threads) h = (omega arith, ended threads (omega arith))

-- A run of so many steps.
pub data Run (s0 : State) : ℕ → State → Type 0 where
  starts : Run s0 0 s0
  goes_on : {n : ℕ} {s t : State} → Run s0 n s → Step s t → Run s0 (suc n) t

Run-Reach : {s0 s : State} {n : ℕ} → Run s0 n s → Reach s0 s
Run-Reach starts = start
Run-Reach (goes_on r step) = later (Run-Reach r) step

Run-remaining :
    {s0 s : State} {n : ℕ} → Run s0 n s → n + count remaining s.threads ≤ count remaining s0.threads
Run-remaining starts = omega arith
Run-remaining (goes_on r step) = omega (arith, Run-remaining r, Step-remaining step)

at_most_five : (threads : List Thread) → count remaining threads ≤ 5 * length threads
at_most_five [] = omega arith
at_most_five (waiting c ∷ threads) = omega (arith, at_most_five threads)
at_most_five (holding c ∷ threads) = omega (arith, at_most_five threads)
at_most_five (loaded c copy ∷ threads) = omega (arith, at_most_five threads)
at_most_five (stored c ∷ threads) = omega (arith, at_most_five threads)
at_most_five (returned c ∷ threads) = omega (arith, at_most_five threads)
at_most_five (finishing now options ∷ threads) = omega (arith, at_most_five threads)
at_most_five (claimed now options ∷ threads) = omega (arith, at_most_five threads)
at_most_five (copying ∷ threads) = omega (arith, at_most_five threads)
at_most_five (copied ∷ threads) = omega (arith, at_most_five threads)
at_most_five (finished ∷ threads) = omega (arith, at_most_five threads)
at_most_five (changed ∷ threads) = omega (arith, at_most_five threads)
at_most_five (asking key ∷ threads) = omega (arith, at_most_five threads)
at_most_five (reading key ∷ threads) = omega (arith, at_most_five threads)
at_most_five (found key value ∷ threads) = omega (arith, at_most_five threads)
at_most_five (answered key value ∷ threads) = omega (arith, at_most_five threads)

-- Threads make one call each on one span: `SetOperationName`, `SetTag`, `Log`, `SetBaggageItem`,
-- `BaggageItem` or `FinishWithOptions`, of which the first three are not called beside the last, since they
-- would race for `data_`. Their steps are taken in any order. No run has more steps than five times the
-- number of the threads, and wherever a run has come to, a further step can be taken or all threads have
-- returned: there is no deadlock, and every run that is not broken off ends with all calls returned.
pub no_deadlock :
    (has_recorder : Bool) (span : MockSpan) (threads : List Thread) (s : State) (n : ℕ)
    → All HasCalled threads
    → HasNoRace threads
    → Run (begin has_recorder span threads) n s
    → (n ≤ 5 * length threads) × (((t : State) × Step s t) ⊎ All HasEnded s.threads)
no_deadlock has_recorder span threads s n h _ r = (
  omega (arith, Run-remaining r, at_most_five threads),
  elim (Bool-cases (count remaining s.threads == 0)) [
    | inl none_left ↦ inr (ended s.threads (ground arith))
    | inr some_left ↦ inl (goes_further s (Reach-IsExclusive h (Run-Reach r)) (ground arith))
  ],
)
