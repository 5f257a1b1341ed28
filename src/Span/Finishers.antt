-- ===== src/Span/Finishers.antt =====
-- `FinishWithOptions` of mocktracer/src/mock_span.cpp called on one span by many threads, against one call
-- that no other thread disturbs.
use mathlib.Core.List.{Memᴰ}
use opentracing_cpp.Base.{
  ℕ, ◌+◌, ◌<◌, ◌≡◌, refl, ap, ◌∙◌, true, false, List, All, All-append, All-split, [], ◌∷◌, ◌++◌,
  map, arith, count, count-append, count_at, some, length,
}
use opentracing_cpp.Base.Int.{ℤ}
use opentracing_cpp.SpanData.{SpanData}
use opentracing_cpp.Recorder.{in_memory, in_memory_record_span}
use opentracing_cpp.Span.{FinishSpanOptions, MockSpan, finished_data, finish_with_options}
use opentracing_cpp.Span.Threads.{
  changed, asking, reading, found, answered, enters, asks, reads, leaves_baggage, Thread, waiting,
  holding, loaded, stored, returned, finishing, claimed, copying, copied, finished, Shared,
  prepared, with_context, locks, loads, stores, unlocks, claims, leaves, prepares, copies, records,
  State, Step, moves, begin, Reach, start, later, call_recorder,
}
use opentracing_cpp.Span.Exclusion.{HasCalled, one_if}
use opentracing_cpp.Span.Progress.{HasEnded}
use opentracing_cpp.Span.Claimed.{is_finisher, has_claimed, Counted, Reach-Counted, ended_counts}

-- The arguments of a call: what the clock shows, and the options.
abbrev pub Finish : Type 0
Finish = ℤ × FinishSpanOptions

abbrev pub finisher : Finish → Thread
finisher (now, options) = finishing now options

-- A span while one thread finishes it.
abbrev with_data : SpanData → MockSpan → MockSpan
with_data d span = record span { is_finished = true; data_ = d }

module _ (calls : List Finish) (span0 : MockSpan) where
  -- What has been made of the span, where a thread has come to.
  abbrev Says : Shared → Thread → Type 0
  Says m (waiting c) = ⊥
  Says m (holding c) = ⊥
  Says m (loaded c copy) = ⊥
  Says m (stored c) = ⊥
  Says m (returned c) = ⊥
  Says m (finishing now options) = Memᴰ (now, options) calls
  Says m (claimed now options) =
      Memᴰ (now, options) calls × ((m.span ≡ with_data span0.data_ span0) × (m.recorded ≡ []))
  Says m copying =
      (f : Finish) × (Memᴰ f calls
        × ((m.span ≡ with_data (prepared f.0 f.1 span0) span0) × (m.recorded ≡ [])))
  Says m copied =
      (f : Finish) × (Memᴰ f calls
        × ((m.span ≡ with_data (finished_data f.0 f.1 span0) span0) × (m.recorded ≡ [])))
  Says m finished = Unit
  Says m changed =
      (f : Finish) × (Memᴰ f calls
        × ((m.span ≡ with_data (prepared f.0 f.1 span0) span0) × (m.recorded ≡ [])))
  Says m (asking key) = ⊥
  Says m (reading key) = ⊥
  Says m (found key value) = ⊥
  Says m (answered key value) = ⊥

  -- What has been recorded at last.
  abbrev IsRecorded : Shared → Type 0
  IsRecorded m = (f : Finish) × Memᴰ f calls × (m.recorded ≡ finished_data f.0 f.1 span0 ∷ [])

  record Told (s : State) : Type 0 where
    says : All (Says s.shared) s.threads
    untouched :
        s.shared.span.is_finished ≡ false → (s.shared.span ≡ span0) × (s.shared.recorded ≡ [])
    recorded :
        s.shared.span.is_finished ≡ true → count has_claimed s.threads ≡ 0 → IsRecorded s.shared

  quiet : (m n : Shared) (t : Thread) → has_claimed t ≡ 0 → Says m t → Says n t
  quiet m n (waiting c) none h = h
  quiet m n (holding c) none h = h
  quiet m n (loaded c copy) none h = h
  quiet m n (stored c) none h = h
  quiet m n (returned c) none h = h
  quiet m n (finishing now options) none h = h
  quiet m n (claimed now options) none h = absurd (omega arith)
  quiet m n copying none h = absurd (omega arith)
  quiet m n copied none h = absurd (omega arith)
  quiet m n finished none h = h
  quiet m n changed none h = absurd (omega arith)
  quiet m n (asking key) none h = h
  quiet m n (reading key) none h = h
  quiet m n (found key value) none h = h
  quiet m n (answered key value) none h = h

  All-quiet :
      (m n : Shared) (threads : List Thread)
      → count has_claimed threads ≡ 0
      → All (Says m) threads
      → All (Says n) threads
  All-quiet m n [] none h = tt
  All-quiet m n (t ∷ threads) none (ht, hs) =
      (quiet m n t (omega arith) ht, All-quiet m n threads (omega arith) hs)

  -- The thread in the middle moves, and the others have not claimed the span.
  moved_on :
      (s : State) (m : Shared) (before after : List Thread) (p q : Thread)
      → All (Says s.shared) s.threads
      → s.threads ≡ before ++ p ∷ after
      → count has_claimed before + count has_claimed after ≡ 0
      → (Says s.shared p → Says m q)
      → All (Says m) (before ++ q ∷ after)
  moved_on s m before after p q says e none f =
      let (hb, (hp, ha)) = All-split (Says s.shared) before (p ∷ after) (rw e at says) in
      All-append (Says m) before (q ∷ after) (All-quiet s.shared m before (omega arith) hb)
        (f hp, All-quiet s.shared m after (omega arith) ha)

  said :
      {s : State} (before after : List Thread) (p : Thread)
      → Told s
      → s.threads ≡ before ++ p ∷ after
      → Says s.shared p
  said {s} before after p told e =
      (All-split (Says s.shared) before (p ∷ after) (rw e at told.says)).1.0

  -- The thread that has claimed the span works on, with the flag set.
  claimer-Told :
      {s : State} (m : Shared) (before after : List Thread) (p q : Thread)
      → Told s
      → s.threads ≡ before ++ p ∷ after
      → count has_claimed before + count has_claimed after ≡ 0
      → has_claimed q ≡ 1
      → m.span.is_finished ≡ true
      → Says m q
      → Told (record { shared = m; threads = before ++ q ∷ after })
  claimer-Told {s} m before after p q told e none working flag h = record {
    says = moved_on s m before after p q told.says e none (λ _. h);
    untouched = λ open_. absurd (cc);
    recorded =
        λ _ all_done. absurd (omega (arith, working, count-append has_claimed before (q ∷ after)));
  }

  others_alone :
      {s : State} {n : ℕ} (before after : List Thread) (p : Thread)
      → Counted n s
      → s.threads ≡ before ++ p ∷ after
      → one_if s.shared.span.is_finished ≡ has_claimed p
      → count has_claimed before + count has_claimed after ≡ 0
  others_alone {s} before after p inv e enough =
      omega (arith, inv.counts.1, enough, count_at has_claimed s.threads before after p e)

  Step-Told : {s t : State} {n : ℕ} → Counted n s → Told s → Step s t → Told t
  Step-Told inv told (moves before after e (locks c free)) =
      absurd (said before after (waiting c) told e)
  Step-Told inv told (moves before after e (loads c)) =
      absurd (said before after (holding c) told e)
  Step-Told inv told (moves before after e (stores c copy)) =
      absurd (said before after (loaded c copy) told e)
  Step-Told inv told (moves before after e (unlocks c)) =
      absurd (said before after (stored c) told e)
  Step-Told {s} inv told (moves before after e (claims now options open_)) =
      let p = finishing now options in
      let (same, nothing) = told.untouched open_ in
      claimer-Told {s = s} _ before after p (claimed now options) told e
        (others_alone before after p inv e (ground (arith, open_))) refl refl
        (
          said before after p told e,
          (ap (λ (r : MockSpan). record r { is_finished = true }) same, nothing),
        )
  Step-Told {s} inv told (moves before after e (leaves now options over)) =
      let p = finishing now options in
      let (hb, (hp, ha)) = All-split (Says s.shared) before (p ∷ after) (rw e at told.says) in
      record {
        says = All-append (Says s.shared) before (finished ∷ after) hb (tt, ha);
        untouched = told.untouched;
        recorded = λ flag none. told.recorded flag (
            omega (
              arith,
              none,
              count_at has_claimed s.threads before after p e,
              count-append has_claimed before (finished ∷ after),
            ));
      }
  Step-Told {s} inv told (moves before after e (prepares now options)) =
      let p = claimed now options in
      let (mem, (made, nothing)) = said before after p told e in
      let flag = ap (λ (r : MockSpan). r.is_finished) made in
      claimer-Told {s = s} _ before after p changed told e
        (others_alone before after p inv e (ground (arith, flag))) refl flag
        (
          (now, options),
          (
            mem,
            (
              unfold finished_data in
                  ap (λ (r : MockSpan). record r { data_ = prepared now options r }) made,
              nothing,
            ),
          ),
        )
  Step-Told {s} inv told (moves before after e (enters free)) =
      let (f, (mem, (made, nothing))) = said before after changed told e in
      let flag = ap (λ (r : MockSpan). r.is_finished) made in
      claimer-Told {s = s} _ before after changed copying told e
        (others_alone before after changed inv e (ground (arith, flag))) refl flag
        (f, (mem, (made, nothing)))
  Step-Told inv told (moves before after e (asks key free)) =
      absurd (said before after (asking key) told e)
  Step-Told inv told (moves before after e (reads key)) =
      absurd (said before after (reading key) told e)
  Step-Told inv told (moves before after e (leaves_baggage key value)) =
      absurd (said before after (found key value) told e)
  Step-Told {s} inv told (moves before after e copies) =
      let (f, (mem, (made, nothing))) = said before after copying told e in
      let flag = ap (λ (r : MockSpan). r.is_finished) made in
      claimer-Told {s = s} _ before after copying copied told e
        (others_alone before after copying inv e (ground (arith, flag))) refl flag
        (f, (mem, (unfold finished_data in ap with_context made, nothing)))
  Step-Told {s} inv told (moves before after e (records left)) =
      let (f, (mem, (made, nothing))) = said before after copied told e in
      let flag = ap (λ (r : MockSpan). r.is_finished) made in
      let alone = others_alone before after copied inv e (ground (arith, flag)) in
      simp inv.counts.0 (
        unfold call_recorder in
        record {
          says =
              moved_on s (call_recorder left s.shared) before after copied finished told.says e
                alone (λ _. tt);
          untouched = λ open_. absurd (cc);
          recorded = λ _ _. (
            f,
            mem,
            ap (λ (ds : List SpanData). ds ++ s.shared.span.data_ ∷ []) nothing
                ∙ ap (λ (r : MockSpan). r.data_ ∷ []) made,
          );
        })

  Says-finisher :
      (m : Shared) (called : List Finish)
      → ((f : Finish) → Memᴰ f called → Memᴰ f calls)
      → All (Says m) (map finisher called)
  Says-finisher m [] within = tt
  Says-finisher m ((now, options) ∷ called) within = (
    within (now, options) (Memᴰ.head refl),
    Says-finisher m called (λ f mem. within f (Memᴰ.tail mem)),
  )

HasCalled-finisher : (calls : List Finish) → All HasCalled (map finisher calls)
HasCalled-finisher [] = tt
HasCalled-finisher ((now, options) ∷ calls) = (tt, HasCalled-finisher calls)

count-finisher : (calls : List Finish) → count is_finisher (map finisher calls) ≡ length calls
count-finisher [] = refl
count-finisher ((now, options) ∷ calls) = omega (arith, count-finisher calls)

Reach-Told :
    {calls : List Finish} {span : MockSpan} {s : State}
    → span.is_finished ≡ false
    → Reach (begin true span (map finisher calls)) s
    → Told calls span s
Reach-Told {calls} {span} open_ start = record {
  says =
      Says-finisher calls span (begin true span (map finisher calls)).shared calls (λ f mem. mem);
  untouched = λ _. (refl, refl);
  recorded = λ flag _. absurd (cc);
}
Reach-Told {calls} {span} open_ (later r step) =
    Step-Told calls span (Reach-Counted (HasCalled-finisher calls) open_ r)
      (Reach-Told {calls = calls} {span = span} open_ r) step

-- Threads call `FinishWithOptions` on a span that is not finished and has a recorder, each with its own
-- options, and their steps are taken in any order. When all have returned, what the recorder has been
-- given is what one of these calls alone would have given to an empty `InMemoryRecorder`.
pub finishers_linear :
    (span : MockSpan) (calls : List Finish) (s : State) (left : SpanData → SpanData)
    → span.is_finished ≡ false
    → Reach (begin true span (map finisher calls)) s
    → 0 < length calls
    → All HasEnded s.threads
    → (f : Finish) × Memᴰ f calls
      × ((finish_with_options (in_memory left) f.0 f.1 span (some (record { spans = [] }))).1
          ≡ some (record { spans = s.shared.recorded }))
unfolding finish_with_options in_memory_record_span
finishers_linear span calls s left open_ r some_call ended =
    let inv = Reach-Counted (HasCalled-finisher calls) open_ r in
    let (none, exchanged) = ended_counts s.threads ended in
    let flag : s.shared.span.is_finished ≡ true =
      ground (arith, inv.counts.2, exchanged, inv.finishers_stay, count-finisher calls) in
    let told = Reach-Told {calls = calls} {span = span} open_ r in
    let (f, mem, e) = told.recorded flag none in (f, mem, simp (open_, e) refl)
