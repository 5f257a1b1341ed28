-- ===== src/Span/Calls.antt =====
-- What sequences of calls of the methods of mocktracer/src/mock_span.cpp do to a span.
use opentracing_cpp.Base.{
  ◌≡◌, refl, ◌∙◌, ◌⊎◌, inl, inr, true, false, List, [], ◌∷◌, Option, some, Bytes, All,
}
use opentracing_cpp.Base.Int.{ℤ}
use opentracing_cpp.SpanData.{Value, SpanData}
use opentracing_cpp.Recorder.{Recorder}
use opentracing_cpp.Span.{
  FinishSpanOptions, MockSpan, finished_data, finish_with_options, finish, destroy, apply_all,
  default_finish, set_operation_name, set_tag, log, set_baggage_item,
}

-- The calls that change a span, each with its arguments and what the clocks show.
pub data Call : Type 0 where
  sets_operation_name : Bytes → Call
  sets_tag : Bytes → Value → Call
  logs : ℤ → List (Bytes × Value) → Call
  sets_baggage_item : Bytes → Bytes → Call
  finishes : ℤ → ℤ → List (FinishSpanOptions → FinishSpanOptions) → Call
  finishes_with : ℤ → FinishSpanOptions → Call

module _ {R : Type 0} (recorder : Recorder R) where
  unfoldable pub step : Call → MockSpan × Option R → MockSpan × Option R
  step (sets_operation_name name) (span, r) = (set_operation_name name span, r)
  step (sets_tag key value) (span, r) = (set_tag key value span, r)
  step (logs timestamp fields) (span, r) = (log timestamp fields span, r)
  step (sets_baggage_item key value) (span, r) = (set_baggage_item key value span, r)
  step (finishes steady_now later options) (span, r) =
      finish recorder steady_now later options span r
  step (finishes_with steady_now options) (span, r) =
      finish_with_options recorder steady_now options span r

  unfoldable pub run : List Call → MockSpan × Option R → MockSpan × Option R
  run [] s = s
  run (c ∷ calls) s = run calls (step c s)

  -- The recorder has not been called by an unfinished span, and once by a finished one.
  abbrev Recorded : R → MockSpan × Option R → Type 0
  Recorded r (span, now) =
      ((span.is_finished ≡ false) × (now ≡ some r))
      ⊎ ((span.is_finished ≡ true)
          × ((data_ : SpanData) × (now ≡ some (recorder.record_span data_ r).0)))

  -- A finished span ignores every further call to finish it: nothing changes.
  finish_twice :
      (steady_now : ℤ) (options : FinishSpanOptions) (span : MockSpan) (r : Option R)
      → span.is_finished ≡ true
      → finish_with_options recorder steady_now options span r ≡ (span, r)
  unfolding finish_with_options
  finish_twice steady_now options span r closed = simp closed

  -- The first call to finish hands the recorder the finished data.
  finish_first :
      (steady_now : ℤ) (options : FinishSpanOptions) (span : MockSpan) (r : R)
      → span.is_finished ≡ false
      → ((finish_with_options recorder steady_now options span (some r)).0.is_finished ≡ true)
        × ((finish_with_options recorder steady_now options span (some r)).1
            ≡ some (recorder.record_span (finished_data steady_now options span) r).0)
  unfolding finish_with_options
  finish_first steady_now options span r open_ = (simp open_, simp open_)

  finish_with_options-Recorded :
      (r : R) (steady_now : ℤ) (options : FinishSpanOptions) (span : MockSpan) (now : Option R)
      → Recorded r (span, now)
      → Recorded r (finish_with_options recorder steady_now options span now)
  finish_with_options-Recorded r steady_now options span now (inl (open_, e)) =
      let (closed, called) = finish_first steady_now options span r open_ in
      rw e (inr (closed, (finished_data steady_now options span, called)))
  finish_with_options-Recorded r steady_now options span now (inr (closed, d)) =
      rw (finish_twice steady_now options span now closed) (inr (closed, d))

  step-Recorded :
      (r : R) (c : Call) (s : MockSpan × Option R) → Recorded r s → Recorded r (step c s)
  unfolding step set_operation_name set_tag log set_baggage_item finish
  step-Recorded r (sets_operation_name name) (span, now) h = h
  step-Recorded r (sets_tag key value) (span, now) h = h
  step-Recorded r (logs timestamp fields) (span, now) h = h
  step-Recorded r (sets_baggage_item key value) (span, now) h = h
  step-Recorded r (finishes steady_now later options) (span, now) h =
      finish_with_options-Recorded r later _ span now h
  step-Recorded r (finishes_with steady_now options) (span, now) h =
      finish_with_options-Recorded r steady_now options span now h

  run-Recorded :
      (r : R) (calls : List Call) (s : MockSpan × Option R)
      → Recorded r s
      → Recorded r (run calls s)
  unfolding run
  run-Recorded r [] s h = h
  run-Recorded r (c ∷ calls) s h = run-Recorded r calls (step c s) (step-Recorded r c s h)

  -- Whatever is called on a span that is not finished, and however often it is finished by these calls
  -- and by its destruction, its recorder has had exactly one call of `RecordSpan` in the end.
  pub destroy-run :
      (calls : List Call) (span : MockSpan) (r : R) (steady_now later : ℤ)
      → span.is_finished ≡ false
      → (data_ : SpanData) × ((let (span', r') = run calls (span, some r) in
            destroy recorder steady_now later span' r')
          ≡ some (recorder.record_span data_ r).0)
  destroy-run calls span r steady_now later open_ =
      last (run calls (span, some r)) (run-Recorded r calls (span, some r) (inl (open_, refl)))
    where
      last :
          (s : MockSpan × Option R)
          → Recorded r s
          → (data_ : SpanData) × (destroy recorder steady_now later s.0 s.1
              ≡ some (recorder.record_span data_ r).0)
      last (span', now) (inl (still_open, e)) =
          let options = apply_all [] (default_finish steady_now) in
          (
            finished_data later options span',
            unfold destroy finish in
                simp (still_open, e) (finish_first later options span' r still_open).1,
          )
      last (span', now) (inr (closed, (data_, e))) = (data_, unfold destroy in simp closed e)

  -- The calls that do not finish the span.
  abbrev pub IsQuiet : Call → Type 0
  IsQuiet (sets_operation_name name) = Unit {0}
  IsQuiet (sets_tag key value) = Unit {0}
  IsQuiet (logs timestamp fields) = Unit {0}
  IsQuiet (sets_baggage_item key value) = Unit {0}
  IsQuiet (finishes steady_now later options) = ⊥
  IsQuiet (finishes_with steady_now options) = ⊥

  run-IsQuiet :
      (calls : List Call) (span : MockSpan) (now : Option R)
      → All IsQuiet calls
      → ((run calls (span, now)).0.is_finished ≡ span.is_finished)
        × ((run calls (span, now)).1 ≡ now)
  unfolding run step set_operation_name set_tag log set_baggage_item
  run-IsQuiet [] span now h = (refl, refl)
  run-IsQuiet (sets_operation_name name ∷ calls) span now (_, h) = run-IsQuiet calls _ now h
  run-IsQuiet (sets_tag key value ∷ calls) span now (_, h) = run-IsQuiet calls _ now h
  run-IsQuiet (logs timestamp fields ∷ calls) span now (_, h) = run-IsQuiet calls _ now h
  run-IsQuiet (sets_baggage_item key value ∷ calls) span now (_, h) = run-IsQuiet calls _ now h
  run-IsQuiet (finishes steady_now later options ∷ calls) span now (bad, h) = absurd bad
  run-IsQuiet (finishes_with steady_now options ∷ calls) span now (bad, h) = absurd bad

  run-finished :
      (calls : List Call) (span : MockSpan) (now : Option R)
      → span.is_finished ≡ true
      → ((run calls (span, now)).0.is_finished ≡ true) × ((run calls (span, now)).1 ≡ now)
  unfolding run step set_operation_name set_tag log set_baggage_item finish
  run-finished [] span now h = (h, refl)
  run-finished (sets_operation_name name ∷ calls) span now h = run-finished calls _ now h
  run-finished (sets_tag key value ∷ calls) span now h = run-finished calls _ now h
  run-finished (logs timestamp fields ∷ calls) span now h = run-finished calls _ now h
  run-finished (sets_baggage_item key value ∷ calls) span now h = run-finished calls _ now h
  run-finished (finishes steady_now later options ∷ calls) span now h =
      rw
        (
          finish_twice later (apply_all options (default_finish steady_now)) span now h,
          run,
          step,
          finish,
        )
        (run-finished calls span now h)
  run-finished (finishes_with steady_now options ∷ calls) span now h =
      rw (finish_twice steady_now options span now h, run, step) (run-finished calls span now h)

  -- For a span that is not finished: after some calls that do not finish it, a first call that does, any
  -- further calls and the destruction, the recorder has been given the span's data as the first call to
  -- finish it found them, and nothing else.
  pub recorded_data :
      (before after : List Call) (span : MockSpan) (r : R) (finish_now : ℤ)
      (options : FinishSpanOptions) (steady_now later : ℤ)
      → All IsQuiet before
      → span.is_finished ≡ false
      → (let (span1, r1) = run before (span, some r) in
          let (span2, r2) = finish_with_options recorder finish_now options span1 r1 in
          let (span3, r3) = run after (span2, r2) in destroy recorder steady_now later span3 r3)
        ≡ some
            (recorder.record_span
              (finished_data finish_now options (run before (span, some r)).0)
              r).0
  unfolding destroy
  recorded_data before after span r finish_now options steady_now later quiet open_ =
      let (same, untouched) = run-IsQuiet before span (some r) quiet in
      let span1 = (run before (span, some r)).0 in
      let (closed, called) = finish_first finish_now options span1 r (same ∙ open_) in
      let s2 = finish_with_options recorder finish_now options span1 (some r) in
      let (closed3, kept) = run-finished after s2.0 s2.1 closed in
      rw untouched (simp closed3 (kept ∙ called))
