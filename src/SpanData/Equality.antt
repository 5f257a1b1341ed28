-- ===== src/SpanData/Equality.antt =====
-- What `operator==` and `operator!=` of mocktracer/include/opentracing/mocktracer/recorder.h compare.
use opentracing_cpp.Base.{
  ==_iff, ==_refl, ◌≡◌, refl, ◌↔◌, Bool, true, false, List, [], ◌∷◌, Bytes, arith, ap,
}
use opentracing_cpp.Base.Int.{ℤ, pos, negsuc}
use opentracing_cpp.Error.{same_bytes}
use opentracing_cpp.Error.Equality.{same_bytes_sound, same_bytes_refl}
use opentracing_cpp.SpanData.{
  SpanReferenceType, child_of_ref, follows_from_ref, Value, SpanContextData, SpanReferenceData,
  LogRecord, SpanData,
}
use opentracing_cpp.SpanData.Comparison.{
  equal_lists, equal_pairs, equal_types, equal_times, equal_contexts, equal_references,
  equal_log_records, equal_span_data, differing_span_data, Pointwise, SameItem, SameLog, SameData,
}

equal_lists_iff :
    {A : Type 0} (equal : A → A → Bool) (R : A → A → Type 0)
    → ((x y : A) → (equal x y ≡ true) ↔ R x y)
    → (xs ys : List A) → (equal_lists equal xs ys ≡ true) ↔ Pointwise R xs ys
equal_lists_iff equal R h [] [] = (λ _. tt, λ _. refl)
equal_lists_iff equal R h [] (y ∷ ys) = (λ e. absurd (cc), λ bad. absurd bad)
equal_lists_iff equal R h (x ∷ xs) [] = (λ e. absurd (cc), λ bad. absurd bad)
equal_lists_iff equal R h (x ∷ xs) (y ∷ ys) =
    let (to, from) = equal_lists_iff equal R h xs ys in
    let (first, back) = h x y in
    (λ e. (first (ground arith), to (ground arith)), λ (r, rs). ground (arith, back r, from rs))

Pointwise-eq : {A : Type 0} (xs ys : List A) → Pointwise (λ x y. x ≡ y) xs ys ↔ (xs ≡ ys)
Pointwise-eq xs ys = (to xs ys, λ e. rw (← e) (same xs))
  where
    to : {A : Type 0} (us vs : List A) → Pointwise (λ x y. x ≡ y) us vs → us ≡ vs
    to [] [] h = refl
    to [] (v ∷ vs) h = absurd h
    to (u ∷ us) [] h = absurd h
    to (u ∷ us) (v ∷ vs) (e, h) = λ i. e i ∷ to us vs h i

    same : {A : Type 0} (us : List A) → Pointwise (λ x y. x ≡ y) us us
    same [] = tt
    same (u ∷ us) = (refl, same us)

equal_types_iff : (a b : SpanReferenceType) → (equal_types a b ≡ true) ↔ (a ≡ b)
equal_types_iff child_of_ref child_of_ref = (λ _. refl, λ _. refl)
equal_types_iff child_of_ref follows_from_ref = (λ e. absurd (cc), λ e. absurd (cc))
equal_types_iff follows_from_ref child_of_ref = (λ e. absurd (cc), λ e. absurd (cc))
equal_types_iff follows_from_ref follows_from_ref = (λ _. refl, λ _. refl)

equal_times_iff : (a b : ℤ) → (equal_times a b ≡ true) ↔ (a ≡ b)
equal_times_iff (pos m) (pos n) = (λ e. ap pos ((==_iff m n).0 e), λ e. (==_iff m n).1 (cc))
equal_times_iff (pos m) (negsuc n) = (λ e. absurd (cc), λ e. absurd (cc))
equal_times_iff (negsuc m) (pos n) = (λ e. absurd (cc), λ e. absurd (cc))
equal_times_iff (negsuc m) (negsuc n) =
    (λ e. ap negsuc ((==_iff m n).0 e), λ e. (==_iff m n).1 (cc))

same_bytes_iff : (k j : Bytes) → (same_bytes k j ≡ true) ↔ (k ≡ j)
same_bytes_iff k j = (same_bytes_sound k j, λ e. rw (← e) (same_bytes_refl k))

equal_strings_iff : (p q : Bytes × Bytes) → (equal_pairs same_bytes p q ≡ true) ↔ (p ≡ q)
equal_strings_iff (k, v) (j, w) = (
  λ h. rw (same_bytes_sound k j (ground arith), same_bytes_sound v w (ground arith)) refl,
  λ e. ground (
    arith,
    (same_bytes_iff k j).1 (ap (λ (p : Bytes × Bytes). p.0) e),
    (same_bytes_iff v w).1 (ap (λ (p : Bytes × Bytes). p.1) e),
  ),
)

equal_items_iff :
    (equal_values : Value → Value → Bool) (p q : Bytes × Value)
    → (equal_pairs equal_values p q ≡ true) ↔ SameItem equal_values p q
equal_items_iff equal_values (k, v) (j, w) = (
  λ h. (same_bytes_sound k j (ground arith), ground arith),
  λ (e, h). ground (arith, (same_bytes_iff k j).1 e, h),
)

equal_references_iff :
    (lhs rhs : SpanReferenceData) → (equal_references lhs rhs ≡ true) ↔ (lhs ≡ rhs)
unfolding equal_references
equal_references_iff lhs rhs = (
  λ h.
      let kinds = (equal_types_iff lhs.reference_type rhs.reference_type).0 (ground arith) in
      let traces = (==_iff lhs.trace_id rhs.trace_id).0 (ground arith) in
      let spans = (==_iff lhs.span_id rhs.span_id).0 (ground arith) in
      λ i. record { reference_type = kinds i; trace_id = traces i; span_id = spans i },
  λ e. rw (← e) (
      ground (
        arith,
        (equal_types_iff lhs.reference_type lhs.reference_type).1 refl,
        ==_refl lhs.trace_id,
        ==_refl lhs.span_id,
      )),
)

equal_contexts_iff : (lhs rhs : SpanContextData) → (equal_contexts lhs rhs ≡ true) ↔ (lhs ≡ rhs)
unfolding equal_contexts
equal_contexts_iff lhs rhs =
    let items = equal_lists_iff (equal_pairs same_bytes) (λ p q. p ≡ q) equal_strings_iff in
    (
      λ h.
          let traces = (==_iff lhs.trace_id rhs.trace_id).0 (ground arith) in
          let spans = (==_iff lhs.span_id rhs.span_id).0 (ground arith) in
          let baggages =
            (Pointwise-eq lhs.baggage rhs.baggage).0
              ((items lhs.baggage rhs.baggage).0 (ground arith)) in
          λ i. record { trace_id = traces i; span_id = spans i; baggage = baggages i },
      λ e. rw (← e) (
          ground (
            arith,
            ==_refl lhs.trace_id,
            ==_refl lhs.span_id,
            (items lhs.baggage lhs.baggage).1 ((Pointwise-eq lhs.baggage lhs.baggage).1 refl),
          )),
    )

module _ (equal_values : Value → Value → Bool) where
  equal_log_records_iff :
      (lhs rhs : LogRecord)
      → (equal_log_records equal_values lhs rhs ≡ true) ↔ SameLog equal_values lhs rhs
  unfolding equal_log_records
  equal_log_records_iff lhs rhs =
      let items =
        equal_lists_iff (equal_pairs equal_values) (SameItem equal_values)
          (equal_items_iff equal_values) lhs.fields rhs.fields in
      let times = equal_times_iff lhs.timestamp rhs.timestamp in
      (
        λ h. record { timestamp = times.0 (ground arith); fields = items.0 (ground arith) },
        λ s. ground (arith, times.1 s.timestamp, items.1 s.fields),
      )

  -- `operator==` of two `SpanData` holds exactly if they have the same context, references, name and times,
  -- and as many tags and log records with the same keys and times, whose values are equal by the
  -- comparison of the variant. `operator!=` says the opposite.
  pub equal_span_data_iff :
      (lhs rhs : SpanData)
      → ((equal_span_data equal_values lhs rhs ≡ true) ↔ SameData equal_values lhs rhs)
        × ((differing_span_data equal_values lhs rhs ≡ false) ↔ SameData equal_values lhs rhs)
  unfolding equal_span_data differing_span_data
  equal_span_data_iff lhs rhs =
      let contexts = equal_contexts_iff lhs.span_context rhs.span_context in
      let lists =
        equal_lists_iff equal_references (λ p q. p ≡ q) equal_references_iff lhs.references
          rhs.references in
      let pointwise = Pointwise-eq lhs.references rhs.references in
      let names = same_bytes_iff lhs.operation_name rhs.operation_name in
      let starts = equal_times_iff lhs.start_timestamp rhs.start_timestamp in
      let durations = equal_times_iff lhs.duration rhs.duration in
      let tags =
        equal_lists_iff (equal_pairs equal_values) (SameItem equal_values)
          (equal_items_iff equal_values) lhs.tags rhs.tags in
      let logs =
        equal_lists_iff (equal_log_records equal_values) (SameLog equal_values)
          equal_log_records_iff lhs.logs rhs.logs in
      let to : equal_span_data equal_values lhs rhs ≡ true → SameData equal_values lhs rhs = λ h.
        record {
          span_context = contexts.0 (ground arith);
          references = pointwise.0 (lists.0 (ground arith));
          operation_name = names.0 (ground arith);
          start_timestamp = starts.0 (ground arith);
          duration = durations.0 (ground arith);
          tags = tags.0 (ground arith);
          logs = logs.0 (ground arith);
        } in
      let from : SameData equal_values lhs rhs → equal_span_data equal_values lhs rhs ≡ true = λ s.
        ground (
          arith,
          contexts.1 s.span_context,
          lists.1 (pointwise.1 s.references),
          names.1 s.operation_name,
          starts.1 s.start_timestamp,
          durations.1 s.duration,
          tags.1 s.tags,
          logs.1 s.logs,
        ) in
      ((to, from), (λ h. to (ground arith), λ s. ground (arith, from s)))
