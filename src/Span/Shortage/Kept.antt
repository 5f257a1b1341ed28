-- ===== src/Span/Shortage/Kept.antt =====
-- What the calls of the setters of mocktracer/src/mock_span.cpp leave where memory is short.
use opentracing_cpp.Base.{
  ◌≡◌, refl, true, false, List, [], ◌∷◌, Option, none, some, Bytes, ◌∙◌, ◌⊎◌, inl, inr, ap, map,
}
use opentracing_cpp.Heap.{Heap, done, ◌>>◌}
use opentracing_cpp.Dict.{find}
use opentracing_cpp.SpanData.{Value, null}
use opentracing_cpp.Span.{set_operation_name, log, set_baggage_item}
use opentracing_cpp.Span.Threads.{
  Setter, sets_operation_name, sets_tag, logs, sets_baggage_item, apply,
}
use opentracing_cpp.Span.Shortage.{reserve, copy_value, copy_fields}
use opentracing_cpp.Span.Shortage.Setters.{
  Short, on_span, set_value, insert_key, assign_tag, body, call, run,
}
use opentracing_cpp.Span.Shortage.Atomic.{
  set_value_twice, modify-IsAtomic, quiet-IsAtomic, reserve-IsQuiet, copy_value-IsQuiet,
  copy_fields-IsQuiet, allocate-IsAtomic, copy_value-enough, copy_fields-enough, reserve-enough,
}

-- What a call can come to: all that it is to do, or another value of a tag, or none.
pub data Effect : Type 0 where
  made : Setter → Effect
  spoiled : Bytes → Option Value → Effect

-- A setter does to a span of which the tags stand apart what it does to a span.
abbrev pub apply_short : Setter → Short → Short
apply_short (sets_tag key value) s = set_value key (some value) s
apply_short c s = on_span (apply c) s

abbrev pub take_effect : Effect → Short → Short
take_effect (made c) s = apply_short c s
take_effect (spoiled key value) s = set_value key value s

abbrev pub take_effects : List Effect → Short → Short
take_effects [] s = s
take_effects (e ∷ effects) s = take_effects effects (take_effect e s)

-- Calls that have been made, dropped, or have spoiled their tag, each at its place.
pub data Survives (abandoned : Value → Option Value) : List Setter → List Effect → Type 0 where
  no_calls : Survives abandoned [] []
  keeps :
      {calls : List Setter} {effects : List Effect} (c : Setter)
      → Survives abandoned calls effects
      → Survives abandoned (c ∷ calls) (made c ∷ effects)
  drops :
      {calls : List Setter} {effects : List Effect} (c : Setter)
      → Survives abandoned calls effects
      → Survives abandoned (c ∷ calls) effects
  spoils :
      {calls : List Setter} {effects : List Effect} (key : Bytes) (value : Value)
      → Survives abandoned calls effects
      → Survives abandoned (sets_tag key value ∷ calls) (spoiled key (abandoned value) ∷ effects)

module _ (abandoned : Value → Option Value) where
  -- The span with the value for the key, or with what a failed assignment leaves.
  abbrev IsTagged : Bytes → Value → Short → Short → Type 0
  IsTagged key value s after =
      (after ≡ set_value key (some value) s) ⊎ (after ≡ set_value key (abandoned value) s)

  -- What a call can leave.
  abbrev Leaves : Setter → Short → Short → Type 0
  Leaves c s after =
      (after ≡ apply_short c s)
      ⊎ ((after ≡ s)
          ⊎ ((key : Bytes) × (value : Value) × (c ≡ sets_tag key value)
              × (after ≡ set_value key (abandoned value) s)))

  assign_tag-IsTagged :
      (key : Bytes) (value : Value) (s : Short) (heap : Heap)
      → IsTagged key value s (assign_tag abandoned key value s heap).1
  assign_tag-IsTagged key value s heap =
      let start = set_value key (abandoned value) s in
      elim (quiet-IsAtomic (copy_value value) _ (set_value key (some value))
        (copy_value-IsQuiet value) (modify-IsAtomic (set_value key (some value))) start heap) [
          | inl e ↦ inl (e ∙ set_value_twice key (some value) (abandoned value) s)
          | inr e ↦ inr e
        ]

  inserted-IsTagged :
      (key : Bytes) (value : Value) (s : Short) (heap : Heap)
      → IsTagged key value s (assign_tag abandoned key value (set_value key (some null) s) heap).1
  inserted-IsTagged key value s heap =
      elim (assign_tag-IsTagged key value (set_value key (some null) s) heap) [
        | inl e ↦ inl (e ∙ set_value_twice key (some value) (some null) s)
        | inr e ↦ inr (e ∙ set_value_twice key (abandoned value) (some null) s)
      ]

  insert_key-IsTagged :
      (key : Bytes) (value : Value) (old : Option (Option Value)) (s : Short) (heap : Heap)
      → (((insert_key key old >> assign_tag abandoned key value) s heap).1 ≡ s)
        ⊎ IsTagged key value s ((insert_key key old >> assign_tag abandoned key value) s heap).1
  insert_key-IsTagged key value (some old) s heap = inr (assign_tag-IsTagged key value s heap)
  insert_key-IsTagged key value none s [] = inr (inserted-IsTagged key value s [])
  insert_key-IsTagged key value none s (true ∷ heap) = inr (inserted-IsTagged key value s heap)
  insert_key-IsTagged key value none s (false ∷ heap) = inl refl

  set_tag-IsTagged :
      (key : Bytes) (value : Value) (s : Short) (heap : Heap)
      → ((body abandoned (sets_tag key value) s heap).1 ≡ s)
        ⊎ IsTagged key value s (body abandoned (sets_tag key value) s heap).1
  unfolding body
  set_tag-IsTagged key value s [] = insert_key-IsTagged key value (find key s.tags) s []
  set_tag-IsTagged key value s (true ∷ heap) =
      insert_key-IsTagged key value (find key s.tags) s heap
  set_tag-IsTagged key value s (false ∷ heap) = inl refl

  call-Leaves : (c : Setter) (s : Short) (heap : Heap) → Leaves c s (call abandoned c s heap).0
  unfolding call body apply
  call-Leaves (sets_operation_name name) s heap =
      elim (allocate-IsAtomic _ _ (modify-IsAtomic (on_span (set_operation_name name))) s heap) [
        | inl e ↦ inl e
        | inr e ↦ inr (inl e)
      ]
  call-Leaves (sets_tag key value) s heap = elim (set_tag-IsTagged key value s heap) [
    | inl e ↦ inr (inl e)
    | inr (inl e) ↦ inl e
    | inr (inr e) ↦ inr (inr (key, value, refl, e))
  ]
  call-Leaves (logs timestamp fields) s heap =
      elim (quiet-IsAtomic (reserve fields) _ _ (reserve-IsQuiet fields)
        (quiet-IsAtomic (copy_fields fields) _ _ (copy_fields-IsQuiet fields)
          (allocate-IsAtomic _ _ (modify-IsAtomic (on_span (log timestamp fields)))))
        s heap) [ inl e ↦ inl e | inr e ↦ inr (inl e) ]
  call-Leaves (sets_baggage_item key value) s heap =
      elim (allocate-IsAtomic _ _
        (allocate-IsAtomic _ _
          (allocate-IsAtomic _ _ (modify-IsAtomic (on_span (set_baggage_item key value)))))
        s heap) [ inl e ↦ inl e | inr e ↦ inr (inl e) ]

  spoils_at :
      {calls : List Setter} {effects : List Effect} (c : Setter) (key : Bytes) (value : Value)
      → c ≡ sets_tag key value
      → Survives abandoned calls effects
      → Survives abandoned (c ∷ calls) (spoiled key (abandoned value) ∷ effects)
  spoils_at c key value e survive = rw e (spoils key value survive)

  run-effects :
      (calls : List Setter) (s : Short) (heap : Heap)
      → (effects : List Effect) × Survives abandoned calls effects
        × ((run abandoned calls s heap).0 ≡ take_effects effects s)
  unfolding run
  run-effects [] s heap = ([], no_calls, refl)
  run-effects (c ∷ calls) s heap =
      let (after, rest) = call abandoned c s heap in
      let (effects, survive, same) = run-effects calls after rest in
      elim (call-Leaves c s heap) [
        | inl e ↦ (made c ∷ effects, keeps c survive, same ∙ ap (take_effects effects) e)
        | inr (inl e) ↦ (effects, drops c survive, same ∙ ap (take_effects effects) e)
        | inr (inr (key, value, ec, e)) ↦ (
          spoiled key (abandoned value) ∷ effects,
          spoils_at c key value ec survive,
          same ∙ ap (take_effects effects) e,
        )
      ]

module _ (abandoned : Value → Option Value) where
  assign_tag-enough :
      (key : Bytes) (value : Value) (s : Short)
      → assign_tag abandoned key value s [] ≡ (done tt, set_value key (some value) s, [])
  assign_tag-enough key value s =
      rw (copy_value-enough value (set_value key (abandoned value) s)) (
        ap (λ (t : Short). (done tt, t, [])) (set_value_twice key (some value) (abandoned value) s))

  insert_key-enough :
      (key : Bytes) (value : Value) (old : Option (Option Value)) (s : Short)
      → (insert_key key old >> assign_tag abandoned key value) s []
        ≡ (done tt, set_value key (some value) s, [])
  insert_key-enough key value (some old) s = assign_tag-enough key value s
  insert_key-enough key value none s =
      assign_tag-enough key value (set_value key (some null) s)
      ∙ ap (λ (t : Short). (done tt, t, [])) (set_value_twice key (some value) (some null) s)

  call-enough : (c : Setter) (s : Short) → call abandoned c s [] ≡ (apply_short c s, [])
  unfolding call body apply
  call-enough (sets_operation_name name) s = refl
  call-enough (sets_tag key value) s = rw (insert_key-enough key value (find key s.tags) s) refl
  call-enough (logs timestamp fields) s =
      rw (reserve-enough fields s, copy_fields-enough fields s) refl
  call-enough (sets_baggage_item key value) s = refl

  run-enough :
      (calls : List Setter) (s : Short)
      → (run abandoned calls s []).0 ≡ take_effects (map made calls) s
  unfolding run
  run-enough [] s = refl
  run-enough (c ∷ calls) s =
      ap (λ (x : Short × Heap). (run abandoned calls x.0 x.1).0) (call-enough c s)
      ∙ run-enough calls (apply_short c s)

-- Setters are called on a span, and any of their allocations can fail. What the span is then, the calls
-- make of it of which each has had its whole effect or none at all, but that a call of `SetTag` can have
-- left its key with what the variant keeps of a failed assignment. With memory for all that is asked for,
-- every call has its whole effect.
pub run-Survives :
    (abandoned : Value → Option Value) (calls : List Setter) (s : Short) (heap : Heap)
    → ((effects : List Effect) × Survives abandoned calls effects
        × ((run abandoned calls s heap).0 ≡ take_effects effects s))
      × ((run abandoned calls s []).0 ≡ take_effects (map made calls) s)
run-Survives abandoned calls s heap =
    (run-effects abandoned calls s heap, run-enough abandoned calls s)
