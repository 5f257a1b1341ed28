-- ===== src/Span/Shortage/Atomic.antt =====
-- Which parts of the setters of mocktracer/src/mock_span.cpp change nothing where memory is short, and
-- what makes its whole change or none.
use opentracing_cpp.Base.{◌≡◌, refl, List, [], ◌∷◌, Option, Bytes, ◌⊎◌, inl, inr, ap}
use opentracing_cpp.Heap.{Heap, Action, Attempt, done, go_on, bad_alloc, allocate, modify, ◌>>◌}
use opentracing_cpp.Dict.Laws.{assign_twice}
use opentracing_cpp.SpanData.{Value}
use opentracing_cpp.Span.Shortage.{reserve, copy_value, copy_fields}
use opentracing_cpp.Span.Shortage.Setters.{Short, set_value}

pub set_value_twice :
    (key : Bytes) (v w : Option Value) (s : Short)
    → set_value key v (set_value key w s) ≡ set_value key v s
set_value_twice key v w s =
    ap (λ (tags : List (Bytes × Option Value)). record s { tags = tags })
      (assign_twice key v w s.tags)

-- Code that makes its whole change or none.
abbrev pub IsAtomic : Action Short Unit → (Short → Short) → Type 0
IsAtomic m f = (s : Short) (heap : Heap) → ((m s heap).1 ≡ f s) ⊎ ((m s heap).1 ≡ s)

pub modify-IsAtomic : (f : Short → Short) → IsAtomic (modify f) f
modify-IsAtomic f s heap = inl refl

-- Code that changes nothing.
abbrev pub IsQuiet : Action Short Unit → Type 0
IsQuiet m = (s : Short) (heap : Heap) → (m s heap).1 ≡ s

pub quiet-IsAtomic :
    (m k : Action Short Unit) (f : Short → Short) → IsQuiet m → IsAtomic k f → IsAtomic (m >> k) f
quiet-IsAtomic m k f still h s heap = behind (m s heap) (still s heap)
  where
    behind :
        (x : Attempt Unit × Short × Heap)
        → x.1 ≡ s
        → ((go_on (λ _. k) x).1 ≡ f s) ⊎ ((go_on (λ _. k) x).1 ≡ s)
    behind (done a, s', heap') e = rw e (h s heap')
    behind (bad_alloc, s', heap') e = inr e

then-IsQuiet : (m k : Action Short Unit) → IsQuiet m → IsQuiet k → IsQuiet (m >> k)
then-IsQuiet m k hm hk s heap =
    elim (quiet-IsAtomic m k (λ s. s) hm (λ s heap. inl (hk s heap)) s heap) [
      | inl e ↦ e
      | inr e ↦ e
    ]

allocate-IsQuiet : IsQuiet allocate
allocate-IsQuiet s heap = refl

pub reserve-IsQuiet : {A : Type 0} (xs : List A) → IsQuiet (reserve xs)
reserve-IsQuiet [] s heap = refl
reserve-IsQuiet (x ∷ xs) s heap = refl

pub copy_value-IsQuiet : (v : Value) → IsQuiet (copy_value v)
copy_value-IsQuiet (Value.string t) s heap = refl
copy_value-IsQuiet (Value.values vs) s heap = refl
copy_value-IsQuiet (Value.dictionary d) s heap = refl
copy_value-IsQuiet v s heap = refl

pub copy_fields-IsQuiet : (fields : List (Bytes × Value)) → IsQuiet (copy_fields fields)
copy_fields-IsQuiet [] = λ s heap. refl
copy_fields-IsQuiet ((key, value) ∷ fields) =
    then-IsQuiet allocate _ allocate-IsQuiet
      (then-IsQuiet (copy_value value) _ (copy_value-IsQuiet value) (copy_fields-IsQuiet fields))

pub allocate-IsAtomic :
    (k : Action Short Unit) (f : Short → Short) → IsAtomic k f → IsAtomic (allocate >> k) f
allocate-IsAtomic k f h = quiet-IsAtomic allocate k f allocate-IsQuiet h

pub copy_value-enough : (v : Value) (s : Short) → copy_value v s [] ≡ (done tt, s, [])
copy_value-enough (Value.string t) s = refl
copy_value-enough (Value.values vs) s = refl
copy_value-enough (Value.dictionary d) s = refl
copy_value-enough v s = refl

pub copy_fields-enough :
    (fields : List (Bytes × Value)) (s : Short) → copy_fields fields s [] ≡ (done tt, s, [])
copy_fields-enough [] s = refl
copy_fields-enough ((key, value) ∷ fields) s =
    rw (copy_value-enough value s) (copy_fields-enough fields s)

pub reserve-enough : {A : Type 0} (xs : List A) (s : Short) → reserve xs s [] ≡ (done tt, s, [])
reserve-enough [] s = refl
reserve-enough (x ∷ xs) s = refl
