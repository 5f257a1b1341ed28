-- ===== src/Loading/Owners.antt =====
-- How many of the handles of include/opentracing/dynamic_load.h own a library, where one is replaced.
use opentracing_cpp.Base.{
  ℕ, suc, ◌+◌, ◌<◌, ◌≡◌, refl, ap, List, [], ◌∷◌, All, length, count, arith, zero,
}
use opentracing_cpp.Loading.Lifetime.{Handle, empty, handle_at, set_at, holds}

-- A handle owns the factory of its library and no other.
abbrev pub IsPaired : Handle → Type 0
IsPaired handle = handle.tracer_factory ≡ handle.dynamic_library_handle

pub set_empty :
    (h i : ℕ) (handles : List Handle)
    → count (holds h) handles
      ≡ count (holds h) (set_at i empty handles) + holds h (handle_at handles i)
set_empty h i [] = refl
set_empty h zero (handle ∷ handles) = omega arith
set_empty h (suc i) (handle ∷ handles) = omega (arith, set_empty h i handles)

pub set_over :
    (h i : ℕ) (handle : Handle) (handles : List Handle)
    → i < length handles
    → count (holds h) (set_at i handle handles) + holds h (handle_at handles i)
      ≡ count (holds h) handles + holds h handle
set_over h i handle [] lt = absurd (omega arith)
set_over h zero handle (old ∷ handles) lt = omega arith
set_over h (suc i) handle (old ∷ handles) lt =
    omega (arith, set_over h i handle handles (omega arith))

pub length-set_at :
    (i : ℕ) (handle : Handle) (handles : List Handle)
    → length (set_at i handle handles) ≡ length handles
length-set_at i handle [] = refl
length-set_at zero handle (old ∷ handles) = refl
length-set_at (suc i) handle (old ∷ handles) = ap suc (length-set_at i handle handles)

pub set_at-IsPaired :
    (i : ℕ) (handle : Handle) (handles : List Handle)
    → IsPaired handle
    → All IsPaired handles
    → All IsPaired (set_at i handle handles)
set_at-IsPaired i handle [] h hs = tt
set_at-IsPaired zero handle (old ∷ handles) h (ho, hs) = (h, hs)
set_at-IsPaired (suc i) handle (old ∷ handles) h (ho, hs) =
    (ho, set_at-IsPaired i handle handles h hs)

pub handle_at-IsPaired :
    (handles : List Handle) (i : ℕ) → All IsPaired handles → IsPaired (handle_at handles i)
handle_at-IsPaired [] i hs = refl
handle_at-IsPaired (handle ∷ handles) zero (h, hs) = h
handle_at-IsPaired (handle ∷ handles) (suc i) (h, hs) = handle_at-IsPaired handles i hs
