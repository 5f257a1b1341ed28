-- ===== src/Memory/Order.antt =====
-- The helpers of mocktracer/src/utility.cpp and the little-endian layout.
use mathlib.Core.List.{reverse-reverse}
use opentracing_cpp.Base.{
  ℕ, zero, suc, ◌+◌, ◌*◌, ◌/◌, ◌%◌, ◌^◌, ◌<◌, ◌≡◌, refl, sym, ap, ◌∙◌, true, false, [], ◌∷◌,
  reverse, arith, Bytes, IsByte, All, length, Bool-cases, inl, inr, length-reverse, All-reverse,
}
use opentracing_cpp.Memory.{
  Host, le_bytes, le_value, to_memory, from_memory, swap_endian, is_big_endian, swap_endian_if_big,
}

length-le_bytes : (w x : ℕ) → length (le_bytes w x) ≡ w
length-le_bytes zero x = refl
length-le_bytes (suc w) x = ap suc (length-le_bytes w (x / 256))

pub le_bytes-IsByte : (w x : ℕ) → All IsByte (le_bytes w x)
le_bytes-IsByte zero x = tt
le_bytes-IsByte (suc w) x = (omega arith, le_bytes-IsByte w (x / 256))

-- Bytes are read back, and numbers of the width too.
le_bytes-le_value : (bs : Bytes) → All IsByte bs → le_bytes (length bs) (le_value bs) ≡ bs
le_bytes-le_value [] h = refl
le_bytes-le_value (b ∷ bs) (hb, hs) =
    let low : (b + 256 * le_value bs) % 256 ≡ b = omega arith in
    let high : (b + 256 * le_value bs) / 256 ≡ le_value bs = omega arith in
    rw (low, high) (ap (λ (r : Bytes). b ∷ r) (le_bytes-le_value bs hs))

pub le_value-le_bytes-8 : (x : ℕ) → x < 2 ^ 64 → le_value (le_bytes 8 x) ≡ x
le_value-le_bytes-8 x h = omega arith

pub le_value-le_bytes-4 : (x : ℕ) → x < 2 ^ 32 → le_value (le_bytes 4 x) ≡ x
le_value-le_bytes-4 x h = omega arith

pub length-to_memory : (host : Host) (w x : ℕ) → length (to_memory host w x) ≡ w
unfolding to_memory
length-to_memory host w x = ground (arith, length-le_bytes w x, length-reverse (le_bytes w x))

-- `IsBigEndian` finds out the host's byte order.
is_big_endian_lem : (host : Host) → is_big_endian host ≡ host.big_endian
unfolding is_big_endian to_memory
is_big_endian_lem host = ground arith

-- The layout is invertible: a number's memory is read back from the bytes alone.
to_memory-from_memory :
    (host : Host) (bs : Bytes)
    → All IsByte bs
    → to_memory host (length bs) (from_memory host bs) ≡ bs
unfolding to_memory from_memory
to_memory-from_memory host bs h = ground (
  arith,
  le_bytes-le_value bs h,
  le_bytes-le_value (reverse bs) (All-reverse _ bs h),
  length-reverse bs,
  reverse-reverse bs,
)

-- Written with its bytes reversed and read the same way, a number is unchanged.
le_bytes-le_value-reverse :
    (w x : ℕ) → le_bytes w (le_value (reverse (le_bytes w x))) ≡ reverse (le_bytes w x)
le_bytes-le_value-reverse w x =
    let bs = reverse (le_bytes w x) in
    let same : length bs ≡ w = length-reverse (le_bytes w x) ∙ length-le_bytes w x in
    ap (λ (n : ℕ). le_bytes n (le_value bs)) (sym same)
    ∙ le_bytes-le_value bs (All-reverse IsByte (le_bytes w x) (le_bytes-IsByte w x))

-- What `SwapEndianIfBig` returns has the little-endian layout in memory, whatever the host.
pub to_memory-swap :
    (host : Host) (w x : ℕ) → to_memory host w (swap_endian_if_big host w x) ≡ le_bytes w x
unfolding swap_endian_if_big swap_endian to_memory from_memory
to_memory-swap host w x = ground (
  arith,
  is_big_endian_lem host,
  reverse-reverse (le_bytes w x),
  reverse-reverse (reverse (le_bytes w x)),
  le_bytes-le_value-reverse w x,
)

-- Bytes that are read in place as a number, and given to `SwapEndianIfBig`, make the number that they
-- spell in little-endian order, whatever the host.
pub swap-from_memory :
    (host : Host) (bs : Bytes)
    → All IsByte bs
    → swap_endian_if_big host (length bs) (from_memory host bs) ≡ le_value bs
unfolding swap_endian_if_big swap_endian
swap-from_memory host bs h = ground (
  arith,
  is_big_endian_lem host,
  to_memory-from_memory host bs h,
  unreversed host bs,
  native host bs,
)
  where
    unreversed :
        (h : Host) (cs : Bytes) → h.big_endian ≡ true → from_memory h (reverse cs) ≡ le_value cs
    unreversed h cs big = unfold from_memory in ground (arith, reverse-reverse cs)

    native : (h : Host) (cs : Bytes) → h.big_endian ≡ false → from_memory h cs ≡ le_value cs
    native h cs little = unfold from_memory in ground arith

-- A number survives being laid out and read again, as far as its bytes spell it.
pub from_memory-to_memory :
    (host : Host) (w x : ℕ) → from_memory host (to_memory host w x) ≡ le_value (le_bytes w x)
unfolding to_memory from_memory
from_memory-to_memory host w x = ground (arith, reverse-reverse (le_bytes w x))

pub to_memory-IsByte : (host : Host) (w x : ℕ) → All IsByte (to_memory host w x)
unfolding to_memory
to_memory-IsByte host w x = elim (Bool-cases host.big_endian) [
  | inl big ↦ rw big (All-reverse IsByte (le_bytes w x) (le_bytes-IsByte w x))
  | inr little ↦ rw little (le_bytes-IsByte w x)
]
