-- ===== src/Memory.antt =====
-- mocktracer/src/utility.cpp: the byte order of the host, and the helpers that undo it.
-- A host is what the C++ standard leaves to the implementation and the program depends on.
pub mod Order
use opentracing_cpp.Base.{
  ℕ, zero, suc, ◌+◌, ◌*◌, ◌/◌, ◌%◌, Bool, List, [], ◌∷◌, reverse, Bytes, ◌==◌, get_or, ltb,
  if◌then◌else◌,
}

pub record Host : Type 0 where
  -- whether a number's most significant byte is first in memory
  pub big_endian : Bool
  -- whether `char` is a signed type
  pub char_is_signed : Bool
  -- whether `std::string::resize` is given the memory for so many bytes
  pub can_resize : ℕ → Bool

-- The `w` lowest bytes of a number, least significant first.
abbrev pub le_bytes : ℕ → ℕ → Bytes
le_bytes zero x = []
le_bytes (suc w) x = (x % 256) ∷ le_bytes w (x / 256)

-- The number that such bytes spell.
abbrev pub le_value : Bytes → ℕ
le_value [] = 0
le_value (b ∷ bs) = b + 256 * le_value bs

-- How the host lays out a `w`-byte unsigned number in memory.
unfoldable pub to_memory : Host → ℕ → ℕ → Bytes
to_memory host w x = if host.big_endian then reverse (le_bytes w x) else le_bytes w x

-- The number that the host reads in such bytes.
unfoldable pub from_memory : Host → Bytes → ℕ
from_memory host bs = if host.big_endian then le_value (reverse bs) else le_value bs

-- `dest.u8[k] = source.u8[sizeof(T) - k - 1]` for every `k`: the bytes in the opposite order.
unfoldable pub swap_endian : Host → ℕ → ℕ → ℕ
swap_endian host w u = from_memory host (reverse (to_memory host w u))

-- `bint.c[0] == 1` for `bint.i = 0x01020304`.
unfoldable pub is_big_endian : Host → Bool
is_big_endian host = get_or (to_memory host 4 0x01020304) 0 0 == 1

-- The two overloads `SwapEndianIfBig`, by the width in bytes.
unfoldable pub swap_endian_if_big : Host → ℕ → ℕ → ℕ
swap_endian_if_big host w x = if is_big_endian host then swap_endian host w x else x
