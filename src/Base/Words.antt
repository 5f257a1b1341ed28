-- ===== src/Base/Words.antt =====
-- Bytes, texts as bytes, and machine words.
use Prim.Native.Nat.{ℕ, ◌^◌, ◌<◌, ◌*◌, ◌/◌}
use Prim.Native.Char.{code}
use Prim.Native.String.{String}
use mathlib.Core.List.{List, [], ◌∷◌}

-- A `char` or an `unsigned char`, by its bit pattern.
abbrev pub IsByte : ℕ → Type 0
IsByte b = b < 256

-- The contents of a `std::string` or a `string_view`: the bytes, without a terminator.
abbrev pub Bytes : Type 0
Bytes = List ℕ

-- The code points of an ASCII text, which are its bytes.
abbrev pub codes : String → Bytes
codes String.[] = []
codes (String.◌∷◌ c s) = code c ∷ codes s

abbrev pub u32_mod : ℕ
u32_mod = 2 ^ 32

abbrev pub u64_mod : ℕ
u64_mod = 2 ^ 64

-- `x << k` before the result is cut to a width, and `x >> k`.
abbrev pub shl : ℕ → ℕ → ℕ
shl x k = x * 2 ^ k

abbrev pub shr : ℕ → ℕ → ℕ
shr x k = x / 2 ^ k
