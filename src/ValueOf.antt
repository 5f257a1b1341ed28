-- ===== src/ValueOf.antt =====
-- The constructors of `Value` of include/opentracing/value.h for C++ integers. The other constructors
-- choose an alternative of the variant for their argument and change nothing.
use opentracing_cpp.Base.{ℕ, ◌-◌, ◌%◌, ◌^◌, ◌*◌, ◌<◌, ltb, if◌then◌else◌}
use opentracing_cpp.Base.Int.{ℤ, pos, negsuc}
use opentracing_cpp.SpanData.{Value, int64, uint64}

-- The integer types of C++ by their numbers of bits.
pub data Width : Type 0 where
  bits_8 bits_16 bits_32 bits_64 : Width

abbrev pub half : Width → ℕ
half bits_8 = 2 ^ 7
half bits_16 = 2 ^ 15
half bits_32 = 2 ^ 31
half bits_64 = 2 ^ 63

abbrev pub modulus : Width → ℕ
modulus w = 2 * half w

-- The number that a bit pattern of a signed type stands for, which `static_cast<int64_t>` keeps.
unfoldable pub signed : Width → ℕ → ℤ
signed w bits = if ltb bits (half w) then pos bits else negsuc (modulus w - 1 - bits)

-- The overloads of the constructor for signed and for unsigned types.
unfoldable pub value_of_signed : Width → ℕ → Value
value_of_signed w bits = int64 (signed w bits)

unfoldable pub value_of_unsigned : ℕ → Value
value_of_unsigned bits = uint64 bits

-- The bit pattern of a number in a width.
abbrev pub pattern_of : Width → ℤ → ℕ
pattern_of w (pos n) = n % modulus w
pattern_of w (negsuc n) = modulus w - 1 - n % modulus w

abbrev pub FitsInt64 : ℤ → Type 0
FitsInt64 (pos n) = n < 2 ^ 63
FitsInt64 (negsuc n) = n < 2 ^ 63
