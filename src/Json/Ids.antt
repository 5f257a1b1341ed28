-- ===== src/Json/Ids.antt =====
-- The ids that mocktracer/src/json.cpp writes, and how they are read: sixteen digits in base 16.
use opentracing_cpp.Base.{
  true, ltb, inl, inr, Bool-cases, All, All-append, ℕ, zero, suc, ◌-◌, ◌*◌, ◌/◌, ◌%◌, ◌^◌, ◌<◌, ◌≤◌,
  ◌≡◌, refl, ◌∙◌, [], ◌∷◌, ◌++◌, arith, Bytes, length, length-append, length-replicate, replicate,
}
use opentracing_cpp.Json.Utf8.{IsAscii, is_utf8, is_utf8-ascii}
use opentracing_cpp.Json.Text.{Writer, emit, digit, digits_in, print_number, pad_left}
use opentracing_cpp.Json.Digits.{value_from, hexadecimal, value_from-zeros, value_from-digits_in}
use opentracing_cpp.Json.{write_id}

-- 16 ^ w, by recursion.
abbrev power16 : ℕ → ℕ
power16 zero = 1
power16 (suc w) = 16 * power16 w

length-digits_in : (w fuel n : ℕ) → n < power16 (suc w) → length (digits_in 16 fuel n) ≤ suc w
unfolding digits_in
length-digits_in w zero n h = omega arith
length-digits_in zero (suc fuel) n h = ground arith
length-digits_in (suc w) (suc fuel) n h = ground (
  arith,
  length-digits_in w fuel (n / 16),
  length-append (digits_in 16 fuel (n / 16)) (digit (n % 16) ∷ []),
)

-- `WriteId` of a 64-bit id writes a quote, sixteen digits which spell the id in base 16, and a quote,
-- whatever was written before.
write_id_lem :
    (id : ℕ) (w : Writer)
    → id < 2 ^ 64
    → (digits : Bytes) × ((write_id id w).text ≡ w.text ++ (b'"' ∷ digits ++ b'"' ∷ []))
      × (length digits ≡ 16)
      × (value_from 16 0 digits ≡ id)
unfolding write_id emit print_number
write_id_lem id w h =
    let digits = digits_in 16 (suc id) id in
    let short = length-digits_in 15 (suc id) id h in
    (
      pad_left 16 digits,
      refl,
      length-append (replicate (16 - length digits) b'0') digits
          ∙ rw (length-replicate {A = ℕ} (16 - length digits) b'0') (omega (arith, short)),
      value_from-zeros 16 (16 - length digits) digits
          ∙ value_from-digits_in 16 hexadecimal (suc id) id (omega arith),
    )

digits_in-IsAscii : (fuel n : ℕ) → All IsAscii (digits_in 16 fuel n)
unfolding digits_in
digits_in-IsAscii zero n = tt
digits_in-IsAscii (suc fuel) n = elim (Bool-cases (ltb n 16)) [
  | inl single ↦ rw single (digit-IsAscii n (ground arith), tt)
  | inr more ↦ rw more (
      All-append IsAscii (digits_in 16 fuel (n / 16)) (digit (n % 16) ∷ [])
        (digits_in-IsAscii fuel (n / 16)) (digit-IsAscii (n % 16) (omega arith), tt))
]
  where
    digit-IsAscii : (d : ℕ) → d < 16 → IsAscii (digit d)
    digit-IsAscii d h = ground arith

zeros-IsAscii : (n : ℕ) → All IsAscii (replicate n b'0')
zeros-IsAscii zero = tt
zeros-IsAscii (suc n) = (refl, zeros-IsAscii n)

-- An id is ASCII text.
pub is_utf8-pad_left : (w id : ℕ) → is_utf8 (pad_left w (print_number 16 id)) ≡ true
unfolding print_number
is_utf8-pad_left w id =
    let digits = digits_in 16 (suc id) id in
    is_utf8-ascii _ (
      All-append IsAscii (replicate (w - length digits) b'0') digits
        (zeros-IsAscii (w - length digits)) (digits_in-IsAscii (suc id) id))
