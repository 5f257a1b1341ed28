-- ===== src/Json/Digits.antt =====
-- Digits as the standard streams and `std::to_string` print them, and the number that they spell.
use opentracing_cpp.Base.{
  ℕ, zero, suc, ◌+◌, ◌-◌, ◌*◌, ◌/◌, ◌%◌, ◌<◌, ◌≤◌, ◌≡◌, ap, ◌∙◌, refl, [], ◌∷◌, ◌++◌, arith, Bytes,
  ltb, leb, if◌then◌else◌, Bool-cases, inl, inr, replicate,
}
use opentracing_cpp.Json.Text.{digit, digits_in, print_number}

abbrev digit_value : ℕ → ℕ
digit_value c = if leb c b'9' then c - b'0' else c - b'a' + 10

-- The number that some digits spell, behind digits that spell `v`.
abbrev pub value_from : ℕ → ℕ → Bytes → ℕ
value_from base v [] = v
value_from base v (c ∷ s) = value_from base (v * base + digit_value c) s

digit_value-digit : (d : ℕ) → d < 16 → digit_value (digit d) ≡ d
digit_value-digit d h = ground arith

value_from-append :
    (base : ℕ) (s t : Bytes) (v : ℕ)
    → value_from base v (s ++ t) ≡ value_from base (value_from base v s) t
value_from-append base [] t v = refl
value_from-append base (c ∷ s) t v = value_from-append base s t _

-- A base with the division of numbers by it.
pub record Radix (base : ℕ) : Type 0 where
  small : base ≤ 16
  split : (n : ℕ) → n / base * base + n % base ≡ n
  rest : (n : ℕ) → n % base < base
  front : (n : ℕ) → base ≤ n → n / base < n

pub decimal : Radix 10
decimal = record {
  small = omega arith;
  split = λ n. omega arith;
  rest = λ n. omega arith;
  front = λ n h. omega arith;
}

pub hexadecimal : Radix 16
hexadecimal = record {
  small = omega arith;
  split = λ n. omega arith;
  rest = λ n. omega arith;
  front = λ n h. omega arith;
}

pub value_from-digits_in :
    (base : ℕ)
    → Radix base
    → (fuel n : ℕ) → n < fuel
    → value_from base 0 (digits_in base fuel n) ≡ n
unfolding digits_in
value_from-digits_in base b zero n h = absurd (omega arith)
value_from-digits_in base b (suc fuel) n h = elim (Bool-cases (ltb n base)) [
  | inl single ↦ rw single (omega (arith, digit_value-digit n (ground (arith, b.small))))
  | inr more ↦
      rw
        (
          more,
          value_from-append base (digits_in base fuel (n / base)) (digit (n % base) ∷ []) 0,
          value_from-digits_in base b fuel (n / base) (ground (arith, b.front n)),
          digit_value-digit (n % base) (omega (arith, b.rest n, b.small)),
        )
        (b.split n)
]

-- A number is what its digits spell.
pub value_from-print_number :
    (base : ℕ) → Radix base → (n : ℕ) → value_from base 0 (print_number base n) ≡ n
unfolding print_number
value_from-print_number base b n = value_from-digits_in base b (suc n) n (omega arith)

pub value_from-zeros :
    (base k : ℕ) (s : Bytes) → value_from base 0 (replicate k b'0' ++ s) ≡ value_from base 0 s
value_from-zeros base zero s = refl
value_from-zeros base (suc k) s =
    ap (λ v. value_from base v (replicate k b'0' ++ s)) (omega arith) ∙ value_from-zeros base k s
