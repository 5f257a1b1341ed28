-- ===== src/Json/Text.antt =====
-- The writer of mocktracer/src/json.cpp and the printing of numbers in a base, as the standard
-- streams do it.
use opentracing_cpp.Base.{
  ℕ, zero, suc, ◌+◌, ◌-◌, ◌/◌, ◌%◌, Bool, [], ◌∷◌, ◌++◌, Bytes, length, replicate, ltb,
  if◌then◌else◌,
}

pub record Writer : Type 0 where
  pub text : Bytes
  pub is_hex : Bool

-- `writer << s` for text.
unfoldable pub emit : Bytes → Writer → Writer
emit s w = record w { text = w.text ++ s }

-- First one, then the other.
infixl 20 ◌▷◌
abbrev pub ◌▷◌ : (Writer → Writer) → (Writer → Writer) → Writer → Writer
(f ▷ g) w = g (f w)

abbrev pub digit : ℕ → ℕ
digit d = if ltb d 10 then b'0' + d else b'a' + (d - 10)

-- The digits of a number; there are at most as many as the fuel `suc n` allows.
unfoldable pub digits_in : ℕ → ℕ → ℕ → Bytes
digits_in base zero n = []
digits_in base (suc fuel) n =
    let front = digits_in base fuel (n / base) in
    if ltb n base then digit n ∷ [] else front ++ digit (n % base) ∷ []

unfoldable pub print_number : ℕ → ℕ → Bytes
unfolding digits_in
print_number base n = digits_in base (suc n) n

-- `std::setw(w)` with `std::setfill('0')`.
abbrev pub pad_left : ℕ → Bytes → Bytes
pad_left w s = replicate (w - length s) b'0' ++ s
