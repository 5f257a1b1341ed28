-- ===== src/Json/Numbers.antt =====
-- The numbers of JSON texts, by the automaton of their grammar in RFC 8259, and the integers that
-- mocktracer/src/json.cpp writes.
use opentracing_cpp.Base.{
  ℕ, zero, suc, ◌/◌, ◌%◌, ◌<◌, ◌≡◌, refl, ap, ◌∙◌, Bool, true, false, ◌&&◌, ◌||◌, [], ◌∷◌, ◌++◌,
  append-nil, append_assoc, arith, Option, none, some, Bytes, ltb, leb, ◌==◌, if◌then◌else◌,
  Bool-cases, Option-cases, inl, inr,
}
use opentracing_cpp.Base.Int.{ℤ, pos, negsuc}
use opentracing_cpp.Json.Text.{digit, digits_in, print_number}

-- What has been read of a number.
pub data Reading : Type 0 where
  start minus leading_zero integer point fraction letter sign exponent : Reading

abbrev pub is_digit : ℕ → Bool
is_digit c = leb b'0' c && leb c b'9'

-- An exponent begins behind the digits.
abbrev exponent_or : ℕ → Option Reading → Option Reading
exponent_or c otherwise = if c == b'e' || c == b'E' then some letter else otherwise

unfoldable pub advance : Reading → ℕ → Option Reading
advance start c =
    if c == b'-'
    then some minus
    else if c == b'0'
    then some leading_zero
    else if is_digit c
    then some integer
    else none
advance minus c = if c == b'0' then some leading_zero else if is_digit c then some integer else none
advance leading_zero c = if c == b'.' then some point else exponent_or c none
advance integer c =
    if is_digit c then some integer else if c == b'.' then some point else exponent_or c none
advance point c = if is_digit c then some fraction else none
advance fraction c = if is_digit c then some fraction else exponent_or c none
advance letter c =
    if c == b'+' || c == b'-' then some sign else if is_digit c then some exponent else none
advance sign c = if is_digit c then some exponent else none
advance exponent c = if is_digit c then some exponent else none

abbrev pub may_end : Reading → Bool
may_end start = false
may_end minus = false
may_end leading_zero = true
may_end integer = true
may_end point = false
may_end fraction = true
may_end letter = false
may_end sign = false
may_end exponent = true

abbrev ended_at : Reading → Bytes → Bytes → Option (Bytes × Bytes)
ended_at r out s = if may_end r then some (out, s) else none

abbrev resume :
    Option Reading
    → Option (Bytes × Bytes)
    → (Reading → Option (Bytes × Bytes))
    → Option (Bytes × Bytes)
resume none here next = here
resume (some q) here next = next q

-- The longest text of a number in front, behind what is in `out`.
unfoldable pub read_number : Reading → Bytes → Bytes → Option (Bytes × Bytes)
read_number r out [] = ended_at r out []
read_number r out (c ∷ s) =
    resume (advance r c) (ended_at r out (c ∷ s)) (λ q. read_number q (out ++ c ∷ []) s)

abbrev continue_run : Option Reading → (Reading → Option Reading) → Option Reading
continue_run none next = none
continue_run (some q) next = next q

unfoldable pub run : Reading → Bytes → Option Reading
run r [] = some r
run r (c ∷ s) = continue_run (advance r c) (λ q. run q s)

abbrev ends : Option Reading → Bool
ends none = false
ends (some r) = may_end r

abbrev pub is_number : Bytes → Bool
is_number s = ends (run start s)

-- The text behind a number does not go on with one.
abbrev pub stops : Bytes → Bool
stops [] = true
stops (c ∷ s) = c == b',' || c == b']' || c == b'}'

stops-advance : (r : Reading) (c : ℕ) (s : Bytes) → stops (c ∷ s) ≡ true → advance r c ≡ none
unfolding advance
stops-advance start c s h = ground arith
stops-advance minus c s h = ground arith
stops-advance leading_zero c s h = ground arith
stops-advance integer c s h = ground arith
stops-advance point c s h = ground arith
stops-advance fraction c s h = ground arith
stops-advance letter c s h = ground arith
stops-advance sign c s h = ground arith
stops-advance exponent c s h = ground arith

none_ne : {A : Type 0} (a : A) → none ≡ some a → ⊥
none_ne a e = cc

false_ne : false ≡ true → ⊥
false_ne e = cc

some_injective : (r q : Reading) → some r ≡ some q → r ≡ q
some_injective r q e = cc

may_end_here : (r q : Reading) → some r ≡ some q → may_end q ≡ true → may_end r ≡ true
may_end_here r q e last = rw (some_injective r q e) last

read_number-run :
    (r q : Reading) (s out rest : Bytes)
    → run r s ≡ some q
    → may_end q ≡ true
    → stops rest ≡ true
    → read_number r out (s ++ rest) ≡ some (out ++ s, rest)
unfolding read_number run
read_number-run r q [] out [] e last stop =
    let m : may_end r ≡ true = may_end_here r q e last in rw (m, append-nil out) refl
read_number-run r q [] out (c ∷ rest) e last stop =
    let m : may_end r ≡ true = may_end_here r q e last in
    rw (stops-advance r c rest stop, m, append-nil out) refl
read_number-run r q (c ∷ s) out rest e last stop = elim (Option-cases (advance r c)) [
  | inl stuck ↦ absurd (none_ne q (rw stuck at e))
  | inr (p, next) ↦ rw next (
      read_number-run p q s (out ++ c ∷ []) rest (rw next at e) last stop
      ∙ ap (λ (t : Bytes). some (t, rest)) (append_assoc out (c ∷ []) s))
]

-- A number is read whole, with the text behind it.
pub read_number-is_number :
    (s rest : Bytes)
    → is_number s ≡ true
    → stops rest ≡ true
    → read_number start [] (s ++ rest) ≡ some (s, rest)
read_number-is_number s rest h stop = elim (Option-cases (run start s)) [
  | inl stuck ↦ absurd (false_ne (rw stuck at h))
  | inr (q, e) ↦ read_number-run start q s [] rest e (rw e at h) stop
]

run-append : (r q : Reading) (s t : Bytes) → run r s ≡ some q → run r (s ++ t) ≡ run q t
unfolding run
run-append r q [] t e = ap (λ p. run p t) (some_injective r q e)
run-append r q (c ∷ s) t e = elim (Option-cases (advance r c)) [
  | inl stuck ↦ absurd (none_ne q (rw stuck at e))
  | inr (p, next) ↦ rw next (run-append p q s t (rw next at e))
]

-- In front of an integer: nothing, or a sign.
abbrev pub is_front : Reading → Bool
is_front start = true
is_front minus = true
is_front _ = false

advance-digit :
    (r : Reading) (d : ℕ) → is_front r ≡ true → 0 < d → d < 10 → advance r (digit d) ≡ some integer
unfolding advance
advance-digit start d front pos_d small = ground arith
advance-digit minus d front pos_d small = ground arith
advance-digit _ d front pos_d small = absurd (cc)

advance-integer : (d : ℕ) → d < 10 → advance integer (digit d) ≡ some integer
unfolding advance
advance-integer d small = ground arith

run-digit :
    (r : Reading) (d : ℕ) → is_front r ≡ true → 0 < d → d < 10 → run r (digit d ∷ []) ≡ some integer
unfolding run
run-digit r d front pos_d small =
    ap (λ o. continue_run o (λ q. some q)) (advance-digit r d front pos_d small)

digits_in_small : (fuel n : ℕ) → ltb n 10 ≡ true → digits_in 10 (suc fuel) n ≡ digit n ∷ []
unfolding digits_in
digits_in_small fuel n small = ground arith

run-digits_in :
    (r : Reading) (fuel n : ℕ)
    → is_front r ≡ true
    → 0 < n
    → n < fuel
    → run r (digits_in 10 fuel n) ≡ some integer
unfolding digits_in run
run-digits_in r zero n front pos_n h = absurd (omega arith)
run-digits_in r (suc fuel) n front pos_n h = elim (Bool-cases (ltb n 10)) [
  | inl small ↦ ap (run r) (digits_in_small fuel n small) ∙ run-digit r n front pos_n (ground arith)
  | inr large ↦
      rw
        (
          large,
          run-append r integer (digits_in 10 fuel (n / 10)) (digit (n % 10) ∷ [])
              (run-digits_in r fuel (n / 10) front (ground arith) (ground arith)),
          advance-integer (n % 10) (omega arith),
        )
        refl
]

-- An integer as the code writes it in base 10.
abbrev pub integer_text : ℤ → Bytes
integer_text (pos n) = print_number 10 n
integer_text (negsuc n) = b'-' ∷ print_number 10 (suc n)

pub print_number-is_number : (n : ℕ) → is_number (print_number 10 n) ≡ true
unfolding print_number run digits_in advance
print_number-is_number zero = refl
print_number-is_number (suc n) =
    rw (run-digits_in start (suc (suc n)) (suc n) refl (omega arith) (omega arith)) refl

pub integer_text-is_number : (n : ℤ) → is_number (integer_text n) ≡ true
unfolding print_number run advance
integer_text-is_number (pos n) = print_number-is_number n
integer_text-is_number (negsuc n) =
    rw (run-digits_in minus (suc (suc n)) (suc n) refl (omega arith) (omega arith)) refl
