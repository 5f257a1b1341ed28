-- ===== src/Base64/Bits.antt =====
-- The bit operations of mocktracer/src/base64.cpp as arithmetic, each over the range in which the
-- code uses it, and the two tables as inverses of one another.
use opentracing_cpp.Base.{
  ℕ, ◌+◌, ◌*◌, ◌%◌, ◌<◌, bit_and, bit_or, ◌≡◌, ◌≢◌, refl, ◌&&◌, not, true, false, Bool, Option,
  some, none, arith, ltb, ◌==◌, ==_iff, all_below, all_below_sound, get_elem?,
}
use opentracing_cpp.Memory.{Host}
use opentracing_cpp.Base64.{char_at, pad, char_to_u32, reverse_lookup, reverse_lookup_table}

-- A test of two numbers holds below both bounds if it does so at every pair.
pair_sound :
    (m n : ℕ) (p : ℕ → ℕ → Bool) (a b : ℕ)
    → all_below m (λ a. all_below n (p a)) ≡ true
    → a < m
    → b < n
    → p a b ≡ true
pair_sound m n p a b h ha hb =
    all_below_sound n (p a) b (all_below_sound m (λ a. all_below n (p a)) a h ha) hb

and_3_table : all_below 256 (λ x. bit_and x 3 == x % 4) ≡ true
and_3_table = refl

and_15_table : all_below 256 (λ x. bit_and x 15 == x % 16) ≡ true
and_15_table = refl

and_63_table : all_below 256 (λ x. bit_and x 63 == x % 64) ≡ true
and_63_table = refl

pub bit_and_3 : (x : ℕ) → x < 256 → bit_and x 3 ≡ x % 4
bit_and_3 x h = (==_iff _ _).0 (all_below_sound 256 (λ x. bit_and x 3 == x % 4) x and_3_table h)

pub bit_and_15 : (x : ℕ) → x < 256 → bit_and x 15 ≡ x % 16
bit_and_15 x h = (==_iff _ _).0 (all_below_sound 256 (λ x. bit_and x 15 == x % 16) x and_15_table h)

pub bit_and_63 : (x : ℕ) → x < 256 → bit_and x 63 ≡ x % 64
bit_and_63 x h = (==_iff _ _).0 (all_below_sound 256 (λ x. bit_and x 63 == x % 64) x and_63_table h)

or_4_table : all_below 64 (λ a. all_below 4 (λ b. bit_or (a * 4) b == a * 4 + b)) ≡ true
or_4_table = refl

or_16_table : all_below 64 (λ a. all_below 16 (λ b. bit_or (a * 16) b == a * 16 + b)) ≡ true
or_16_table = refl

or_64_table : all_below 64 (λ a. all_below 64 (λ b. bit_or (a * 64) b == a * 64 + b)) ≡ true
or_64_table = refl

pub bit_or_4 : (a b : ℕ) → a < 64 → b < 4 → bit_or (a * 4) b ≡ a * 4 + b
bit_or_4 a b ha hb =
    (==_iff _ _).0 (pair_sound 64 4 (λ a b. bit_or (a * 4) b == a * 4 + b) a b or_4_table ha hb)

pub bit_or_16 : (a b : ℕ) → a < 64 → b < 16 → bit_or (a * 16) b ≡ a * 16 + b
bit_or_16 a b ha hb =
    (==_iff _ _).0 (pair_sound 64 16 (λ a b. bit_or (a * 16) b == a * 16 + b) a b or_16_table ha hb)

pub bit_or_64 : (a b : ℕ) → a < 64 → b < 64 → bit_or (a * 64) b ≡ a * 64 + b
bit_or_64 a b ha hb =
    (==_iff _ _).0 (pair_sound 64 64 (λ a b. bit_or (a * 64) b == a * 64 + b) a b or_64_table ha hb)

abbrev is_found : Option ℕ → ℕ → Bool
is_found none i = false
is_found (some v) i = v == i

abbrev looks_up : ℕ → Option ℕ → ℕ → Bool
looks_up c entry i = ltb c 128 && not (c == pad) && is_found entry i

looks_up_table :
    all_below 64 (λ i. looks_up (char_at i) (get_elem? reverse_lookup_table (char_at i)) i) ≡ true
unfolding char_at
looks_up_table = refl

looks_up_sound :
    (c : ℕ) (entry : Option ℕ) (i : ℕ)
    → looks_up c entry i ≡ true
    → (entry ≡ some i) × (c ≢ pad) × (c < 128)
looks_up_sound c none i h = ground arith
looks_up_sound c (some v) i h = ground arith

pub char_to_u32-ascii : (host : Host) (c : ℕ) → c < 128 → char_to_u32 host c ≡ c
unfolding char_to_u32
char_to_u32-ascii host c h = ground arith

char_at-looks_up :
    (i : ℕ)
    → i < 64
    → (get_elem? reverse_lookup_table (char_at i) ≡ some i) × (char_at i ≢ pad) × (char_at i < 128)
char_at-looks_up i h = looks_up_sound (char_at i) (get_elem? reverse_lookup_table (char_at i)) i (
    all_below_sound 64 (λ j. looks_up (char_at j) (get_elem? reverse_lookup_table (char_at j)) j) i
      looks_up_table h)

pub char_at-ne-pad : (i : ℕ) → i < 64 → (char_at i == pad) ≡ false
char_at-ne-pad i h = ground (arith, (char_at-looks_up i h).1)

-- A character of the alphabet is looked up to its index, on every host.
pub reverse_lookup-char_at :
    (host : Host) (i : ℕ) → i < 64 → reverse_lookup host (char_at i) ≡ some i
unfolding reverse_lookup
reverse_lookup-char_at host i h =
    let (found, _, ascii) = char_at-looks_up i h in rw (char_to_u32-ascii host _ ascii) found

pub reverse_lookup-pad : (host : Host) → reverse_lookup host pad ≡ some 64
unfolding reverse_lookup
reverse_lookup-pad host = rw (char_to_u32-ascii host pad (omega arith))
