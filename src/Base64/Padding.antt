-- ===== src/Base64/Padding.antt =====
-- The look-ups of `Base64::decode` of mocktracer/src/base64.cpp in its table, and the padding at the
-- end of a text.
use opentracing_cpp.Base.{
  ℕ, ◌+◌, ◌-◌, ◌%◌, ◌<◌, ◌≤◌, ◌||◌, ◌&&◌, ◌≡◌, ◌≢◌, refl, sym, ◌∙◌, [], ◌∷◌, Option, none, some,
  arith, Bytes, IsByte, length, ltb, leb, u32_mod, get_elem?, get_elem?-none, ◌==◌, if◌then◌else◌,
  false, true, Bool, Bool-cases, all_below, all_below_sound, inl, inr,
}
use opentracing_cpp.Memory.{Host}
use opentracing_cpp.Base64.{
  char_at, pad, reverse_lookup_table, char_to_u32, reverse_lookup, count_padding,
}
use opentracing_cpp.Base64.RoundTrip.{count_padding-cons4}

-- An entry of the table marks no character, or is the index of the character.
abbrev is_entry : ℕ → Option ℕ → Bool
is_entry c none = false
is_entry c (some v) = v == 64 || (ltb v 64 && char_at v == c)

entries_table : all_below 256 (λ c. is_entry c (get_elem? reverse_lookup_table c)) ≡ true
unfolding char_at
entries_table = refl

entry_lem :
    (c v : ℕ) (entry : Option ℕ)
    → is_entry c entry ≡ true
    → entry ≡ some v
    → (v == 64) ≡ false
    → (v < 64) × (char_at v ≡ c)
entry_lem c v none h e valid = absurd (cc)
entry_lem c v (some w) h e valid = let same : w ≡ v = cc in (ground arith, ground arith)

table_length : length reverse_lookup_table ≡ 256
table_length = refl

-- A byte that is looked up to an index is the character at that index.
pub lookup_valid :
    (host : Host) (c v : ℕ)
    → IsByte c
    → reverse_lookup host c ≡ some v
    → (v == 64) ≡ false
    → (v < 64) × (char_at v ≡ c)
unfolding reverse_lookup char_to_u32
lookup_valid host c v h found valid = elim (Bool-cases (host.char_is_signed && leb 128 c)) [
  | inl negative ↦
      let outside : get_elem? reverse_lookup_table (u32_mod - 256 + c) ≡ none =
        get_elem?-none reverse_lookup_table (u32_mod - 256 + c) (omega (arith, table_length)) in
      let none_found : none ≡ some v = sym outside ∙ rw negative at found in absurd (cc)
  | inr plain ↦
      entry_lem c v (get_elem? reverse_lookup_table c)
        (all_below_sound 256 (λ c. is_entry c (get_elem? reverse_lookup_table c)) c entries_table h)
        (rw plain at found) valid
]

-- The padding that a text ends with, in a text of one group and of more.
count_padding-one :
    (i0 i1 i2 i3 : ℕ)
    → count_padding (i0 ∷ i1 ∷ i2 ∷ i3 ∷ []) ≡ (if i3 == pad then if i2 == pad then 2 else 1 else 0)
unfolding count_padding
count_padding-one i0 i1 i2 i3 = ground arith

pub count_padding-le : (input : Bytes) → count_padding input ≤ 2
unfolding count_padding
count_padding-le input = ground arith

-- Where the group is the first to hold padding, it is the last group, and ends with padding.
pub padding_here :
    (i0 i1 i2 i3 first cur k : ℕ) (rest : Bytes)
    → first + count_padding (i0 ∷ i1 ∷ i2 ∷ i3 ∷ rest) ≡ cur + length (i0 ∷ i1 ∷ i2 ∷ i3 ∷ rest)
    → length rest % 4 ≡ 0
    → first ≡ cur + k
    → k < 4
    → (rest ≡ []) × (i3 ≡ pad) × (k ≡ 2 → i2 ≡ pad)
padding_here i0 i1 i2 i3 first cur k [] e whole here small = (
  refl,
  ground (arith, count_padding-one i0 i1 i2 i3),
  λ two. ground (arith, count_padding-one i0 i1 i2 i3),
)
padding_here i0 i1 i2 i3 first cur k (j0 ∷ rest) e whole here small =
    absurd (omega (arith, count_padding-le (i0 ∷ i1 ∷ i2 ∷ i3 ∷ j0 ∷ rest)))

pub cons_ne_nil : (c : ℕ) (s : Bytes) → c ∷ s ≢ []
cons_ne_nil c s e = cc

pub padding_behind :
    (i0 i1 i2 i3 first cur : ℕ) (rest : Bytes)
    → first + count_padding (i0 ∷ i1 ∷ i2 ∷ i3 ∷ rest) ≡ cur + length (i0 ∷ i1 ∷ i2 ∷ i3 ∷ rest)
    → length rest % 4 ≡ 0
    → rest ≢ []
    → first + count_padding rest ≡ cur + 4 + length rest
padding_behind i0 i1 i2 i3 first cur [] e whole some_rest = absurd (some_rest refl)
padding_behind i0 i1 i2 i3 first cur (j0 ∷ []) e whole some_rest = absurd (omega arith)
padding_behind i0 i1 i2 i3 first cur (j0 ∷ j1 ∷ []) e whole some_rest = absurd (omega arith)
padding_behind i0 i1 i2 i3 first cur (j0 ∷ j1 ∷ j2 ∷ []) e whole some_rest = absurd (omega arith)
padding_behind i0 i1 i2 i3 first cur (j0 ∷ j1 ∷ j2 ∷ j3 ∷ rest) e whole some_rest =
    omega (arith, count_padding-cons4 i0 i1 i2 i3 j0 j1 j2 j3 rest)
