-- ===== src/Base64/Safety.antt =====
-- On which inputs `Base64::decode` of mocktracer/src/base64.cpp returns, and how much.
use opentracing_cpp.Base.{
  ℕ, ◌+◌, ◌-◌, ◌*◌, ◌/◌, ◌%◌, ◌^◌, ◌<◌, ◌≤◌, bit_and, bit_or, shl, shr, ◌||◌, ◌≡◌, refl, ◌∙◌, [],
  ◌∷◌, ◌++◌, none, some, arith, Bytes, All, length, length-append, get_elem?-none, get_elem?-some,
  ◌==◌, if◌then◌else◌, false, true, Bool, Bool-cases, ==_iff, inl, inr,
}
use opentracing_cpp.Memory.{Host}
use opentracing_cpp.Error.{Outcome, returned, thrown, undefined}
use opentracing_cpp.Base64.{
  reverse_lookup_table, char_to_u32, reverse_lookup, count_padding, at_padding, decode_group,
  decode_loop, decode,
}
use opentracing_cpp.Base64.Bits.{char_to_u32-ascii}
use opentracing_cpp.Base64.RoundTrip.{decode_in_range}

abbrev pub IsAscii : ℕ → Type 0
IsAscii c = c < 128

-- The outcome is a string of at most so many bytes.
abbrev pub Returns : ℕ → Outcome Bytes → Type 0
Returns bound (returned out) = length out ≤ bound
Returns bound (thrown e) = ⊥
Returns bound undefined = ⊥

table_length : length reverse_lookup_table ≡ 256
table_length = refl

lookup_ascii : (host : Host) (c : ℕ) → IsAscii c → (v : ℕ) × (reverse_lookup host c ≡ some v)
unfolding reverse_lookup
lookup_ascii host c h =
    rw (char_to_u32-ascii host c h)
      (get_elem?-some reverse_lookup_table c (omega (arith, table_length)))

at_padding-le :
    (first index unused bound : ℕ) (result : Bytes)
    → length result ≤ bound
    → Returns bound (returned (at_padding first index unused result))
unfolding at_padding
at_padding-le first index unused bound result h = ground arith

Returns-if :
    (bound : ℕ) (test : Bool) (x y : Outcome Bytes)
    → Returns bound x
    → Returns bound y
    → Returns bound (if test then x else y)
Returns-if bound true x y hx hy = hx
Returns-if bound false x y hx hy = hy

nothing : (bound : ℕ) → Returns bound (returned [])
nothing bound = omega arith

length-snoc : (xs : Bytes) (x : ℕ) → length (xs ++ x ∷ []) ≡ length xs + 1
length-snoc xs x = omega (arith, length-append xs (x ∷ []))

decode_group-Returns :
    (host : Host) (first cur i0 i1 i2 i3 bound : ℕ) (result : Bytes) (next : Bytes → Outcome Bytes)
    → IsAscii i0
    → IsAscii i1
    → IsAscii i2
    → IsAscii i3
    → length result + 3 ≤ bound
    → ((out : Bytes) → length out ≡ length result + 3 → Returns bound (next out))
    → Returns bound (decode_group host first cur i0 i1 i2 i3 result next)
unfolding decode_group
decode_group-Returns host first cur i0 i1 i2 i3 bound result next h0 h1 h2 h3 room rest =
    let (a, ea) = lookup_ascii host i0 h0 in
    let (b, eb) = lookup_ascii host i1 h1 in
    let (c, ec) = lookup_ascii host i2 h2 in
    let (d, ed) = lookup_ascii host i3 h3 in
    let result1 : Bytes = result ++ (bit_or (shl a 2) (shr b 4) % 256) ∷ [] in
    let result2 : Bytes = result1 ++ (bit_or (shl b 4) (shr c 2) % 256) ∷ [] in
    let result3 : Bytes = result2 ++ (bit_or (shl c 6) d % 256) ∷ [] in
    let size1 : length result1 ≡ length result + 1 = length-snoc result _ in
    let size2 : length result2 ≡ length result1 + 1 = length-snoc result1 _ in
    let size3 : length result3 ≡ length result2 + 1 = length-snoc result2 _ in
    let first_end : length result1 ≤ bound = omega arith in
    let second_end : length result2 ≤ bound = omega arith in
    rw (ea, eb, ec, ed)
      (Returns-if bound (a == 64 || b == 64) (returned []) _ (nothing bound) (
        Returns-if bound (c == 64) _ _
          (at_padding-le first (cur + 2) (bit_and b 15) bound result1 first_end)
          (Returns-if bound (d == 64) _ (next result3)
            (at_padding-le first (cur + 3) (bit_and c 3) bound result2 second_end)
            (rest result3 (omega arith)))))

decode_loop-Returns :
    (host : Host) (first cur bound : ℕ) (input result : Bytes)
    → All IsAscii input
    → length input % 4 ≡ 0
    → length result + length input / 4 * 3 ≤ bound
    → Returns bound (decode_loop host first cur input result)
unfolding decode_loop
decode_loop-Returns host first cur bound [] result h whole room = omega arith
decode_loop-Returns host first cur bound (i0 ∷ []) result h whole room = absurd (omega arith)
decode_loop-Returns host first cur bound (i0 ∷ i1 ∷ []) result h whole room = absurd (omega arith)
decode_loop-Returns host first cur bound (i0 ∷ i1 ∷ i2 ∷ []) result h whole room =
    absurd (omega arith)
decode_loop-Returns host first cur bound (i0 ∷ i1 ∷ i2 ∷ i3 ∷ input) result
      (h0, (h1, (h2, (h3, h)))) whole room =
    decode_group-Returns host first cur i0 i1 i2 i3 bound result _ h0 h1 h2 h3 (omega arith)
      (λ out e.
        decode_loop-Returns host first (cur + 4) bound input out h (omega arith) (omega arith))

count_padding-le : (input : Bytes) → count_padding input ≤ 2
unfolding count_padding
count_padding-le input = ground arith

-- On ASCII text that is shorter than 2 ^ 31 `decode` returns, whatever the host and the text, and
-- gives at most three bytes for four characters.
pub decode-Returns :
    (host : Host) (input : Bytes)
    → All IsAscii input
    → length input < 2 ^ 31
    → Returns (length input / 4 * 3) (decode host input)
decode-Returns host [] h short = unfold decode in omega arith
decode-Returns host (c ∷ cs) h short = elim (Bool-cases (length (c ∷ cs) % 4 == 0)) [
  | inl whole ↦
      let w : length (c ∷ cs) % 4 ≡ 0 = (==_iff _ _).0 whole in
      rw (decode_in_range host (c ∷ cs) w (omega arith) short (count_padding-le (c ∷ cs)))
        (decode_loop-Returns host _ 0 _ (c ∷ cs) [] h w (omega arith))
  | inr uneven ↦ unfold decode in rw uneven (omega arith)
]

-- Where `char` is signed, a character above 127 at the front of a text of whole groups, shorter than
-- 2 ^ 31, makes `decode` read outside the table.
pub decode_undefined :
    (host : Host) (c : ℕ) (cs : Bytes)
    → host.char_is_signed ≡ true
    → 128 ≤ c
    → c < 256
    → length (c ∷ cs) % 4 ≡ 0
    → length (c ∷ cs) < 2 ^ 31
    → decode host (c ∷ cs) ≡ undefined
decode_undefined host c cs signed negative byte whole short =
    decode_in_range host (c ∷ cs) whole (omega arith) short (count_padding-le (c ∷ cs))
    ∙ first_lookup cs whole
  where
    far : 256 ≤ char_to_u32 host c
    far = unfold char_to_u32 in ground arith

    outside : reverse_lookup host c ≡ none
    outside =
        unfold reverse_lookup in
        get_elem?-none reverse_lookup_table (char_to_u32 host c) (omega (arith, table_length, far))

    first_lookup :
        (rest : Bytes)
        → length (c ∷ rest) % 4 ≡ 0
        → decode_loop host (length (c ∷ cs) - count_padding (c ∷ cs)) 0 (c ∷ rest) [] ≡ undefined
    first_lookup [] e = absurd (omega arith)
    first_lookup (x ∷ []) e = absurd (omega arith)
    first_lookup (x ∷ y ∷ []) e = absurd (omega arith)
    first_lookup (x ∷ y ∷ z ∷ rest) e = unfold decode_loop decode_group in rw outside
