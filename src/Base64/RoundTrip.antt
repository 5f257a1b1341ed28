-- ===== src/Base64/RoundTrip.antt =====
-- `Base64::decode` of mocktracer/src/base64.cpp on what `Base64::encode` writes.
use opentracing_cpp.Base.{
  u32_mod, ℕ, suc, ◌+◌, ◌-◌, ◌*◌, ◌/◌, ◌%◌, ◌^◌, ◌<◌, ◌≤◌, ◌≡◌, refl, sym, ap, ◌∙◌, [], ◌∷◌, ◌++◌,
  append-nil, append_assoc, arith, Bytes, IsByte, All, length,
}
use opentracing_cpp.Memory.{Host}
use opentracing_cpp.Error.{Outcome, returned}
use opentracing_cpp.Base64.{
  char_at, pad, count_padding, reserve_fits, at_padding, decode_group, decode_loop, decode, encode,
}
use opentracing_cpp.Base64.Bits.{
  bit_and_3, bit_and_15, bit_or_4, bit_or_16, bit_or_64, reverse_lookup-char_at, char_at-ne-pad,
  reverse_lookup-pad,
}
use opentracing_cpp.Base64.Groups.{groups, encode-groups}

-- The number of padding characters that the groups of some bytes end with.
abbrev padding_of : Bytes → ℕ
padding_of [] = 0
padding_of (x ∷ []) = 2
padding_of (x ∷ y ∷ []) = 1
padding_of (x ∷ y ∷ z ∷ input) = padding_of input

-- A round over four characters of the alphabet puts their bits together.
decode_group-chars :
    (host : Host) (first cur a b c d : ℕ) (result : Bytes) (next : Bytes → Outcome Bytes)
    → a < 64
    → b < 64
    → c < 64
    → d < 64
    → decode_group host first cur (char_at a) (char_at b) (char_at c) (char_at d) result next
      ≡ next (
          ((result ++ ((a * 4 + b / 16) % 256) ∷ []) ++ ((b * 16 + c / 4) % 256) ∷ [])
          ++ ((c * 64 + d) % 256) ∷ [])
unfolding decode_group
decode_group-chars host first cur a b c d result next ha hb hc hd =
    rw
      (
        reverse_lookup-char_at host a ha,
        reverse_lookup-char_at host b hb,
        reverse_lookup-char_at host c hc,
        reverse_lookup-char_at host d hd,
      )
      (ground (arith, bit_or_4 a (b / 16) ha, bit_or_16 b (c / 4) hb, bit_or_64 c d hc hd))

decode_group-one :
    (host : Host) (first cur a b : ℕ) (result : Bytes) (next : Bytes → Outcome Bytes)
    → a < 64
    → b < 64
    → b % 16 ≡ 0
    → first ≡ cur + 2
    → decode_group host first cur (char_at a) (char_at b) pad pad result next
      ≡ returned (result ++ ((a * 4 + b / 16) % 256) ∷ [])
unfolding decode_group at_padding
decode_group-one host first cur a b result next ha hb unused here =
    rw (reverse_lookup-char_at host a ha, reverse_lookup-char_at host b hb, reverse_lookup-pad host)
      (ground (arith, bit_or_4 a (b / 16) ha, bit_and_15 b))

decode_group-two :
    (host : Host) (first cur a b c : ℕ) (result : Bytes) (next : Bytes → Outcome Bytes)
    → a < 64
    → b < 64
    → c < 64
    → c % 4 ≡ 0
    → first ≡ cur + 3
    → decode_group host first cur (char_at a) (char_at b) (char_at c) pad result next
      ≡ returned ((result ++ ((a * 4 + b / 16) % 256) ∷ []) ++ ((b * 16 + c / 4) % 256) ∷ [])
unfolding decode_group at_padding
decode_group-two host first cur a b c result next ha hb hc unused here =
    rw
      (
        reverse_lookup-char_at host a ha,
        reverse_lookup-char_at host b hb,
        reverse_lookup-char_at host c hc,
        reverse_lookup-pad host,
      )
      (ground (arith, bit_or_4 a (b / 16) ha, bit_or_16 b (c / 4) hb, bit_and_3 c))

-- The loop over the groups of some bytes appends the bytes.
decode_loop-groups :
    (host : Host) (first cur : ℕ) (input result : Bytes)
    → All IsByte input
    → first + padding_of input ≡ cur + length (groups input)
    → decode_loop host first cur (groups input) result ≡ returned (result ++ input)
unfolding decode_loop
decode_loop-groups host first cur [] result h e = ap returned (sym (append-nil result))
decode_loop-groups host first cur (x ∷ []) result (hx, _) e =
    decode_group-one host first cur (x / 4) (x % 4 * 16) result _ (omega arith) (omega arith)
      (omega arith) (omega arith)
    ∙ ap returned (ap (λ (b : ℕ). result ++ b ∷ []) (omega arith))
decode_loop-groups host first cur (x ∷ y ∷ []) result (hx, (hy, _)) e =
    let b : ℕ = x % 4 * 16 + y / 16 in
    let c : ℕ = y % 16 * 4 in
    let first_byte : (x / 4 * 4 + b / 16) % 256 ≡ x = omega arith in
    let second_byte : (b * 16 + c / 4) % 256 ≡ y = omega arith in
    decode_group-two host first cur (x / 4) b c result _ (omega arith) (omega arith) (omega arith)
      (omega arith) (omega arith)
    ∙ rw (first_byte, second_byte) (ap returned (append_assoc result _ _))
decode_loop-groups host first cur (x ∷ y ∷ z ∷ input) result (hx, (hy, (hz, rest))) e =
    let b : ℕ = x % 4 * 16 + y / 16 in
    let c : ℕ = y % 16 * 4 + z / 64 in
    let d : ℕ = z % 64 in
    let first_byte : (x / 4 * 4 + b / 16) % 256 ≡ x = omega arith in
    let second_byte : (b * 16 + c / 4) % 256 ≡ y = omega arith in
    let third_byte : (c * 64 + d) % 256 ≡ z = omega arith in
    decode_group-chars host first cur (x / 4) b c d result _ (omega arith) (omega arith)
      (omega arith) (omega arith)
    ∙ rw (first_byte, second_byte, third_byte)
        (decode_loop-groups host first (cur + 4) input _ rest (omega arith)
          ∙ ap returned (simp append_assoc))

length-groups : (input : Bytes) → length (groups input) ≡ (length input + 2) / 3 * 4
length-groups [] = omega arith
length-groups (x ∷ []) = omega arith
length-groups (x ∷ y ∷ []) = omega arith
length-groups (x ∷ y ∷ z ∷ input) = omega (arith, length-groups input)

padding_of-le : (input : Bytes) → padding_of input ≤ 2
padding_of-le [] = omega arith
padding_of-le (x ∷ []) = omega arith
padding_of-le (x ∷ y ∷ []) = omega arith
padding_of-le (x ∷ y ∷ z ∷ input) = padding_of-le input

-- Four more characters in front do not change the padding at the end.
pub count_padding-cons4 :
    (a b c d e f g h : ℕ) (r : Bytes)
    → count_padding (a ∷ b ∷ c ∷ d ∷ e ∷ f ∷ g ∷ h ∷ r) ≡ count_padding (e ∷ f ∷ g ∷ h ∷ r)
unfolding count_padding
count_padding-cons4 a b c d e f g h r =
    let n = length r in
    let n7 : suc (suc (suc (suc (suc (suc (suc (suc n))))))) - 1
        ≡ suc (suc (suc (suc (suc (suc (suc n)))))) =
      omega arith in
    let n6 : suc (suc (suc (suc (suc (suc (suc (suc n))))))) - 2
        ≡ suc (suc (suc (suc (suc (suc n))))) =
      omega arith in
    let n3 : suc (suc (suc (suc n))) - 1 ≡ suc (suc (suc n)) = omega arith in
    let n2 : suc (suc (suc (suc n))) - 2 ≡ suc (suc n) = omega arith in rw (n7, n6, n3, n2)

count_padding-groups :
    (input : Bytes) → All IsByte input → count_padding (groups input) ≡ padding_of input
unfolding count_padding
count_padding-groups [] h = refl
count_padding-groups (x ∷ []) h = refl
count_padding-groups (x ∷ y ∷ []) h = rw (char_at-ne-pad (y % 16 * 4) (omega arith))
count_padding-groups (x ∷ y ∷ z ∷ []) h = rw (char_at-ne-pad (z % 64) (omega arith))
count_padding-groups (x ∷ y ∷ z ∷ w ∷ []) h = refl
count_padding-groups (x ∷ y ∷ z ∷ w ∷ v ∷ []) h = rw (char_at-ne-pad (v % 16 * 4) (omega arith))
count_padding-groups (x ∷ y ∷ z ∷ w ∷ v ∷ u ∷ input) (_, (_, (_, h))) =
    count_padding-cons4 _ _ _ _ _ _ _ _ (groups input) ∙ count_padding-groups (w ∷ v ∷ u ∷ input) h

-- On a whole number of groups, in the range of `int`, `decode` runs its loop.
pub decode_in_range :
    (host : Host) (input : Bytes)
    → length input % 4 ≡ 0
    → 0 < length input
    → length input < 2 ^ 31
    → count_padding input ≤ 2
    → decode host input ≡ decode_loop host (length input - count_padding input) 0 input []
unfolding decode reserve_fits
decode_in_range host input whole some_input short few =
    let n = length input in
    let fits : n % u32_mod ≡ n = omega arith in rw (fits, whole) (ground arith)

-- Decoding what was encoded gives the bytes back: any bytes, as long as their encoding is shorter
-- than 2 ^ 31, the range of the `int` that the decoder computes a size in.
pub decode-encode :
    (host : Host) (input : Bytes)
    → All IsByte input
    → (length input + 2) / 3 * 4 < 2 ^ 31
    → decode host (encode input) ≡ returned input
decode-encode host [] h short = rw (encode-groups [] tt) (unfold decode in refl)
decode-encode host (x ∷ xs) h short =
    let input = x ∷ xs in
    let chars = groups input in
    let padding : count_padding chars ≡ padding_of input = count_padding-groups input h in
    let size : length chars ≡ (length input + 2) / 3 * 4 = length-groups input in
    rw (encode-groups input h) (
      decode_in_range host chars (omega arith) (omega arith) (omega arith)
        (omega (arith, padding_of-le input))
      ∙ decode_loop-groups host _ 0 input [] h (omega (arith, padding_of-le input)))
