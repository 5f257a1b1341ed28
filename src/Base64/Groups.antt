-- ===== src/Base64/Groups.antt =====
-- What `Base64::encode` of mocktracer/src/base64.cpp writes, group by group.
use opentracing_cpp.Base.{
  ℕ, ◌+◌, ◌*◌, ◌/◌, ◌%◌, ◌-◌, ◌^◌, ◌<◌, ltb, ◌==◌, true, if◌then◌else◌, all_below, all_below_sound,
  ap, ◌≡◌, refl, sym, ◌∙◌, [], ◌∷◌, ◌++◌, append-nil, append_assoc, arith, Bytes, IsByte, All,
}
use opentracing_cpp.Base64.{
  char_at, pad, encode_first, encode_second, encode_third, encode_base, encode_last, encode_loop,
  encode,
}
use opentracing_cpp.Base64.Bits.{bit_and_3, bit_and_15, bit_and_63, bit_or_4, bit_or_16}

-- What the code writes for each group of bytes.
abbrev pub groups : Bytes → Bytes
groups [] = []
groups (x ∷ []) = char_at (x / 4) ∷ char_at (x % 4 * 16) ∷ pad ∷ pad ∷ []
groups (x ∷ y ∷ []) =
    char_at (x / 4) ∷ char_at (x % 4 * 16 + y / 16) ∷ char_at (y % 16 * 4) ∷ pad ∷ []
groups (x ∷ y ∷ z ∷ input) =
    char_at (x / 4)
    ∷ char_at (x % 4 * 16 + y / 16)
    ∷ char_at (y % 16 * 4 + z / 64)
    ∷ char_at (z % 64)
    ∷ groups input

-- The three rounds of a group, each with the bits that the round before left.
encode_base_first :
    (x pos : ℕ) (ret : Bytes)
    → IsByte x
    → pos % 3 ≡ 0
    → encode_base x pos (record { next_c = 0; ret = ret })
      ≡ record { next_c = x % 4 * 16; ret = ret ++ char_at (x / 4) ∷ [] }
unfolding encode_base encode_first
encode_base_first x pos ret h phase = ground (arith, bit_and_3 x h)

encode_base_second :
    (x y pos : ℕ) (ret : Bytes)
    → IsByte y
    → pos % 3 ≡ 0
    → encode_base y (pos + 1) (record { next_c = x % 4 * 16; ret = ret })
      ≡ record { next_c = y % 16 * 4; ret = ret ++ char_at (x % 4 * 16 + y / 16) ∷ [] }
unfolding encode_base encode_second
encode_base_second x y pos ret h phase = ground (arith, bit_and_15 y h, bit_or_16 (x % 4) (y / 16))

encode_base_third :
    (y z pos : ℕ) (ret : Bytes)
    → IsByte z
    → pos % 3 ≡ 0
    → encode_base z (pos + 1 + 1) (record { next_c = y % 16 * 4; ret = ret })
      ≡ record { next_c = 0; ret = ret ++ char_at (y % 16 * 4 + z / 64) ∷ char_at (z % 64) ∷ [] }
unfolding encode_base encode_third
encode_base_third y z pos ret h phase = ground (arith, bit_and_63 z h, bit_or_4 (y % 16) (z / 64))

encode_last_none : (pos next : ℕ) (ret : Bytes) → pos % 3 ≡ 0 → encode_last pos next ret ≡ ret
unfolding encode_last
encode_last_none pos next ret phase = ground arith

encode_last_two :
    (pos next : ℕ) (ret : Bytes)
    → pos % 3 ≡ 0
    → encode_last (pos + 1) next ret ≡ ret ++ char_at next ∷ pad ∷ pad ∷ []
unfolding encode_last
encode_last_two pos next ret phase = ground arith

encode_last_one :
    (pos next : ℕ) (ret : Bytes)
    → pos % 3 ≡ 0
    → encode_last (pos + 1 + 1) next ret ≡ ret ++ char_at next ∷ pad ∷ []
unfolding encode_last
encode_last_one pos next ret phase = ground arith

-- From the start of a group on, the loop appends the groups of what is left.
encode_loop-groups :
    (input : Bytes) (pos : ℕ) (ret : Bytes)
    → All IsByte input
    → pos % 3 ≡ 0
    → encode_loop pos input (record { next_c = 0; ret = ret }) ≡ ret ++ groups input
unfolding encode_loop
encode_loop-groups [] pos ret h phase = encode_last_none pos 0 ret phase ∙ sym (append-nil ret)
encode_loop-groups (x ∷ []) pos ret (hx, _) phase =
    rw (encode_base_first x pos ret hx phase, encode_last_two pos (x % 4 * 16) _ phase)
      (append_assoc ret _ _)
encode_loop-groups (x ∷ y ∷ []) pos ret (hx, (hy, _)) phase =
    rw
      (
        encode_base_first x pos ret hx phase,
        encode_base_second x y pos _ hy phase,
        encode_last_one pos (y % 16 * 4) _ phase,
      )
      (simp append_assoc)
encode_loop-groups (x ∷ y ∷ z ∷ input) pos ret (hx, (hy, (hz, rest))) phase =
    rw
      (
        encode_base_first x pos ret hx phase,
        encode_base_second x y pos _ hy phase,
        encode_base_third y z pos _ hz phase,
        encode_loop-groups input (pos + 1 + 1 + 1) _ rest (omega arith),
      )
      (simp append_assoc)

-- On bytes, `encode` writes the groups.
pub encode-groups : (input : Bytes) → All IsByte input → encode input ≡ groups input
unfolding encode
encode-groups input h = encode_loop-groups input 0 [] h refl

-- The alphabet of RFC 4648: the capital letters, the small letters, the digits, `+` and `/`.
abbrev pub alphabet : ℕ → ℕ
alphabet v =
    if ltb v 26
    then b'A' + v
    else if ltb v 52
    then b'a' + (v - 26)
    else if ltb v 62
    then b'0' + (v - 52)
    else if v == 62
    then b'+'
    else b'/'

-- Base 64 by RFC 4648: the bits of each group of three bytes in a number of 24 bits, six at a time from
-- the left. Of a last group with one or two bytes, the bits that are missing are zero, and `=` stands for
-- the characters without a bit of the input.
abbrev pub base64 : Bytes → Bytes
base64 [] = []
base64 (x ∷ []) =
    let bits = x * 2 ^ 16 in
    alphabet (bits / 2 ^ 18) ∷ alphabet (bits / 2 ^ 12 % 64) ∷ b'=' ∷ b'=' ∷ []
base64 (x ∷ y ∷ []) =
    let bits = x * 2 ^ 16 + y * 2 ^ 8 in
    alphabet (bits / 2 ^ 18)
    ∷ alphabet (bits / 2 ^ 12 % 64)
    ∷ alphabet (bits / 2 ^ 6 % 64)
    ∷ b'='
    ∷ []
base64 (x ∷ y ∷ z ∷ input) =
    let bits = x * 2 ^ 16 + y * 2 ^ 8 + z in
    alphabet (bits / 2 ^ 18)
    ∷ alphabet (bits / 2 ^ 12 % 64)
    ∷ alphabet (bits / 2 ^ 6 % 64)
    ∷ alphabet (bits % 64)
    ∷ base64 input

alphabet_table : all_below 64 (λ v. char_at v == alphabet v) ≡ true
unfolding char_at
alphabet_table = refl

char_at-alphabet : (v w : ℕ) → v < 64 → v ≡ w → char_at v ≡ alphabet w
char_at-alphabet v w h e =
    ground (arith, all_below_sound 64 (λ u. char_at u == alphabet u) v alphabet_table h)
    ∙ ap alphabet e

-- On bytes, `encode` writes what RFC 4648 describes: the characters of its alphabet for the bits of the
-- input, six at a time, and the padding of the last group.
pub encode-base64 : (input : Bytes) → All IsByte input → encode input ≡ base64 input
encode-base64 input h = encode-groups input h ∙ same input h
  where
    same : (s : Bytes) → All IsByte s → groups s ≡ base64 s
    same [] h = refl
    same (x ∷ []) (hx, _) =
        rw
          (
            char_at-alphabet (x / 4) (x * 2 ^ 16 / 2 ^ 18) (omega arith) (omega arith),
            char_at-alphabet (x % 4 * 16) (x * 2 ^ 16 / 2 ^ 12 % 64) (omega arith) (omega arith),
          )
          refl
    same (x ∷ y ∷ []) (hx, (hy, _)) =
        let bits = x * 2 ^ 16 + y * 2 ^ 8 in
        rw
          (
            char_at-alphabet (x / 4) (bits / 2 ^ 18) (omega arith) (omega arith),
            char_at-alphabet (x % 4 * 16 + y / 16) (bits / 2 ^ 12 % 64) (omega arith) (omega arith),
            char_at-alphabet (y % 16 * 4) (bits / 2 ^ 6 % 64) (omega arith) (omega arith),
          )
          refl
    same (x ∷ y ∷ z ∷ s) (hx, (hy, (hz, hs))) =
        let bits = x * 2 ^ 16 + y * 2 ^ 8 + z in
        rw
          (
            char_at-alphabet (x / 4) (bits / 2 ^ 18) (omega arith) (omega arith),
            char_at-alphabet (x % 4 * 16 + y / 16) (bits / 2 ^ 12 % 64) (omega arith) (omega arith),
            char_at-alphabet (y % 16 * 4 + z / 64) (bits / 2 ^ 6 % 64) (omega arith) (omega arith),
            char_at-alphabet (z % 64) (bits % 64) (omega arith) (omega arith),
            same s hs,
          )
          refl
