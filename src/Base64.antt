-- ===== src/Base64.antt =====
-- mocktracer/src/base64.cpp. The bytes of a `char` are its bit patterns.
pub mod Bits
pub mod Groups
pub mod RoundTrip
pub mod Safety
pub mod Padding
pub mod Written
pub mod Canonical
use opentracing_cpp.Base.{
  ℕ, ◌+◌, ◌-◌, ◌*◌, ◌/◌, ◌%◌, ◌^◌, bit_and, bit_or, Bool, ◌&&◌, ◌||◌, not, List, [], ◌∷◌, ◌++◌,
  Option, none, some, Bytes, codes, length, get_elem?, get_or, ltb, leb, ◌==◌, if◌then◌else◌,
  u32_mod, shl, shr,
}
use opentracing_cpp.Memory.{Host}
use opentracing_cpp.Error.{Outcome, returned, thrown, undefined, length_error}

abbrev pub char_table : Bytes
char_table = codes "ABCDEFGHIJKLMNOPQRSTUVWXYZabcdefghijklmnopqrstuvwxyz0123456789+/"

abbrev pub pad : ℕ
pad = b'='

-- `REVERSE_LOOKUP_TABLE`, line by line as in the source: 256 entries, and 64 marks no character.
abbrev pub reverse_lookup_table : List ℕ
reverse_lookup_table =
    64 ∷ 64 ∷ 64 ∷ 64 ∷ 64 ∷ 64 ∷ 64 ∷ 64 ∷ 64 ∷ 64 ∷ 64 ∷ 64 ∷ 64 ∷ 64 ∷ 64 ∷ 64 ∷ 64 ∷ 64 ∷ 64
    ∷ 64 ∷ 64 ∷ 64 ∷ 64 ∷ 64 ∷ 64 ∷ 64 ∷ 64 ∷ 64 ∷ 64 ∷ 64 ∷ 64 ∷ 64 ∷ 64 ∷ 64 ∷ 64 ∷ 64 ∷ 64 ∷ 64
    ∷ 64 ∷ 64 ∷ 64 ∷ 64 ∷ 64 ∷ 62 ∷ 64 ∷ 64 ∷ 64 ∷ 63 ∷ 52 ∷ 53 ∷ 54 ∷ 55 ∷ 56 ∷ 57 ∷ 58 ∷ 59 ∷ 60
    ∷ 61 ∷ 64 ∷ 64 ∷ 64 ∷ 64 ∷ 64 ∷ 64 ∷ 64 ∷ 0 ∷ 1 ∷ 2 ∷ 3 ∷ 4 ∷ 5 ∷ 6 ∷ 7 ∷ 8 ∷ 9 ∷ 10 ∷ 11 ∷ 12
    ∷ 13 ∷ 14 ∷ 15 ∷ 16 ∷ 17 ∷ 18 ∷ 19 ∷ 20 ∷ 21 ∷ 22 ∷ 23 ∷ 24 ∷ 25 ∷ 64 ∷ 64 ∷ 64 ∷ 64 ∷ 64 ∷ 64
    ∷ 26 ∷ 27 ∷ 28 ∷ 29 ∷ 30 ∷ 31 ∷ 32 ∷ 33 ∷ 34 ∷ 35 ∷ 36 ∷ 37 ∷ 38 ∷ 39 ∷ 40 ∷ 41 ∷ 42 ∷ 43 ∷ 44
    ∷ 45 ∷ 46 ∷ 47 ∷ 48 ∷ 49 ∷ 50 ∷ 51 ∷ 64 ∷ 64 ∷ 64 ∷ 64 ∷ 64 ∷ 64 ∷ 64 ∷ 64 ∷ 64 ∷ 64 ∷ 64 ∷ 64
    ∷ 64 ∷ 64 ∷ 64 ∷ 64 ∷ 64 ∷ 64 ∷ 64 ∷ 64 ∷ 64 ∷ 64 ∷ 64 ∷ 64 ∷ 64 ∷ 64 ∷ 64 ∷ 64 ∷ 64 ∷ 64 ∷ 64
    ∷ 64 ∷ 64 ∷ 64 ∷ 64 ∷ 64 ∷ 64 ∷ 64 ∷ 64 ∷ 64 ∷ 64 ∷ 64 ∷ 64 ∷ 64 ∷ 64 ∷ 64 ∷ 64 ∷ 64 ∷ 64 ∷ 64
    ∷ 64 ∷ 64 ∷ 64 ∷ 64 ∷ 64 ∷ 64 ∷ 64 ∷ 64 ∷ 64 ∷ 64 ∷ 64 ∷ 64 ∷ 64 ∷ 64 ∷ 64 ∷ 64 ∷ 64 ∷ 64 ∷ 64
    ∷ 64 ∷ 64 ∷ 64 ∷ 64 ∷ 64 ∷ 64 ∷ 64 ∷ 64 ∷ 64 ∷ 64 ∷ 64 ∷ 64 ∷ 64 ∷ 64 ∷ 64 ∷ 64 ∷ 64 ∷ 64 ∷ 64
    ∷ 64 ∷ 64 ∷ 64 ∷ 64 ∷ 64 ∷ 64 ∷ 64 ∷ 64 ∷ 64 ∷ 64 ∷ 64 ∷ 64 ∷ 64 ∷ 64 ∷ 64 ∷ 64 ∷ 64 ∷ 64 ∷ 64
    ∷ 64 ∷ 64 ∷ 64 ∷ 64 ∷ 64 ∷ 64 ∷ 64 ∷ 64 ∷ 64 ∷ 64 ∷ 64 ∷ 64 ∷ 64 ∷ 64 ∷ 64 ∷ 64 ∷ 64 ∷ 64 ∷ 64
    ∷ 64 ∷ 64 ∷ 64 ∷ 64 ∷ 64 ∷ 64 ∷ 64 ∷ []

-- `CHAR_TABLE[i]`, for `i` below 64.
unfoldable pub char_at : ℕ → ℕ
char_at i = get_or char_table i 0

-- `static_cast<uint32_t>(c)` of a `char`: a negative one becomes a number near 2 ^ 32.
unfoldable pub char_to_u32 : Host → ℕ → ℕ
char_to_u32 host c = if host.char_is_signed && leb 128 c then u32_mod - 256 + c else c

-- `REVERSE_LOOKUP_TABLE[static_cast<uint32_t>(c)]`: `none` is a read outside the table.
unfoldable pub reverse_lookup : Host → ℕ → Option ℕ
reverse_lookup host c = get_elem? reverse_lookup_table (char_to_u32 host c)

-- `static_cast<int>(length) / 4 * 3`, less the padding, is handed to `reserve` as a `size_t`: a
-- negative number becomes one that `reserve` refuses.
unfoldable pub reserve_fits : ℕ → ℕ → Bool
reserve_fits n padding = let low = n % u32_mod in ltb low (2 ^ 31) && leb padding (low / 4 * 3)

-- The number of padding characters that the two nested tests find at the end of the input.
unfoldable pub count_padding : Bytes → ℕ
count_padding input =
    if get_or input (length input - 1) 0 == pad
    then if get_or input (length input - 2) 0 == pad then 2 else 1
    else 0

-- The bodies of the tests on `c` and `d` in the loop: padding that ends the input and leaves no
-- unused bits ends the decoding, and all else is invalid.
unfoldable pub at_padding : ℕ → ℕ → ℕ → Bytes → Bytes
at_padding first_padding index unused result =
    if not (first_padding == index) then [] else if not (unused == 0) then [] else result

-- One look-up in the loop: what follows is given the value.
abbrev pub with_entry : Option ℕ → (ℕ → Outcome Bytes) → Outcome Bytes
with_entry none next = undefined
with_entry (some v) next = next v

-- A round of the loop over the four characters at `cur_read`. What is appended last goes on with
-- `next`, the rest of the loop.
unfoldable pub decode_group :
    Host → ℕ → ℕ → ℕ → ℕ → ℕ → ℕ → Bytes → (Bytes → Outcome Bytes) → Outcome Bytes
decode_group host first_padding cur_read i0 i1 i2 i3 result next =
    with_entry (reverse_lookup host i0) λ a. with_entry (reverse_lookup host i1) λ b.
      if a == 64 || b == 64
      then returned []
      else let result1 = result ++ (bit_or (shl a 2) (shr b 4) % 256) ∷ [] in
        with_entry (reverse_lookup host i2) λ c.
          if c == 64
          then returned (at_padding first_padding (cur_read + 2) (bit_and b 15) result1)
          else let result2 = result1 ++ (bit_or (shl b 4) (shr c 2) % 256) ∷ [] in
            with_entry (reverse_lookup host i3) λ d.
              if d == 64
              then returned (at_padding first_padding (cur_read + 3) (bit_and c 3) result2)
              else next (result2 ++ (bit_or (shl c 6) d % 256) ∷ [])

-- The `while` loop. The list is what is left of the input, so its length is `bytes_left`.
unfoldable pub decode_loop : Host → ℕ → ℕ → Bytes → Bytes → Outcome Bytes
decode_loop host first_padding cur_read [] result = returned result
decode_loop host first_padding cur_read (i0 ∷ i1 ∷ i2 ∷ i3 ∷ input) result =
    decode_group host first_padding cur_read i0 i1 i2 i3 result
      (λ out. decode_loop host first_padding (cur_read + 4) input out)
decode_loop host first_padding cur_read _ result = undefined

-- `Base64::decode`
unfoldable pub decode : Host → Bytes → Outcome Bytes
decode host input =
    let n = length input in
    let padding = count_padding input in
    if not (n % 4 == 0) || n == 0
    then returned []
    else if not (reserve_fits n padding)
    then thrown length_error
    else decode_loop host (n - padding) 0 input []

-- The state of the encoder: `next_c` and `ret`.
pub record Encoder : Type 0 where
  pub next_c : ℕ
  pub ret : Bytes

-- The three cases of the `switch` on `pos % 3`.
unfoldable pub encode_first : ℕ → Encoder → Encoder
encode_first cur_char e = record {
  next_c = shl (bit_and cur_char 0x03) 4 % 256;
  ret = e.ret ++ char_at (shr cur_char 2) ∷ [];
}

unfoldable pub encode_second : ℕ → Encoder → Encoder
encode_second cur_char e = record {
  next_c = shl (bit_and cur_char 0x0f) 2 % 256;
  ret = e.ret ++ char_at (bit_or e.next_c (shr cur_char 4)) ∷ [];
}

unfoldable pub encode_third : ℕ → Encoder → Encoder
encode_third cur_char e = record {
  next_c = 0;
  ret = e.ret ++ char_at (bit_or e.next_c (shr cur_char 6)) ∷ char_at (bit_and cur_char 0x3f) ∷ [];
}

-- `Base64::encodeBase`
unfoldable pub encode_base : ℕ → ℕ → Encoder → Encoder
encode_base cur_char pos e =
    if pos % 3 == 0
    then encode_first cur_char e
    else if pos % 3 == 1
    then encode_second cur_char e
    else encode_third cur_char e

-- `Base64::encodeLast`
unfoldable pub encode_last : ℕ → ℕ → Bytes → Bytes
encode_last pos last_char ret =
    if pos % 3 == 1
    then ret ++ char_at last_char ∷ pad ∷ pad ∷ []
    else if pos % 3 == 2
    then ret ++ char_at last_char ∷ pad ∷ []
    else ret

-- The `for` loop of `Base64::encode`, with `encodeLast` behind it.
unfoldable pub encode_loop : ℕ → Bytes → Encoder → Bytes
encode_loop pos [] e = encode_last pos e.next_c e.ret
encode_loop pos (x ∷ input) e = encode_loop (pos + 1) input (encode_base x pos e)

-- `Base64::encode`
unfoldable pub encode : Bytes → Bytes
encode input = encode_loop 0 input (record { next_c = 0; ret = [] })
