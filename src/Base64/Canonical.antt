-- ===== src/Base64/Canonical.antt =====
-- Which texts `Base64::decode` of mocktracer/src/base64.cpp accepts.
use opentracing_cpp.Base.{
  ℕ, ◌+◌, ◌-◌, ◌*◌, ◌/◌, ◌%◌, ◌^◌, ◌<◌, bit_or, shl, shr, ◌||◌, ◌≡◌, ◌≢◌, refl, sym, ◌∙◌, [], ◌∷◌,
  append-nil, arith, Bytes, IsByte, All, length, ◌==◌, Bool-cases, ==_iff, inl, inr,
}
use opentracing_cpp.Memory.{Host}
use opentracing_cpp.Error.{Outcome, returned, thrown, undefined}
use opentracing_cpp.Base64.{
  reverse_lookup, count_padding, decode_group, decode_loop, decode, encode,
}
use opentracing_cpp.Base64.Bits.{bit_or_4, bit_or_16, bit_or_64}
use opentracing_cpp.Base64.Groups.{groups, encode-groups}
use opentracing_cpp.Base64.RoundTrip.{decode_in_range}
use opentracing_cpp.Base64.Padding.{lookup_valid, count_padding-le, cons_ne_nil, padding_behind}
use opentracing_cpp.Base64.Written.{
  Written, Written-entry, Written-if, Written-cons, Written-two, Written-one,
}

-- A round of the loop, where the rest of the loop keeps to it.
decode_group-Written :
    (host : Host) (first cur i0 i1 i2 i3 : ℕ) (rest result : Bytes) (next : Bytes → Outcome Bytes)
    → first + count_padding (i0 ∷ i1 ∷ i2 ∷ i3 ∷ rest) ≡ cur + length (i0 ∷ i1 ∷ i2 ∷ i3 ∷ rest)
    → length rest % 4 ≡ 0
    → IsByte i0
    → IsByte i1
    → IsByte i2
    → IsByte i3
    → ((out : Bytes) → Written out rest (next out))
    → Written result
        (i0 ∷ i1 ∷ i2 ∷ i3 ∷ rest)
        (decode_group host first cur i0 i1 i2 i3 result next)
unfolding decode_group
decode_group-Written host first cur i0 i1 i2 i3 rest result next e whole h0 h1 h2 h3 ih =
    let input = i0 ∷ i1 ∷ i2 ∷ i3 ∷ rest in
    Written-entry result input (reverse_lookup host i0) _ λ a fa.
      Written-entry result input (reverse_lookup host i1) _ λ b fb.
        Written-if result input (a == 64 || b == 64) _ _ (λ _. inl refl)
          λ valid.
            let (ha, ea) = lookup_valid host i0 a h0 fa (ground arith) in
            let (hb, eb) = lookup_valid host i1 b h1 fb (ground arith) in
            Written-entry result input (reverse_lookup host i2) _ λ c fc.
              Written-if result input (c == 64) _ _
                (λ _. Written-two first cur b i0 i1 i2 i3 rest result a e whole ha hb ea eb)
                λ valid_c.
                  let (hc, ec) = lookup_valid host i2 c h2 fc valid_c in
                  Written-entry result input (reverse_lookup host i3) _ λ d fd.
                    Written-if result input (d == 64) _ _
                      (λ _.
                        Written-one first cur a b c i0 i1 i2 i3 rest result e whole ha hb hc ea eb
                          ec)
                      λ valid_d.
                        let (hd, ed) = lookup_valid host i3 d h3 fd valid_d in
                        let ex : bit_or (shl a 2) (shr b 4) % 256 ≡ a * 4 + b / 16 =
                          omega (arith, bit_or_4 a (b / 16) ha) in
                        let ey : bit_or (shl b 4) (shr c 2) % 256 ≡ (b * 16 + c / 4) % 256 =
                          omega (arith, bit_or_16 b (c / 4) hb) in
                        let ez : bit_or (shl c 6) d % 256 ≡ (c * 64 + d) % 256 =
                          omega (arith, bit_or_64 c d hc hd) in
                        rw (← ea, ← eb, ← ec, ← ed)
                          (Written-cons result rest a b c d _ _ _ _ ex ey ez ha hb hc hd (ih _))

decode_loop-Written :
    (host : Host) (first cur : ℕ) (input result : Bytes)
    → (input ≢ [] → first + count_padding input ≡ cur + length input)
    → length input % 4 ≡ 0
    → All IsByte input
    → Written result input (decode_loop host first cur input result)
unfolding decode_loop
decode_loop-Written host first cur [] result e whole bytes =
    inr ([], sym (append-nil result), refl, tt)
decode_loop-Written host first cur (i0 ∷ []) result e whole bytes = absurd (omega arith)
decode_loop-Written host first cur (i0 ∷ i1 ∷ []) result e whole bytes = absurd (omega arith)
decode_loop-Written host first cur (i0 ∷ i1 ∷ i2 ∷ []) result e whole bytes = absurd (omega arith)
decode_loop-Written host first cur (i0 ∷ i1 ∷ i2 ∷ i3 ∷ rest) result e whole
      (h0, (h1, (h2, (h3, bytes)))) =
    let here = e (cons_ne_nil i0 _) in
    let whole' : length rest % 4 ≡ 0 = omega arith in
    decode_group-Written host first cur i0 i1 i2 i3 rest result _ here whole' h0 h1 h2 h3 (λ out.
      decode_loop-Written host first (cur + 4) rest out
        (padding_behind i0 i1 i2 i3 first cur rest here whole') whole' bytes)

written_lem :
    (input out : Bytes) (o : Outcome Bytes)
    → Written [] input o
    → o ≡ returned out
    → out ≢ []
    → (groups out ≡ input) × All IsByte out
written_lem input out (returned o) (inl nothing) e some_out = absurd (some_out (cc))
written_lem input out (returned o) (inr (more, em, g, bytes)) e some_out =
    let same : more ≡ out = cc in (rw (← same) g, rw (← same) bytes)
written_lem input out (thrown x) w e some_out = absurd (cc)
written_lem input out undefined w e some_out = absurd (cc)

-- The decoder accepts no second text for the same bytes: if it returns some bytes for a text that is
-- shorter than 2 ^ 31, then these are bytes, and their encoding is that text.
pub encode-decode :
    (host : Host) (input out : Bytes)
    → All IsByte input
    → length input < 2 ^ 31
    → decode host input ≡ returned out
    → out ≢ []
    → (encode out ≡ input) × All IsByte out
unfolding decode
encode-decode host [] out bytes short decoded some_out = absurd (some_out (cc))
encode-decode host (x ∷ xs) out bytes short decoded some_out =
    elim (Bool-cases (length (x ∷ xs) % 4 == 0)) [
      | inl whole ↦
          let input = x ∷ xs in
          let whole' : length input % 4 ≡ 0 = (==_iff _ _).0 whole in
          let loop =
            decode_in_range host input whole' (omega arith) short (count_padding-le input) in
          let first : length input - count_padding input + count_padding input ≡ 0 + length input =
            omega (arith, count_padding-le input) in
          let (g, out_bytes) =
            written_lem input out (decode_loop host (length input - count_padding input) 0 input [])
              (decode_loop-Written host (length input - count_padding input) 0 input [] (λ _. first)
                whole' bytes)
              (sym loop ∙ decoded) some_out in
          (encode-groups out out_bytes ∙ g, out_bytes)
      | inr part ↦
          let nothing : returned [] ≡ returned out = rw part at decoded in absurd (some_out (cc))
    ]
