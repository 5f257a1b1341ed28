-- ===== src/Base64/Written.antt =====
-- The outcomes of `Base64::decode` of mocktracer/src/base64.cpp whose text is written back by the
-- encoder, for one group of characters.
use opentracing_cpp.Base.{
  ℕ, ◌+◌, ◌*◌, ◌/◌, ◌%◌, ◌<◌, bit_and, bit_or, shl, shr, ◌≡◌, ◌⊎◌, refl, sym, ◌∙◌, [], ◌∷◌, ◌++◌,
  append_assoc, Option, none, some, arith, Bytes, IsByte, All, length, ◌==◌, if◌then◌else◌, false,
  true, Bool, Bool-cases, ==_iff, inl, inr,
}
use opentracing_cpp.Error.{Outcome, returned, thrown, undefined}
use opentracing_cpp.Base64.{char_at, count_padding, at_padding, with_entry}
use opentracing_cpp.Base64.Bits.{bit_and_3, bit_and_15, bit_or_4, bit_or_16}
use opentracing_cpp.Base64.Groups.{groups}
use opentracing_cpp.Base64.Padding.{padding_here}

-- What an outcome says of the input, when `result` has been decoded before: nothing was decoded, or
-- the input is the groups of what was decoded.
abbrev pub Written : Bytes → Bytes → Outcome Bytes → Type 0
Written result input (returned out) =
    (out ≡ []) ⊎ ((more : Bytes) × (out ≡ result ++ more) × (groups more ≡ input) × All IsByte more)
Written result input (thrown e) = Unit {0}
Written result input undefined = Unit {0}

pub Written-entry :
    (result input : Bytes) (entry : Option ℕ) (next : ℕ → Outcome Bytes)
    → ((v : ℕ) → entry ≡ some v → Written result input (next v))
    → Written result input (with_entry entry next)
Written-entry result input none next h = tt
Written-entry result input (some v) next h = h v refl

pub Written-if :
    (result input : Bytes) (test : Bool) (x y : Outcome Bytes)
    → (test ≡ true → Written result input x)
    → (test ≡ false → Written result input y)
    → Written result input (if test then x else y)
Written-if result input true x y hx hy = hx refl
Written-if result input false x y hx hy = hy refl

-- A group in front.
pub Written-cons :
    (result input : Bytes) (a b c d x y z : ℕ) (o : Outcome Bytes)
    → (x ≡ a * 4 + b / 16)
    → (y ≡ (b * 16 + c / 4) % 256)
    → (z ≡ (c * 64 + d) % 256)
    → a < 64
    → b < 64
    → c < 64
    → d < 64
    → Written (((result ++ x ∷ []) ++ y ∷ []) ++ z ∷ []) input o
    → Written result (char_at a ∷ char_at b ∷ char_at c ∷ char_at d ∷ input) o
Written-cons result input a b c d x y z (thrown e) ex ey ez ha hb hc hd w = tt
Written-cons result input a b c d x y z undefined ex ey ez ha hb hc hd w = tt
Written-cons result input a b c d x y z (returned o) ex ey ez ha hb hc hd (inl nothing) =
    inl nothing
Written-cons result input a b c d x y z (returned o) ex ey ez ha hb hc hd
      (inr (more, e, g, bytes)) =
    let e1 : x / 4 ≡ a = omega arith in
    let e2 : x % 4 * 16 + y / 16 ≡ b = omega arith in
    let e3 : y % 16 * 4 + z / 64 ≡ c = omega arith in
    let e4 : z % 64 ≡ d = omega arith in
    inr (
      x ∷ y ∷ z ∷ more,
      e ∙ simp append_assoc,
      rw (e1, e2, e3, e4, g) refl,
      (omega arith, (omega arith, (omega arith, bytes))),
    )

-- One padding character ends the text, or two do.
pub Written-two :
    (first cur b : ℕ) (i0 i1 i2 i3 : ℕ) (rest result : Bytes) (a : ℕ)
    → first + count_padding (i0 ∷ i1 ∷ i2 ∷ i3 ∷ rest) ≡ cur + length (i0 ∷ i1 ∷ i2 ∷ i3 ∷ rest)
    → length rest % 4 ≡ 0
    → a < 64
    → b < 64
    → char_at a ≡ i0
    → char_at b ≡ i1
    → Written result (i0 ∷ i1 ∷ i2 ∷ i3 ∷ rest) (
        returned (
          at_padding first
            (cur + 2)
            (bit_and b 15)
            (result ++ (bit_or (shl a 2) (shr b 4) % 256) ∷ [])))
unfolding at_padding
Written-two first cur b i0 i1 i2 i3 rest result a e whole ha hb ea eb =
    elim (Bool-cases (first == cur + 2)) [
      | inr elsewhere ↦ inl (rw elsewhere refl)
      | inl here ↦ elim (Bool-cases (bit_and b 15 == 0)) [
        | inr used ↦ inl (rw (here, used) refl)
        | inl unused ↦
            let (last, pad3, pad2) =
              padding_here i0 i1 i2 i3 first cur 2 rest e whole ((==_iff _ _).0 here)
                (omega arith) in
            let x : ℕ = bit_or (shl a 2) (shr b 4) % 256 in
            let ex : x ≡ a * 4 + b / 16 = omega (arith, bit_or_4 a (b / 16) ha) in
            let eu : b % 16 ≡ 0 = sym (bit_and_15 b (omega arith)) ∙ (==_iff _ _).0 unused in
            let e1 : x / 4 ≡ a = omega arith in
            let e2 : x % 4 * 16 ≡ b = omega arith in
            inr (
              x ∷ [],
              rw (here, unused) refl,
              rw (e1, e2, ea, eb, last, pad3, pad2 refl) refl,
              (omega arith, tt),
            )
      ]
    ]

pub Written-one :
    (first cur a b c : ℕ) (i0 i1 i2 i3 : ℕ) (rest result : Bytes)
    → first + count_padding (i0 ∷ i1 ∷ i2 ∷ i3 ∷ rest) ≡ cur + length (i0 ∷ i1 ∷ i2 ∷ i3 ∷ rest)
    → length rest % 4 ≡ 0
    → a < 64
    → b < 64
    → c < 64
    → char_at a ≡ i0
    → char_at b ≡ i1
    → char_at c ≡ i2
    → Written result (i0 ∷ i1 ∷ i2 ∷ i3 ∷ rest) (
        returned (
          at_padding first (cur + 3) (bit_and c 3) (
            (result ++ (bit_or (shl a 2) (shr b 4) % 256) ∷ [])
            ++ (bit_or (shl b 4) (shr c 2) % 256) ∷ [])))
unfolding at_padding
Written-one first cur a b c i0 i1 i2 i3 rest result e whole ha hb hc ea eb ec =
    elim (Bool-cases (first == cur + 3)) [
      | inr elsewhere ↦ inl (rw elsewhere refl)
      | inl here ↦ elim (Bool-cases (bit_and c 3 == 0)) [
        | inr used ↦ inl (rw (here, used) refl)
        | inl unused ↦
            let (last, pad3, _) =
              padding_here i0 i1 i2 i3 first cur 3 rest e whole ((==_iff _ _).0 here)
                (omega arith) in
            let x : ℕ = bit_or (shl a 2) (shr b 4) % 256 in
            let y : ℕ = bit_or (shl b 4) (shr c 2) % 256 in
            let ex : x ≡ a * 4 + b / 16 = omega (arith, bit_or_4 a (b / 16) ha) in
            let ey : y ≡ (b * 16 + c / 4) % 256 = omega (arith, bit_or_16 b (c / 4) hb) in
            let eu : c % 4 ≡ 0 = sym (bit_and_3 c (omega arith)) ∙ (==_iff _ _).0 unused in
            let e1 : x / 4 ≡ a = omega arith in
            let e2 : x % 4 * 16 + y / 16 ≡ b = omega arith in
            let e3 : y % 16 * 4 ≡ c = omega arith in
            inr (
              x ∷ y ∷ [],
              rw (here, unused) (append_assoc result (x ∷ []) (y ∷ [])),
              rw (e1, e2, e3, ea, eb, ec, last, pad3) refl,
              (omega arith, (omega arith, tt)),
            )
      ]
    ]
