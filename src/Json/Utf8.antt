-- ===== src/Json/Utf8.antt =====
-- UTF-8 as RFC 3629 defines it, for the reader of the texts of mocktracer/src/json.cpp.
use opentracing_cpp.Base.{
  ℕ, zero, suc, ◌≡◌, refl, ap, ◌∙◌, Bool, true, false, ◌&&◌, [], ◌∷◌, Bytes, leb, if◌then◌else◌,
  All,
}

-- What the first byte of a character says: so many bytes follow, of which the first has these bounds.
pub data Lead : Type 0 where
  lead : ℕ → ℕ → ℕ → Lead
  no_lead : Lead

abbrev pub lead_of : ℕ → Lead
lead_of c =
    if leb c 0x7f
    then lead 0 0x80 0xbf
    else if leb c 0xc1
    then no_lead
    else if leb c 0xdf
    then lead 1 0x80 0xbf
    else if leb c 0xe0
    then lead 2 0xa0 0xbf
    else if leb c 0xec
    then lead 2 0x80 0xbf
    else if leb c 0xed
    then lead 2 0x80 0x9f
    else if leb c 0xef
    then lead 2 0x80 0xbf
    else if leb c 0xf0
    then lead 3 0x90 0xbf
    else if leb c 0xf3
    then lead 3 0x80 0xbf
    else if leb c 0xf4
    then lead 3 0x80 0x8f
    else no_lead

-- What comes next in the text: a character, or so many bytes of one, of which the next has these bounds.
unfoldable pub is_utf8_in : Lead → Bytes → Bool
is_utf8_in no_lead s = false
is_utf8_in (lead zero lo hi) [] = true
is_utf8_in (lead (suc n) lo hi) [] = false
is_utf8_in (lead zero lo hi) (c ∷ s) = is_utf8_in (lead_of c) s
is_utf8_in (lead (suc n) lo hi) (c ∷ s) =
    let rest = is_utf8_in (lead n 0x80 0xbf) s in leb lo c && leb c hi && rest

unfoldable pub is_utf8 : Bytes → Bool
unfolding is_utf8_in
is_utf8 s = is_utf8_in (lead 0 0x80 0xbf) s

abbrev pub IsAscii : ℕ → Type 0
IsAscii c = leb c 0x7f ≡ true

lead_of-IsAscii : (c : ℕ) → IsAscii c → lead_of c ≡ lead 0 0x80 0xbf
lead_of-IsAscii c h = rw h refl

-- ASCII text is UTF-8.
pub is_utf8-ascii : (s : Bytes) → All IsAscii s → is_utf8 s ≡ true
unfolding is_utf8 is_utf8_in
is_utf8-ascii [] h = refl
is_utf8-ascii (c ∷ s) (hc, hs) =
    ap (λ l. is_utf8_in l s) (lead_of-IsAscii c hc) ∙ is_utf8-ascii s hs
