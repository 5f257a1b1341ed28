-- ===== src/Json/Escape.antt =====
-- The strings that mocktracer/src/json.cpp writes, and how they are read as JSON.
use opentracing_cpp.Base.{
  ℕ, zero, suc, ◌+◌, ◌-◌, ◌*◌, ◌/◌, ◌%◌, ◌<◌, ◌≡◌, refl, ap, ◌∙◌, Bool, true, false, ◌&&◌, ◌||◌,
  not, [], ◌∷◌, ◌++◌, append-nil, append_assoc, Option, none, some, arith, Bytes, codes, leb, ◌==◌,
  if◌then◌else◌, all_below, all_below_sound,
}
use opentracing_cpp.Error.{same_bytes}
use opentracing_cpp.Error.Equality.{same_bytes_sound}
use opentracing_cpp.Json.Utf8.{is_utf8}
use opentracing_cpp.Json.Text.{Writer, emit, digit, print_number, pad_left}
use opentracing_cpp.Json.{write_hex4, write_char, write_chars, write_escaped_string, write_uint64}

-- A reader of JSON strings. It accepts only what RFC 8259 does: no control character without a
-- backslash, and UTF-8. Of the codes, it reads those of ASCII characters, and it does not read `\/` and
-- `\f`. What comes next in the text is a character, what follows a backslash, or so many more digits of
-- a code.
data Mode : Type 0 where
  plain escaped : Mode
  hex : ℕ → ℕ → Mode

-- What a backslash and a letter stand for.
abbrev reveal : ℕ → Option ℕ
reveal e =
    if e == b'"'
    then some b'"'
    else if e == b'\\'
    then some b'\\'
    else if e == b'b'
    then some 8
    else if e == b'n'
    then some 10
    else if e == b'r'
    then some 13
    else if e == b't'
    then some 9
    else none

abbrev hex_value : ℕ → Option ℕ
hex_value c =
    if leb b'0' c && leb c b'9'
    then some (c - b'0')
    else if leb b'a' c && leb c b'f'
    then some (c - b'a' + 10)
    else none

-- The rest of the text is given the character that was read, or there is none.
abbrev go_on : Option ℕ → (ℕ → Option (Bytes × Bytes)) → Option (Bytes × Bytes)
go_on none rest = none
go_on (some c) rest = rest c

abbrev ascii : ℕ → Option ℕ
ascii c = if leb c 0x7f then some c else none

-- Behind the opening quote: the string, and the text behind the closing quote.
read_chars : Mode → Bytes → Bytes → Option (Bytes × Bytes)
read_chars mode out [] = none
read_chars plain out (c ∷ s) =
    let escape = read_chars escaped out s in
    let copy = read_chars plain (out ++ c ∷ []) s in
    if c == b'"'
    then some (out, s)
    else if c == b'\\'
    then escape
    else if leb c 0x1f
    then none
    else copy
read_chars escaped out (c ∷ s) =
    let code = read_chars (hex 3 0) out s in
    if c == b'u' then code else go_on (reveal c) (λ d. read_chars plain (out ++ d ∷ []) s)
read_chars (hex zero v) out (c ∷ s) =
    go_on (hex_value c) (λ d. go_on (ascii (v * 16 + d)) (λ a. read_chars plain (out ++ a ∷ []) s))
read_chars (hex (suc k) v) out (c ∷ s) =
    go_on (hex_value c) (λ d. read_chars (hex k (v * 16 + d)) out s)

-- The characters behind a backslash are ASCII characters, and so is what they stand for: the text of a
-- string is UTF-8 where the string is.
abbrev check_utf8 : Option (Bytes × Bytes) → Option (Bytes × Bytes)
check_utf8 none = none
check_utf8 (some (t, rest)) = if is_utf8 t then some (t, rest) else none

pub read_string : Bytes → Option (Bytes × Bytes)
read_string [] = none
read_string (c ∷ s) = if c == b'"' then check_utf8 (read_chars plain [] s) else none

-- A control character that has no letter of its own.
abbrev pub is_control : ℕ → Bool
is_control c = leb c 0x1f && not (c == 8 || c == 9 || c == 10 || c == 13)

-- The text for one character.
abbrev pub escape_char : ℕ → Bytes
escape_char c =
    if c == b'"'
    then codes "\\\""
    else if c == b'\\'
    then codes "\\\\"
    else if c == 8
    then codes "\\b"
    else if c == 10
    then codes "\\n"
    else if c == 13
    then codes "\\r"
    else if c == 9
    then codes "\\t"
    else if leb c 0x1f
    then codes "\\u" ++ pad_left 4 (print_number 16 c)
    else c ∷ []

abbrev pub escape_all : Bytes → Bytes
escape_all [] = []
escape_all (c ∷ s) = escape_char c ++ escape_all s

abbrev pub has_control : Bytes → Bool
has_control [] = false
has_control (c ∷ s) = is_control c || has_control s

hex4_table :
    all_below 32 (λ c.
      same_bytes
        (pad_left 4 (print_number 16 c))
        (b'0' ∷ b'0' ∷ digit (c / 16) ∷ digit (c % 16) ∷ []))
    ≡ true
unfolding print_number same_bytes
hex4_table = refl

hex4 :
    (c : ℕ)
    → c < 32
    → pad_left 4 (print_number 16 c) ≡ b'0' ∷ b'0' ∷ digit (c / 16) ∷ digit (c % 16) ∷ []
hex4 c h = same_bytes_sound _ _ (
    all_below_sound 32
      (λ d.
        same_bytes (pad_left 4 (print_number 16 d))
          (b'0' ∷ b'0' ∷ digit (d / 16) ∷ digit (d % 16) ∷ []))
      c hex4_table h)

hex_value-digit : (d : ℕ) → d < 16 → hex_value (digit d) ≡ some d
hex_value-digit d h = ground arith

write_char_lem :
    (c : ℕ) (w : Writer)
    → write_char c w ≡ record { text = w.text ++ escape_char c; is_hex = w.is_hex || is_control c }
unfolding write_char emit write_hex4
write_char_lem c w =
    ground (arith, append_assoc w.text (codes "\\u") (pad_left 4 (print_number 16 c)))

write_chars_lem :
    (s : Bytes) (w : Writer)
    → write_chars s w ≡ record { text = w.text ++ escape_all s; is_hex = w.is_hex || has_control s }
unfolding write_chars
write_chars_lem [] w = ground (arith, append-nil w.text)
write_chars_lem (c ∷ s) w =
    write_chars_lem s (write_char c w)
    ∙ rw (write_char_lem c w) (ground (arith, append_assoc w.text (escape_char c) (escape_all s)))

code_ascii : (c : ℕ) → c < 32 → ascii ((0 + c / 16) * 16 + c % 16) ≡ some c
code_ascii c h = ground arith

-- A control character is read back from its code.
read_code :
    (c : ℕ) (rest out : Bytes)
    → c < 32
    → read_chars plain out (codes "\\u" ++ (pad_left 4 (print_number 16 c) ++ rest))
      ≡ read_chars plain (out ++ c ∷ []) rest
unfolding read_chars
read_code c rest out h =
    rw (hex4 c h, hex_value-digit (c / 16) (omega arith), hex_value-digit (c % 16) (omega arith))
      (ap (λ (v : Option ℕ). go_on v (λ a. read_chars plain (out ++ a ∷ []) rest)) (code_ascii c h))

read_escaped_char :
    (c : ℕ) (rest out : Bytes)
    → read_chars plain out (escape_char c ++ rest) ≡ read_chars plain (out ++ c ∷ []) rest
unfolding read_chars
read_escaped_char c rest out = ground (arith, read_code c rest out)

read_escape_all :
    (s rest out : Bytes)
    → read_chars plain out (escape_all s ++ b'"' ∷ rest) ≡ some (out ++ s, rest)
unfolding read_chars
read_escape_all [] rest out = rw (append-nil out) refl
read_escape_all (c ∷ s) rest out = rw (append_assoc (escape_char c) (escape_all s) (b'"' ∷ rest)) (
    read_escaped_char c (escape_all s ++ b'"' ∷ rest) out
    ∙ read_escape_all s rest (out ++ c ∷ [])
    ∙ ap (λ (t : Bytes). some (t, rest)) (append_assoc out (c ∷ []) s))

-- A string between its quotes is read back, if it is UTF-8.
pub read_quoted :
    (s rest : Bytes)
    → is_utf8 s ≡ true
    → read_string (b'"' ∷ (escape_all s ++ b'"' ∷ rest)) ≡ some (s, rest)
unfolding read_string
read_quoted s rest h = rw (read_escape_all s rest [], h) refl

-- What one string adds to the stream, and what it leaves of the stream's base.
pub write_escaped_string_lem :
    (s : Bytes) (w : Writer)
    → write_escaped_string s w ≡ record {
      text = w.text ++ b'"' ∷ escape_all s ++ b'"' ∷ [];
      is_hex = w.is_hex || has_control s;
    }
unfolding write_escaped_string emit
write_escaped_string_lem s w = rw (write_chars_lem s (emit (codes "\"") w)) (
    ap (λ (t : Bytes). record { text = t; is_hex = w.is_hex || has_control s })
      (rw
        (
          append_assoc w.text (b'"' ∷ []) (escape_all s),
          append_assoc w.text (b'"' ∷ escape_all s) (b'"' ∷ []),
        )
        refl))

-- A number that is written behind a string comes out in base 16 if one of the string's characters
-- needed a code, and in the stream's own base if none did.
pub write_uint64-write_escaped_string :
    (s : Bytes) (n : ℕ) (w : Writer)
    → (write_uint64 n (write_escaped_string s w)).text
      ≡ (write_escaped_string s w).text
        ++ print_number (if w.is_hex || has_control s then 16 else 10) n
unfolding write_uint64 emit
write_uint64-write_escaped_string s n w = rw (write_escaped_string_lem s w) refl
