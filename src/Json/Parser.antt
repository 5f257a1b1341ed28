-- ===== src/Json/Parser.antt =====
-- A reader of JSON texts: it accepts only texts of RFC 8259, and of these some without white space. Each
-- call costs a unit of fuel.
use opentracing_cpp.Base.{
  ℕ, zero, suc, ◌*◌, Bool, true, false, [], ◌∷◌, Option, none, some, Bytes, codes, length, ◌==◌,
  if◌then◌else◌,
}
use opentracing_cpp.Json.Tree.{
  Json, Items, Members, null, bool, number, text, array, object, no_items, item, no_members, member,
}
use opentracing_cpp.Json.Numbers.{start, read_number}
use opentracing_cpp.Json.Escape.{read_string}

abbrev pub and_then {ℓ κ} :
    {A : Type ℓ} {B : Type κ}
    → Option (A × Bytes)
    → (A → Bytes → Option (B × Bytes))
    → Option (B × Bytes)
and_then none next = none
and_then (some (a, s)) next = next a s

abbrev pub yield {ℓ κ} : {A : Type ℓ} {B : Type κ} → (A → B) → A → Bytes → Option (B × Bytes)
yield f a s = some (f a, s)

-- The text must go on with these characters.
unfoldable pub expect : Bytes → Bytes → Option (Unit {0} × Bytes)
expect [] s = some (tt, s)
expect (c ∷ t) [] = none
expect (c ∷ t) (d ∷ s) = if d == c then expect t s else none

abbrev pub expect_separator : Bool → Bytes → Option (Unit {0} × Bytes)
expect_separator true s = some (tt, s)
expect_separator false s = expect (codes ",") s

abbrev pub is_next : ℕ → Bytes → Bool
is_next c [] = false
is_next c (d ∷ s) = d == c

abbrev pub behind : Bytes → Bytes
behind [] = []
behind (d ∷ s) = s

-- What the first character of a value says of it.
pub data Kind : Type 0 where
  quote bracket brace letter_n letter_t letter_f other : Kind

abbrev pub kind_of : ℕ → Kind
kind_of c =
    if c == b'"'
    then quote
    else if c == b'['
    then bracket
    else if c == b'{'
    then brace
    else if c == b'n'
    then letter_n
    else if c == b't'
    then letter_t
    else if c == b'f'
    then letter_f
    else other

unfoldable mutual
  pub parse_value : ℕ → Bytes → Option (Json × Bytes)
  parse_value zero s = none
  parse_value (suc f) [] = none
  parse_value (suc f) (c ∷ s) = parse_kind f (kind_of c) (c ∷ s)

  pub parse_kind : ℕ → Kind → Bytes → Option (Json × Bytes)
  parse_kind zero kind s = none
  parse_kind (suc f) quote s = and_then (read_string s) (yield text)
  parse_kind (suc f) bracket s = and_then (parse_items f true (behind s)) (yield array)
  parse_kind (suc f) brace s = and_then (parse_members f true (behind s)) (yield object)
  parse_kind (suc f) letter_n s = and_then (expect (codes "null") s) (yield (λ _. null))
  parse_kind (suc f) letter_t s = and_then (expect (codes "true") s) (yield (λ _. bool true))
  parse_kind (suc f) letter_f s = and_then (expect (codes "false") s) (yield (λ _. bool false))
  parse_kind (suc f) other s = and_then (read_number start [] s) (yield number)

  pub parse_items : ℕ → Bool → Bytes → Option (Items × Bytes)
  parse_items zero first s = none
  parse_items (suc f) first s =
      let more = and_then (expect_separator first s) (λ _ s1.
        and_then (parse_value f s1) (λ v s2. and_then (parse_items f false s2) (yield (item v)))) in
      if is_next b']' s then some (no_items, behind s) else more

  pub parse_members : ℕ → Bool → Bytes → Option (Members × Bytes)
  parse_members zero first s = none
  parse_members (suc f) first s =
      let more = and_then (expect_separator first s) (λ _ s1. and_then (read_string s1) (λ k s2.
        and_then (expect (codes ":") s2) (λ _ s3.
          and_then (parse_value f s3)
            (λ v s4. and_then (parse_members f false s4) (yield (member k v)))))) in
      if is_next b'}' s then some (no_members, behind s) else more

abbrev pub whole : Option (Json × Bytes) → Option Json
whole none = none
whole (some (v, [])) = some v
whole (some (v, c ∷ s)) = none

-- A whole text.
unfoldable pub parse_json : Bytes → Option Json
parse_json s = whole (parse_value (3 * length s) s)
