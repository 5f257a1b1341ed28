-- ===== src/Json/Parsed.antt =====
-- The text of a tree is read back as the tree.
use opentracing_cpp.Base.{
  ℕ, zero, suc, ◌*◌, ◌≤◌, ◌≡◌, refl, sym, ap, ◌∙◌, Bool, true, false, [], ◌∷◌, ◌++◌, append-nil,
  append_assoc, arith, some, Bytes, length, ◌==◌,
}
use opentracing_cpp.Json.Tree.{
  Json, Items, Members, null, bool, number, text, array, object, no_items, item, no_members, member,
  show, show_text, show_items, show_members,
}
use opentracing_cpp.Json.Numbers.{advance, run, is_number, stops, read_number-is_number}
use opentracing_cpp.Json.Utf8.{is_utf8}
use opentracing_cpp.Json.Escape.{escape_all, read_string, read_quoted}
use opentracing_cpp.Json.Parser.{
  and_then, yield, expect, is_next, other, kind_of, parse_value, parse_kind, parse_items,
  parse_members, whole, parse_json,
}
use opentracing_cpp.Json.Weight.{
  IsValid, AreValid, HaveValid, weight, weight_items, weight_members, empty_number, weight-le,
  weight_items-le, weight_members-le, weight-show,
}

kind_of-number :
    (c : ℕ) (s : Bytes) → is_number (c ∷ s) ≡ true → (kind_of c ≡ other) × ((c == b']') ≡ false)
unfolding run advance
kind_of-number c s h = (ground arith, ground arith)

-- No value begins with the end of an array.
show-begins : (v : Json) (rest : Bytes) → IsValid v → is_next b']' (show v ++ rest) ≡ false
unfolding show IsValid show_text
show-begins null rest h = refl
show-begins (bool true) rest h = refl
show-begins (bool false) rest h = refl
show-begins (number []) rest h = absurd (empty_number h)
show-begins (number (c ∷ s)) rest h = (kind_of-number c s h).1
show-begins (text s) rest h = refl
show-begins (array vs) rest h = refl
show-begins (object ms) rest h = refl

stops-items : (vs : Items) (rest : Bytes) → stops (show_items false vs ++ rest) ≡ true
unfolding show_items
stops-items no_items rest = refl
stops-items (item v vs) rest = refl

stops-members : (ms : Members) (rest : Bytes) → stops (show_members false ms ++ rest) ≡ true
unfolding show_members
stops-members no_members rest = refl
stops-members (member k v ms) rest = refl

read_text : (s rest : Bytes) → is_utf8 s ≡ true → read_string (show_text s ++ rest) ≡ some (s, rest)
unfolding show_text
read_text s rest h = rw (append_assoc (escape_all s) (b'"' ∷ []) rest) (read_quoted s rest h)

text_begins :
    (c : ℕ) (s rest : Bytes) → (b'"' == c) ≡ false → is_next c (show_text s ++ rest) ≡ false
unfolding show_text
text_begins c s rest h = h

parse_text :
    (f : ℕ) (s rest : Bytes)
    → is_utf8 s ≡ true
    → parse_value (suc (suc f)) (show_text s ++ rest) ≡ some (text s, rest)
unfolding parse_value
parse_text f s rest h = unfold show_text in ap (λ r. and_then r (yield text)) (read_text s rest h)

-- The first character of a number says that it is one.
parse_number :
    (f : ℕ) (s rest : Bytes)
    → is_number s ≡ true
    → stops rest ≡ true
    → parse_value (suc (suc f)) (s ++ rest) ≡ some (number s, rest)
unfolding parse_value
parse_number f [] rest h stop = absurd (empty_number h)
parse_number f (c ∷ s) rest h stop =
    ap (λ k. parse_kind (suc f) k (c ∷ s ++ rest)) ((kind_of-number c s h).0)
    ∙ ap (λ r. and_then r (yield number)) (read_number-is_number (c ∷ s) rest h stop)

mutual
  unfolding parse_value show IsValid weight expect

  parse_value-show :
      (v : Json) (rest : Bytes) (f : ℕ)
      → IsValid v
      → stops rest ≡ true
      → weight v ≤ f
      → parse_value f (show v ++ rest) ≡ some (v, rest)
  parse_value-show v rest zero h stop enough = absurd (omega (arith, weight-le v))
  parse_value-show v rest (suc zero) h stop enough = absurd (omega (arith, weight-le v))
  parse_value-show null rest (suc (suc f)) h stop enough = refl
  parse_value-show (bool true) rest (suc (suc f)) h stop enough = refl
  parse_value-show (bool false) rest (suc (suc f)) h stop enough = refl
  parse_value-show (number s) rest (suc (suc f)) h stop enough = parse_number f s rest h stop
  parse_value-show (text s) rest (suc (suc f)) h stop enough = parse_text f s rest h
  parse_value-show (array vs) rest (suc (suc f)) h stop enough =
      ap (λ r. and_then r (yield array)) (parse_items-show vs true rest f h (omega arith))
  parse_value-show (object ms) rest (suc (suc f)) h stop enough =
      ap (λ r. and_then r (yield object)) (parse_members-show ms true rest f h (omega arith))

  pub parse_items-show :
      (vs : Items) (first : Bool) (rest : Bytes) (f : ℕ)
      → AreValid vs
      → weight_items vs ≤ f
      → parse_items f first (show_items first vs ++ rest) ≡ some (vs, rest)
  parse_items-show vs first rest zero h enough = absurd (omega (arith, weight_items-le vs))
  parse_items-show no_items first rest (suc f) h enough = refl
  parse_items-show (item v vs) true rest (suc f) (hv, hs) enough =
      rw
        (
          append_assoc (show v) (show_items false vs) rest,
          show-begins v (show_items false vs ++ rest) hv,
          parse_value-show v (show_items false vs ++ rest) f hv (stops-items vs rest) (omega arith),
          parse_items-show vs false rest f hs (omega (arith, weight-le v)),
        )
        refl
  parse_items-show (item v vs) false rest (suc f) (hv, hs) enough =
      rw
        (
          append_assoc (show v) (show_items false vs) rest,
          parse_value-show v (show_items false vs ++ rest) f hv (stops-items vs rest) (omega arith),
          parse_items-show vs false rest f hs (omega (arith, weight-le v)),
        )
        refl

  parse_members-show :
      (ms : Members) (first : Bool) (rest : Bytes) (f : ℕ)
      → HaveValid ms
      → weight_members ms ≤ f
      → parse_members f first (show_members first ms ++ rest) ≡ some (ms, rest)
  parse_members-show ms first rest zero h enough = absurd (omega (arith, weight_members-le ms))
  parse_members-show no_members first rest (suc f) h enough = refl
  parse_members-show (member k v ms) true rest (suc f) (hk, (hv, hs)) enough =
      rw
        (
          append_assoc (show_text k) (b':' ∷ (show v ++ show_members false ms)) rest,
          append_assoc (show v) (show_members false ms) rest,
          text_begins b'}' k (b':' ∷ (show v ++ (show_members false ms ++ rest))) refl,
          read_text k (b':' ∷ (show v ++ (show_members false ms ++ rest))) hk,
          parse_value-show v (show_members false ms ++ rest) f hv (stops-members ms rest)
              (omega arith),
          parse_members-show ms false rest f hs (omega (arith, weight-le v)),
        )
        refl
  parse_members-show (member k v ms) false rest (suc f) (hk, (hv, hs)) enough =
      rw
        (
          append_assoc (show_text k) (b':' ∷ (show v ++ show_members false ms)) rest,
          append_assoc (show v) (show_members false ms) rest,
          read_text k (b':' ∷ (show v ++ (show_members false ms ++ rest))) hk,
          parse_value-show v (show_members false ms ++ rest) f hv (stops-members ms rest)
              (omega arith),
          parse_members-show ms false rest f hs (omega (arith, weight-le v)),
        )
        refl

-- The text of a tree whose numbers are numbers and whose strings are UTF-8 is read as that tree.
pub parse_json-show : (v : Json) → IsValid v → parse_json (show v) ≡ some v
unfolding parse_json
parse_json-show v h = ap whole (
    ap (parse_value (3 * length (show v))) (sym (append-nil (show v)))
    ∙ parse_value-show v [] (3 * length (show v)) h refl (omega (arith, weight-show v h)))
