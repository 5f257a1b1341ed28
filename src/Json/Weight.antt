-- ===== src/Json/Weight.antt =====
-- The trees whose numbers are numbers and whose strings are UTF-8, and the fuel that the reader of JSON texts takes for a tree:
-- less than three times the length of its text.
use opentracing_cpp.Base.{
  ℕ, ◌+◌, ◌*◌, ◌≤◌, ◌≡◌, Bool, true, false, [], ◌∷◌, ◌++◌, arith, Bytes, length, length-append,
}
use opentracing_cpp.Json.Tree.{
  Json, Items, Members, null, bool, number, text, array, object, no_items, item, no_members, member,
  show, show_text, show_items, show_members, separator,
}
use opentracing_cpp.Json.Numbers.{run, is_number}
use opentracing_cpp.Json.Utf8.{is_utf8}
use opentracing_cpp.Json.Escape.{escape_all}

-- Every number of a tree has the text of one, and every string is UTF-8.
unfoldable mutual
  pub IsValid : Json → Type 0
  IsValid null = Unit
  IsValid (bool b) = Unit
  IsValid (number s) = is_number s ≡ true
  IsValid (text s) = is_utf8 s ≡ true
  IsValid (array vs) = AreValid vs
  IsValid (object ms) = HaveValid ms

  pub AreValid : Items → Type 0
  AreValid no_items = Unit
  AreValid (item v vs) = IsValid v × AreValid vs

  pub HaveValid : Members → Type 0
  HaveValid no_members = Unit
  HaveValid (member k v ms) = (is_utf8 k ≡ true) × (IsValid v × HaveValid ms)

-- The fuel that the reader takes for a tree.
unfoldable mutual
  pub weight : Json → ℕ
  weight null = 2
  weight (bool b) = 2
  weight (number s) = 2
  weight (text s) = 2
  weight (array vs) = 2 + weight_items vs
  weight (object ms) = 2 + weight_members ms

  pub weight_items : Items → ℕ
  weight_items no_items = 1
  weight_items (item v vs) = 1 + (weight v + weight_items vs)

  pub weight_members : Members → ℕ
  weight_members no_members = 1
  weight_members (member k v ms) = 1 + (weight v + weight_members ms)

pub empty_number : is_number [] ≡ true → ⊥
unfolding run
empty_number h = cc

pub weight-le : (v : Json) → 2 ≤ weight v
unfolding weight
weight-le null = omega arith
weight-le (bool b) = omega arith
weight-le (number s) = omega arith
weight-le (text s) = omega arith
weight-le (array vs) = omega arith
weight-le (object ms) = omega arith

pub weight_items-le : (vs : Items) → 1 ≤ weight_items vs
unfolding weight_items
weight_items-le no_items = omega arith
weight_items-le (item v vs) = omega arith

pub weight_members-le : (ms : Members) → 1 ≤ weight_members ms
unfolding weight_members
weight_members-le no_members = omega arith
weight_members-le (member k v ms) = omega arith

length-number : (s : Bytes) → is_number s ≡ true → 1 ≤ length s
length-number [] h = absurd (empty_number h)
length-number (c ∷ s) h = omega arith

mutual
  unfolding show weight show_text IsValid

  pub weight-show : (v : Json) → IsValid v → 1 + weight v ≤ 3 * length (show v)
  weight-show null h = omega arith
  weight-show (bool true) h = omega arith
  weight-show (bool false) h = omega arith
  weight-show (number s) h = omega (arith, length-number s h)
  weight-show (text s) h = omega (arith, length-append (escape_all s) (b'"' ∷ []))
  weight-show (array vs) h = omega (arith, weight_items-show vs true h)
  weight-show (object ms) h = omega (arith, weight_members-show ms true h)

  weight_items-show :
      (vs : Items) (first : Bool) → AreValid vs → weight_items vs ≤ 3 * length (show_items first vs)
  weight_items-show no_items first h = omega arith
  weight_items-show (item v vs) first (hv, hs) = omega (
    arith,
    weight-show v hv,
    weight_items-show vs false hs,
    length-append (separator first) (show v ++ show_items false vs),
    length-append (show v) (show_items false vs),
  )

  weight_members-show :
      (ms : Members) (first : Bool)
      → HaveValid ms
      → weight_members ms ≤ 3 * length (show_members first ms)
  weight_members-show no_members first h = omega arith
  weight_members-show (member k v ms) first (hk, (hv, hs)) =
      let tail = b':' ∷ (show v ++ show_members false ms) in
      omega (
        arith,
        weight-show v hv,
        weight_members-show ms false hs,
        length-append (separator first) (show_text k ++ tail),
        length-append (show_text k) tail,
        length-append (show v) (show_members false ms),
      )
