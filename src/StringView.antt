-- ===== src/StringView.antt =====
-- include/opentracing/string_view.h: a pointer and a length. The storage is a list of bytes, an address
-- is a place in it, and a read outside of it is undefined, which is `none`.
pub mod Shown
use opentracing_cpp.Base.{
  ℕ, zero, suc, ◌+◌, Bool, true, false, ◌&&◌, not, [], ◌∷◌, ◌++◌, Option, none, some, Bytes, length,
  get_elem?, drop, ◌==◌, if◌then◌else◌,
}

-- `data_` and `length_`; the null pointer is `none`.
pub record StringView : Type 0 where
  pub data_ : Option ℕ
  pub length_ : ℕ

-- `string_view()`
abbrev pub empty_view : StringView
empty_view = record { data_ = none; length_ = 0 }

abbrev one_more : Option ℕ → Option ℕ
one_more none = none
one_more (some n) = some (suc n)

-- `std::strlen` of what begins at an address: the bytes before the first that is zero.
unfoldable pub strlen : Bytes → Option ℕ
strlen [] = none
strlen (c ∷ s) = let n = strlen s in if c == 0 then some 0 else one_more n

abbrev pub view_at : ℕ → Option ℕ → Option StringView
view_at p none = none
view_at p (some n) = some (record { data_ = some p; length_ = n })

-- `string_view(const char* str)`
unfoldable pub view_of_c_string : Bytes → ℕ → Option StringView
view_of_c_string storage str = view_at str (strlen (drop str storage))

-- `string_view(const char* str, size_t len)`, and of the characters and the length of a string.
abbrev pub view_of_range : ℕ → ℕ → StringView
view_of_range str len = record { data_ = some str; length_ = len }

abbrev pub cons_read : Option ℕ → Option Bytes → Option Bytes
cons_read none rest = none
cons_read (some c) none = none
cons_read (some c) (some s) = some (c ∷ s)

-- So many bytes from an address on.
unfoldable pub read_range : Bytes → ℕ → ℕ → Option Bytes
read_range storage p zero = some []
read_range storage p (suc n) = cons_read (get_elem? storage p) (read_range storage (suc p) n)

abbrev pub shown_from : Bytes → Option ℕ → ℕ → Option Bytes
shown_from storage none zero = some []
shown_from storage none (suc n) = none
shown_from storage (some p) n = read_range storage p n

-- What `begin()` and `end()` enclose, as `operator std::string` and `operator<<` copy it.
unfoldable pub to_string : Bytes → StringView → Option Bytes
to_string storage v = shown_from storage v.data_ v.length_

-- `empty()`
unfoldable pub is_empty : StringView → Bool
is_empty v = v.length_ == 0

abbrev pub read_at : Bytes → ℕ → Option ℕ → Option ℕ
read_at storage i none = none
read_at storage i (some p) = get_elem? storage (p + i)

-- `operator[]`: the index is not tested.
unfoldable pub index : Bytes → StringView → ℕ → Option ℕ
index storage v i = read_at storage i v.data_

abbrev pub compare_reads : Option ℕ → Option ℕ → Option Bool → Option Bool
compare_reads none y rest = none
compare_reads (some x) none rest = none
compare_reads (some x) (some y) rest = if x == y then rest else some false

-- `std::equal`, which stops at the first difference.
unfoldable pub equal_range : Bytes → ℕ → ℕ → ℕ → Option Bool
equal_range storage p q zero = some true
equal_range storage p q (suc n) =
    compare_reads (get_elem? storage p) (get_elem? storage q)
      (equal_range storage (suc p) (suc q) n)

-- `std::equal` of a range of pointers that may be null, and are if nothing can be read.
abbrev pub equal_from : Bytes → Option ℕ → Option ℕ → ℕ → Option Bool
equal_from storage (some p) (some q) n = equal_range storage p q n
equal_from storage none q zero = some true
equal_from storage none q (suc n) = none
equal_from storage (some p) none zero = some true
equal_from storage (some p) none (suc n) = none

-- `operator==`
unfoldable pub equal_views : Bytes → StringView → StringView → Option Bool
equal_views storage lhs rhs =
    if lhs.length_ == rhs.length_
    then equal_from storage lhs.data_ rhs.data_ lhs.length_
    else some false

abbrev pub negated : Option Bool → Option Bool
negated none = none
negated (some b) = some (not b)

-- `operator!=`
unfoldable pub differing_views : Bytes → StringView → StringView → Option Bool
differing_views storage lhs rhs = negated (equal_views storage lhs rhs)
