-- ===== src/StringView/Shown.antt =====
-- The operations of include/opentracing/string_view.h against the bytes that a view shows.
use opentracing_cpp.Base.{
  ℕ, zero, suc, ◌≡◌, refl, sym, ap, false, not, [], ◌∷◌, ◌++◌, Option, none, some, Bytes, All,
  length, get_elem?, length-append, drop_append, ◌==◌, if◌then◌else◌, arith, append_assoc,
  Bool-cases, inl, inr,
}
use opentracing_cpp.Error.{same_bytes}
use opentracing_cpp.StringView.{
  StringView, strlen, view_of_c_string, view_of_range, read_range, to_string, equal_range,
  equal_views, cons_read, shown_from, equal_from, negated, differing_views,
}

cons_read-some :
    (o : Option ℕ) (r : Option Bytes) (s : Bytes)
    → cons_read o r ≡ some s
    → (c : ℕ) × (t : Bytes) × (o ≡ some c) × (r ≡ some t) × (s ≡ c ∷ t)
cons_read-some none r s e = absurd (cc)
cons_read-some (some c) none s e = absurd (cc)
cons_read-some (some c) (some t) s e = (c, t, refl, refl, cc)

-- What a read of a range gives is as long as the range.
length-read_range :
    (storage : Bytes) (p n : ℕ) (s : Bytes) → read_range storage p n ≡ some s → length s ≡ n
unfolding read_range
length-read_range storage p zero [] e = refl
length-read_range storage p zero (c ∷ s) e = absurd (cc)
length-read_range storage p (suc n) s e =
    let (c, t, first, behind, whole) = cons_read-some _ _ s e in
    rw whole (ap suc (length-read_range storage (suc p) n t behind))

equal_range-same_bytes :
    (storage : Bytes) (p q n : ℕ) (s t : Bytes)
    → read_range storage p n ≡ some s
    → read_range storage q n ≡ some t
    → equal_range storage p q n ≡ some (same_bytes s t)
unfolding read_range equal_range same_bytes
equal_range-same_bytes storage p q zero [] [] e f = refl
equal_range-same_bytes storage p q zero (c ∷ s) t e f = absurd (cc)
equal_range-same_bytes storage p q zero [] (d ∷ t) e f = absurd (cc)
equal_range-same_bytes storage p q (suc n) s t e f =
    let (c, s', first, behind, whole) = cons_read-some _ _ s e in
    let (d, t', first', behind', whole') = cons_read-some _ _ t f in
    rw
      (
        whole,
        whole',
        first,
        first',
        equal_range-same_bytes storage (suc p) (suc q) n s' t' behind behind',
      )
      (ground arith)

length-to_string :
    (storage : Bytes) (v : StringView) (s : Bytes)
    → to_string storage v ≡ some s
    → length s ≡ v.length_
unfolding to_string
length-to_string storage v s e = go v.data_ v.length_ s e
  where
    go : (p : Option ℕ) (n : ℕ) (s : Bytes) → shown_from storage p n ≡ some s → length s ≡ n
    go none zero [] e = refl
    go none zero (c ∷ s) e = absurd (cc)
    go none (suc n) s e = absurd (cc)
    go (some p) n s e = length-read_range storage p n s e

same_bytes-length : (s t : Bytes) → (length s == length t) ≡ false → same_bytes s t ≡ false
unfolding same_bytes
same_bytes-length [] [] h = absurd (ground arith)
same_bytes-length [] (d ∷ t) h = refl
same_bytes-length (c ∷ s) [] h = refl
same_bytes-length (c ∷ s) (d ∷ t) h = ground (arith, same_bytes-length s t)

shown_nothing :
    (storage : Bytes) (p : Option ℕ) (s : Bytes) → shown_from storage p 0 ≡ some s → s ≡ []
unfolding read_range
shown_nothing storage none [] e = refl
shown_nothing storage none (c ∷ s) e = absurd (cc)
shown_nothing storage (some p) [] e = refl
shown_nothing storage (some p) (c ∷ s) e = absurd (cc)

equal_from-same_bytes :
    (storage : Bytes) (p q : Option ℕ) (n : ℕ) (s t : Bytes)
    → shown_from storage p n ≡ some s
    → shown_from storage q n ≡ some t
    → equal_from storage p q n ≡ some (same_bytes s t)
equal_from-same_bytes storage (some p) (some q) n s t e f =
    equal_range-same_bytes storage p q n s t e f
equal_from-same_bytes storage none q zero s t e f =
    rw (shown_nothing storage none s e, shown_nothing storage q t f) (unfold same_bytes in refl)
equal_from-same_bytes storage none q (suc n) s t e f = absurd (cc)
equal_from-same_bytes storage (some p) none zero s t e f =
    rw (shown_nothing storage (some p) s e, shown_nothing storage none t f)
      (unfold same_bytes in refl)
equal_from-same_bytes storage (some p) none (suc n) s t e f = absurd (cc)

equal_lengths :
    (storage : Bytes) (p q : Option ℕ) (n m : ℕ) (s t : Bytes)
    → shown_from storage p n ≡ some s
    → shown_from storage q m ≡ some t
    → length s ≡ n
    → length t ≡ m
    → (if n == m then equal_from storage p q n else some false) ≡ some (same_bytes s t)
equal_lengths storage p q n m s t e f ls lt = elim (Bool-cases (n == m)) [
  | inl same ↦
      let m_n : m ≡ n = ground arith in
      rw same (equal_from-same_bytes storage p q n s t e (rw m_n at f))
  | inr other ↦ rw other (ap some (sym (same_bytes-length s t (rw (ls, lt) other))))
]

equal_views_lem :
    (storage : Bytes) (lhs rhs : StringView) (s t : Bytes)
    → to_string storage lhs ≡ some s
    → to_string storage rhs ≡ some t
    → equal_views storage lhs rhs ≡ some (same_bytes s t)
unfolding equal_views to_string
equal_views_lem storage lhs rhs s t e f =
    equal_lengths storage lhs.data_ rhs.data_ lhs.length_ rhs.length_ s t e f
      (length-to_string storage lhs s e) (length-to_string storage rhs t f)

-- Where the bytes of two views can be read, `operator==` returns whether they are the same bytes, and
-- `operator!=` whether they are not, wherever the bytes are stored.
pub equal_views-same_bytes :
    (storage : Bytes) (lhs rhs : StringView) (s t : Bytes)
    → to_string storage lhs ≡ some s
    → to_string storage rhs ≡ some t
    → (equal_views storage lhs rhs ≡ some (same_bytes s t))
      × (differing_views storage lhs rhs ≡ some (not (same_bytes s t)))
unfolding differing_views
equal_views-same_bytes storage lhs rhs s t e f =
    let same : equal_views storage lhs rhs ≡ some (same_bytes s t) =
      equal_views_lem storage lhs rhs s t e f in
    (same, ap negated same)

get_elem?-append : (xs : Bytes) (c : ℕ) (ys : Bytes) → get_elem? (xs ++ c ∷ ys) (length xs) ≡ some c
get_elem?-append [] c ys = refl
get_elem?-append (x ∷ xs) c ys = get_elem?-append xs c ys

-- The bytes of a string are read where it is stored.
read_range-append :
    (before s after : Bytes)
    → read_range (before ++ (s ++ after)) (length before) (length s) ≡ some s
unfolding read_range
read_range-append before [] after = refl
read_range-append before (c ∷ s) after =
    let one_on : length (before ++ c ∷ []) ≡ suc (length before) =
      omega (arith, length-append before (c ∷ [])) in
    let ih = read_range-append (before ++ c ∷ []) s after in
    let rest = rw (append_assoc before (c ∷ []) (s ++ after), one_on) at ih in
    rw (get_elem?-append before c (s ++ after), rest) refl

abbrev pub IsNotZero : ℕ → Type 0
IsNotZero c = (c == 0) ≡ false

strlen-append : (s after : Bytes) → All IsNotZero s → strlen (s ++ 0 ∷ after) ≡ some (length s)
unfolding strlen
strlen-append [] after h = refl
strlen-append (c ∷ s) after (hc, hs) = rw (hc, strlen-append s after hs) refl

-- A view of a C string, which is stored with a zero behind it and has none within, shows the string.
-- The view equals that of the same characters and their number.
to_string-view_of_c_string :
    (before s after : Bytes)
    → All IsNotZero s
    → let storage = before ++ (s ++ 0 ∷ after) in
      (view_of_c_string storage (length before) ≡ some (view_of_range (length before) (length s)))
      × (to_string storage (view_of_range (length before) (length s)) ≡ some s)
unfolding view_of_c_string to_string
to_string-view_of_c_string before s after h = (
  rw (drop_append before (s ++ 0 ∷ after), strlen-append s after h) refl,
  read_range-append before s (0 ∷ after),
)
