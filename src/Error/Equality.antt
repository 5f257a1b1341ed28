-- ===== src/Error/Equality.antt =====
-- `are_errors_equal` of include/opentracing/util.h against the standard comparison.
use opentracing_cpp.Base.{◌≡◌, ◌↔◌, refl, true, [], ◌∷◌, arith, Bytes}
use opentracing_cpp.Error.{ErrorCode, same_bytes, are_errors_equal, same_error_code}

pub same_bytes_sound : (xs ys : Bytes) → same_bytes xs ys ≡ true → xs ≡ ys
unfolding same_bytes
same_bytes_sound [] [] h = refl
same_bytes_sound [] (y ∷ ys) h = cc
same_bytes_sound (x ∷ xs) [] h = cc
same_bytes_sound (x ∷ xs) (y ∷ ys) h = ground (arith, same_bytes_sound xs ys)

pub same_bytes_refl : (xs : Bytes) → same_bytes xs xs ≡ true
unfolding same_bytes
same_bytes_refl [] = refl
same_bytes_refl (x ∷ xs) = ground (arith, same_bytes_refl xs)

same_bytes_iff : (xs ys : Bytes) → (same_bytes xs ys ≡ true) ↔ (xs ≡ ys)
same_bytes_iff xs ys = (same_bytes_sound xs ys, λ e. rw (← e) (same_bytes_refl xs))

-- Two codes are equal across copies of a library exactly when their values and the names of
-- their categories are.
are_errors_equal_iff :
    (lhs rhs : ErrorCode)
    → (are_errors_equal lhs rhs ≡ true)
      ↔ ((lhs.category.name ≡ rhs.category.name) × (lhs.value ≡ rhs.value))
unfolding are_errors_equal
are_errors_equal_iff lhs rhs = (
  λ h. ground (arith, same_bytes_sound lhs.category.name rhs.category.name),
  λ e. rw (e.0, e.1) (ground (arith, same_bytes_refl rhs.category.name)),
)

-- Codes that the standard comparison takes for equal are equal across copies of a library.
same_error_code-are_errors_equal :
    (lhs rhs : ErrorCode) → same_error_code lhs rhs ≡ true → are_errors_equal lhs rhs ≡ true
unfolding same_error_code are_errors_equal
same_error_code-are_errors_equal lhs rhs h = ground arith
