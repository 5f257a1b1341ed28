-- ===== src/Base/Counts.antt =====
-- Sums over lists, and lists of threads taken apart at the one that moves.
use Prim.Native.Nat.{ℕ, ◌+◌}
use mathlib.Core.Path.{◌≡◌, refl, ap, ◌∙◌}
use mathlib.Core.List.{List, [], ◌∷◌, ◌++◌, append_assoc}
use native.Mathlib.Omega.{arith}
use opentracing_cpp.Base.Lists.{All}

module _ {ℓ} {A : Type ℓ} where
  -- The sum of a measure of the elements.
  abbrev pub count : (A → ℕ) → List A → ℕ
  count f [] = 0
  count f (x ∷ xs) = f x + count f xs

  pub count-append : (f : A → ℕ) (xs ys : List A) → count f (xs ++ ys) ≡ count f xs + count f ys
  count-append f [] ys = omega arith
  count-append f (x ∷ xs) ys = omega (arith, count-append f xs ys)

  pub count_at :
      (f : A → ℕ) (xs before after : List A) (x : A)
      → xs ≡ before ++ x ∷ after
      → count f xs ≡ count f before + (f x + count f after)
  count_at f xs before after x e = ap (count f) e ∙ count-append f before (x ∷ after)

module _ {ℓ κ} {A : Type ℓ} {B : Type κ} where
  -- The lists of the elements, one after the other.
  abbrev pub flat : (A → List B) → List A → List B
  flat f [] = []
  flat f (x ∷ xs) = f x ++ flat f xs

  pub flat-append : (f : A → List B) (xs ys : List A) → flat f (xs ++ ys) ≡ flat f xs ++ flat f ys
  flat-append f [] ys = refl
  flat-append f (x ∷ xs) ys =
      rw (flat-append f xs ys, append_assoc (f x) (flat f xs) (flat f ys)) refl

module _ {ℓ κ} {A : Type ℓ} (P : A → Type κ) where
  pub All-split : (xs ys : List A) → All P (xs ++ ys) → All P xs × All P ys
  All-split [] ys h = (tt, h)
  All-split (x ∷ xs) ys (px, h) = let (hx, hy) = All-split xs ys h in ((px, hx), hy)
