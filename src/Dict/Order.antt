-- ===== src/Dict/Order.antt =====
-- The order of the keys of a `std::map<std::string, V>`.
use opentracing_cpp.Base.{◌≡◌, refl, true, false, [], ◌∷◌, arith, Bytes}
use opentracing_cpp.Dict.{before}

pub before_irrefl : (a : Bytes) → before a a ≡ false
unfolding before
before_irrefl [] = refl
before_irrefl (x ∷ a) = ground (arith, before_irrefl a)

pub before_trans : (a b c : Bytes) → before a b ≡ true → before b c ≡ true → before a c ≡ true
unfolding before
before_trans [] [] c p q = cc
before_trans [] (y ∷ b) [] p q = cc
before_trans [] (y ∷ b) (z ∷ c) p q = refl
before_trans (x ∷ a) [] c p q = cc
before_trans (x ∷ a) (y ∷ b) [] p q = cc
before_trans (x ∷ a) (y ∷ b) (z ∷ c) p q = ground (arith, before_trans a b c)

pub before_asym : (a b : Bytes) → before a b ≡ true → before b a ≡ false
unfolding before
before_asym [] [] p = refl
before_asym [] (y ∷ b) p = refl
before_asym (x ∷ a) [] p = cc
before_asym (x ∷ a) (y ∷ b) p = ground (arith, before_asym a b)

pub before_total : (a b : Bytes) → before a b ≡ false → before b a ≡ false → a ≡ b
unfolding before
before_total [] [] p q = refl
before_total [] (y ∷ b) p q = cc
before_total (x ∷ a) [] p q = cc
before_total (x ∷ a) (y ∷ b) p q = ground (arith, before_total a b)
