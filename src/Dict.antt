-- ===== src/Dict.antt =====
-- `std::map<std::string, V>` as the program uses it: an association list in the order of the keys.
-- The baggage (V = std::string) and the tags (V = Value) of mocktracer's recorder.h are such maps.
pub mod Order
pub mod Laws
use opentracing_cpp.Base.{
  List, [], ◌∷◌, Bool, true, false, Option, none, some, Bytes, if◌then◌else◌, ltb, ◌≡◌,
}

-- `std::less<std::string>`: lexicographic, by unsigned bytes.
unfoldable pub before : Bytes → Bytes → Bool
before [] [] = false
before [] (y ∷ ys) = true
before (x ∷ xs) [] = false
before (x ∷ xs) (y ∷ ys) = if ltb x y then true else if ltb y x then false else before xs ys

module _ {ℓ} {V : Type ℓ} where
  -- `map[key] = value`
  unfoldable pub assign : Bytes → V → List (Bytes × V) → List (Bytes × V)
  assign k v [] = (k, v) ∷ []
  assign k v ((j, w) ∷ m) =
      if before k j
      then (k, v) ∷ (j, w) ∷ m
      else if before j k
      then (j, w) ∷ assign k v m
      else (j, v) ∷ m

  -- `map.emplace(key, value)`: a key that is present keeps its value.
  unfoldable pub emplace : Bytes → V → List (Bytes × V) → List (Bytes × V)
  emplace k v [] = (k, v) ∷ []
  emplace k v ((j, w) ∷ m) =
      if before k j
      then (k, v) ∷ (j, w) ∷ m
      else if before j k
      then (j, w) ∷ emplace k v m
      else (j, w) ∷ m

  -- `map.find(key)`
  unfoldable pub find : Bytes → List (Bytes × V) → Option V
  find k [] = none
  find k ((j, w) ∷ m) = if before k j then none else if before j k then find k m else some w

  -- `map[key] = value` for every pair in turn.
  unfoldable pub assign_all : List (Bytes × V) → List (Bytes × V) → List (Bytes × V)
  assign_all [] m = m
  assign_all ((k, v) ∷ entries) m = assign_all entries (assign k v m)

  -- Every key of the map is above `k`.
  abbrev pub AllAbove : Bytes → List (Bytes × V) → Type 0
  AllAbove k [] = Unit
  AllAbove k ((j, w) ∷ m) = (before k j ≡ true) × AllAbove k m

  -- The keys rise, so no key stands twice.
  abbrev pub IsSorted : List (Bytes × V) → Type 0
  IsSorted [] = Unit
  IsSorted ((k, v) ∷ m) = AllAbove k m × IsSorted m
