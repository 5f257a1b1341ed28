-- ===== src/Dict/Laws.antt =====
-- The laws of the operations of `std::map` on association lists in the order of their keys.
use opentracing_cpp.Base.{
  ◌≡◌, refl, sym, ◌∙◌, true, [], ◌∷◌, ◌++◌, append-nil, append_assoc, List, none, some, arith,
  Bytes,
}
use opentracing_cpp.Dict.{before, assign, emplace, find, assign_all, AllAbove, IsSorted}
use opentracing_cpp.Dict.Order.{before_irrefl, before_trans, before_asym, before_total}

module _ {ℓ} {V : Type ℓ} where
  AllAbove-trans :
      (k j : Bytes) (m : List (Bytes × V)) → before k j ≡ true → AllAbove j m → AllAbove k m
  AllAbove-trans k j [] h above = tt
  AllAbove-trans k j ((i, w) ∷ m) h (hi, above) =
      (before_trans k j i h hi, AllAbove-trans k j m h above)

  find_above : (k : Bytes) (m : List (Bytes × V)) → AllAbove k m → find k m ≡ none
  unfolding find
  find_above k [] above = refl
  find_above k ((j, w) ∷ m) (h, above) = rw h

  AllAbove-assign :
      (i k : Bytes) (v : V) (m : List (Bytes × V))
      → before i k ≡ true
      → AllAbove i m
      → AllAbove i (assign k v m)
  unfolding assign
  AllAbove-assign i k v [] h above = (h, tt)
  AllAbove-assign i k v ((j, w) ∷ m) h (hj, above) = ground (arith, AllAbove-assign i k v m h above)

  AllAbove-emplace :
      (i k : Bytes) (v : V) (m : List (Bytes × V))
      → before i k ≡ true
      → AllAbove i m
      → AllAbove i (emplace k v m)
  unfolding emplace
  AllAbove-emplace i k v [] h above = (h, tt)
  AllAbove-emplace i k v ((j, w) ∷ m) h (hj, above) =
      ground (arith, AllAbove-emplace i k v m h above)

  -- Assignment keeps the keys in order.
  assign-IsSorted :
      (k : Bytes) (v : V) (m : List (Bytes × V)) → IsSorted m → IsSorted (assign k v m)
  unfolding assign
  assign-IsSorted k v [] s = (tt, tt)
  assign-IsSorted k v ((j, w) ∷ m) (above, s) =
      ground (arith, assign-IsSorted k v m s, AllAbove-assign j k v m, AllAbove-trans k j m)

  emplace-IsSorted :
      (k : Bytes) (v : V) (m : List (Bytes × V)) → IsSorted m → IsSorted (emplace k v m)
  unfolding emplace
  emplace-IsSorted k v [] s = (tt, tt)
  emplace-IsSorted k v ((j, w) ∷ m) (above, s) =
      ground (arith, emplace-IsSorted k v m s, AllAbove-emplace j k v m, AllAbove-trans k j m)

  -- Of two assignments to a key the second counts.
  pub assign_twice :
      (k : Bytes) (v w : V) (m : List (Bytes × V)) → assign k v (assign k w m) ≡ assign k v m
  unfolding assign
  assign_twice k v w [] = ground (arith, before_irrefl k)
  assign_twice k v w ((j, u) ∷ m) = ground (arith, before_irrefl k, assign_twice k v w m)

  pub assign_all-IsSorted :
      (entries m : List (Bytes × V)) → IsSorted m → IsSorted (assign_all entries m)
  unfolding assign_all
  assign_all-IsSorted [] m s = s
  assign_all-IsSorted ((k, v) ∷ entries) m s =
      assign_all-IsSorted entries (assign k v m) (assign-IsSorted k v m s)

  -- The assigned key has the new value, and every other key what it had.
  pub find-assign_self :
      (k : Bytes) (v : V) (m : List (Bytes × V)) → IsSorted m → find k (assign k v m) ≡ some v
  unfolding find assign
  find-assign_self k v [] s = rw before_irrefl
  find-assign_self k v ((j, w) ∷ m) (above, s) =
      ground (arith, before_irrefl k, before_asym k j, before_asym j k, find-assign_self k v m s)

  pub find-assign_ne :
      (k j : Bytes) (v : V) (m : List (Bytes × V))
      → IsSorted m
      → (k ≡ j → ⊥)
      → find j (assign k v m) ≡ find j m
  unfolding find assign
  find-assign_ne k j v [] s ne = ground (arith, before_total k j)
  find-assign_ne k j v ((i, w) ∷ m) (above, s) ne = ground (
    arith,
    before_total k j,
    before_total k i,
    before_total i j,
    before_trans j k i,
    before_trans j i k,
    before_trans k i j,
    before_trans i k j,
    before_asym j i,
    before_asym k i,
    before_asym i j,
    before_asym k j,
    before_asym j k,
    before_asym i k,
    find-assign_ne k j v m s ne,
  )

  pub find-emplace_self :
      (k : Bytes) (v : V) (m : List (Bytes × V))
      → IsSorted m
      → find k (emplace k v m) ≡ (elim (find k m) [ none ↦ some v | some w ↦ some w ])
  unfolding find emplace
  find-emplace_self k v [] s = rw before_irrefl
  find-emplace_self k v ((j, w) ∷ m) (above, s) =
      ground (arith, before_irrefl k, before_asym k j, before_asym j k, find-emplace_self k v m s)

  pub find-emplace_ne :
      (k j : Bytes) (v : V) (m : List (Bytes × V))
      → IsSorted m
      → (k ≡ j → ⊥)
      → find j (emplace k v m) ≡ find j m
  unfolding find emplace
  find-emplace_ne k j v [] s ne = ground (arith, before_total k j)
  find-emplace_ne k j v ((i, w) ∷ m) (above, s) ne = ground (
    arith,
    before_total k j,
    before_total i j,
    before_trans j k i,
    before_trans j i k,
    before_asym j i,
    before_asym k i,
    before_asym i j,
    before_asym k j,
    find-emplace_ne k j v m s ne,
  )

  -- Every key of the map is below `k`.
  abbrev AllBelow : Bytes → List (Bytes × V) → Type 0
  AllBelow k [] = Unit
  AllBelow k ((j, w) ∷ m) = (before j k ≡ true) × AllBelow k m

  IsSorted-AllBelow :
      (k : Bytes) (v : V) (m entries : List (Bytes × V))
      → IsSorted (m ++ (k, v) ∷ entries)
      → AllBelow k m
  IsSorted-AllBelow k v [] entries s = tt
  IsSorted-AllBelow k v ((j, w) ∷ m) entries (above, s) =
      (first m above, IsSorted-AllBelow k v m entries s)
    where
      first : (l : List (Bytes × V)) → AllAbove j (l ++ (k, v) ∷ entries) → before j k ≡ true
      first [] (h, _) = h
      first ((i, _) ∷ l) (_, rest) = first l rest

  -- A key above all others is added at the end.
  assign_last :
      (k : Bytes) (v : V) (m : List (Bytes × V)) → AllBelow k m → assign k v m ≡ m ++ (k, v) ∷ []
  unfolding assign
  assign_last k v [] below = refl
  assign_last k v ((j, w) ∷ m) (h, below) = ground (arith, before_asym j k, assign_last k v m below)

  assign_all-append :
      (entries m : List (Bytes × V)) → IsSorted (m ++ entries) → assign_all entries m ≡ m ++ entries
  unfolding assign_all
  assign_all-append [] m s = sym (append-nil m)
  assign_all-append ((k, v) ∷ entries) m s =
      let split : (m ++ (k, v) ∷ []) ++ entries ≡ m ++ (k, v) ∷ entries =
        append_assoc m ((k, v) ∷ []) entries in
      rw (assign_last k v m (IsSorted-AllBelow k v m entries s))
        (assign_all-append entries (m ++ (k, v) ∷ []) (rw split s) ∙ split)

  -- Entries that come in the order of their keys are rebuilt as they are.
  pub assign_all-nil :
      (entries : List (Bytes × V)) → IsSorted entries → assign_all entries [] ≡ entries
  assign_all-nil entries s = assign_all-append entries [] s
