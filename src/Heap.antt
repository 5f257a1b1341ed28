-- ===== src/Heap.antt =====
-- Memory that is asked for: an allocation is given memory, or throws `std::bad_alloc`. An action is code
-- that changes a state and asks for memory; what it has changed before it throws stays changed. It asks
-- wherever the code may ask, also for a string that may be short enough to need none.
use opentracing_cpp.Base.{Bool, true, List, [], ◌∷◌, if◌then◌else◌}

-- Whether each of the coming allocations is given memory; those behind the list are.
abbrev pub Heap : Type 0
Heap = List Bool

-- What the next allocation comes to, and the heap behind it.
abbrev pub has_memory : Heap → Bool
has_memory [] = true
has_memory (b ∷ heap) = b

abbrev pub after_new : Heap → Heap
after_new [] = []
after_new (b ∷ heap) = heap

pub data Attempt (A : Type 0) : Type 0 where
  done : A → Attempt A
  bad_alloc : Attempt A

abbrev pub Action : Type 0 → Type 0 → Type 0
Action S A = S → Heap → Attempt A × S × Heap

module _ {S : Type 0} where
  abbrev pub allocate : Action S Unit
  allocate s heap = (if has_memory heap then done tt else bad_alloc, s, after_new heap)

  abbrev pub modify : (S → S) → Action S Unit
  modify f s heap = (done tt, f s, heap)

  abbrev pub gets : {A : Type 0} → (S → A) → Action S A
  gets f s heap = (done (f s), s, heap)

-- What follows an attempt: nothing, if it has thrown.
abbrev pub go_on : {S A B : Type 0} → (A → Action S B) → Attempt A × S × Heap → Attempt B × S × Heap
go_on f (done a, s, heap) = f a s heap
go_on f (bad_alloc, s, heap) = (bad_alloc, s, heap)

infixl 5 ◌>>=◌ ◌>>◌
abbrev pub ◌>>=◌ : {S A B : Type 0} → Action S A → (A → Action S B) → Action S B
◌>>=◌ m f s heap = go_on f (m s heap)

abbrev pub ◌>>◌ : {S A B : Type 0} → Action S A → Action S B → Action S B
m >> k = m >>= λ _. k

-- `try { ... } catch (const std::exception&) { }`: the state and the heap behind it.
abbrev pub ignoring : {S A : Type 0} → Action S A → S → Heap → S × Heap
ignoring m s heap = let (r, s', heap') = m s heap in (s', heap')
