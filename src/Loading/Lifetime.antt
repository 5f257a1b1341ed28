-- ===== src/Loading/Lifetime.antt =====
-- `DynamicTracingLibraryHandle` of include/opentracing/dynamic_load.h: when a library is closed, and
-- when its factory is deleted, by the constructors, the assignment and the destructor that C++ gives to
-- the class. A library is named by a number, and may be opened more than once: the linker unloads it
-- when it has been closed as often as it was opened.
use opentracing_cpp.Base.{
  ℕ, suc, ◌==◌, Bool, true, ◌&&◌, ltb, List, [], ◌∷◌, ◌++◌, Option, none, some, count,
  if◌then◌else◌, zero,
}

-- The two `unique_ptr` members in their order. A factory is named by the library that has its code.
pub record Handle : Type 0 where
  pub dynamic_library_handle : Option ℕ
  pub tracer_factory : Option ℕ

-- `DynamicTracingLibraryHandle()`, and what a move leaves.
abbrev pub empty : Handle
empty = record { dynamic_library_handle = none; tracer_factory = none }

pub data Event : Type 0 where
  opened closed : ℕ → Event
  -- `delete` of a factory, whose destructor is code of the library
  deleted : ℕ → Event

-- The variables of the program that are such handles, and the events, with the last one in front.
pub record Program : Type 0 where
  pub handles : List Handle
  pub events : List Event

abbrev close_library : Option ℕ → List Event → List Event
close_library none events = events
close_library (some h) events = closed h ∷ events

abbrev delete_factory : Option ℕ → List Event → List Event
delete_factory none events = events
delete_factory (some h) events = deleted h ∷ events

-- `~DynamicTracingLibraryHandle`: the members are destroyed against their order.
unfoldable pub destroy : Handle → List Event → List Event
destroy handle events =
    close_library handle.dynamic_library_handle (delete_factory handle.tracer_factory events)

-- What happens to the members that an assignment overwrites: they are assigned in their order.
unfoldable pub overwrite : Handle → List Event → List Event
overwrite handle events =
    delete_factory handle.tracer_factory (close_library handle.dynamic_library_handle events)

abbrev pub handle_at : List Handle → ℕ → Handle
handle_at [] i = empty
handle_at (handle ∷ handles) zero = handle
handle_at (handle ∷ handles) (suc i) = handle_at handles i

abbrev pub set_at : ℕ → Handle → List Handle → List Handle
set_at i handle [] = []
set_at zero handle (old ∷ handles) = handle ∷ handles
set_at (suc i) handle (old ∷ handles) = old ∷ set_at i handle handles

-- What a program does with handles, by the places of its variables.
pub data Use : Type 0 where
  -- `DynamicTracingLibraryHandle handle;`
  defaults : Use
  -- a library is loaded, and the handle is what `DynamicallyLoadTracingLibrary` returns
  loads : ℕ → Use
  -- `DynamicTracingLibraryHandle handle{std::move(from)};`
  move_constructs : (from : ℕ) → Use
  -- `to = std::move(from);`
  move_assigns : (to from : ℕ) → Use
  -- the end of the handle's scope
  destroys : ℕ → Use

-- `DynamicTracingLibraryHandle{tracer_factory, dynamic_library_handle}`, of a library that was opened.
abbrev loaded_handle : ℕ → Handle
loaded_handle h = record { dynamic_library_handle = some h; tracer_factory = some h }

unfoldable pub run : Use → Program → Program
run defaults p = record { handles = p.handles ++ empty ∷ []; events = p.events }
run (loads h) p = record {
  handles = p.handles ++ loaded_handle h ∷ [];
  events = opened h ∷ p.events;
}
run (move_constructs from) p = record {
  handles = set_at from empty p.handles ++ handle_at p.handles from ∷ [];
  events = p.events;
}
run (move_assigns to from) p =
    -- the pointers are released first, also by an assignment to itself
    let released = set_at from empty p.handles in
    record {
      handles = set_at to (handle_at p.handles from) released;
      events = overwrite (handle_at released to) p.events;
    }
run (destroys i) p = record {
  handles = set_at i empty p.handles;
  events = destroy (handle_at p.handles i) p.events;
}

abbrev pub begin : Program
begin = record { handles = []; events = [] }

abbrev one_if : Bool → ℕ
one_if b = if b then 1 else 0

abbrev pub is_opened : ℕ → Event → ℕ
is_opened h (opened k) = one_if (h == k)
is_opened h (closed k) = 0
is_opened h (deleted k) = 0

abbrev pub is_closed : ℕ → Event → ℕ
is_closed h (opened k) = 0
is_closed h (closed k) = one_if (h == k)
is_closed h (deleted k) = 0

-- The library is in memory behind these events.
abbrev pub is_loaded : ℕ → List Event → Bool
is_loaded h events = ltb (count (is_closed h) events) (count (is_opened h) events)

abbrev pub is_possible : Event → List Event → Bool
is_possible (opened h) events = true
is_possible (closed h) events = is_loaded h events
is_possible (deleted h) events = is_loaded h events

-- No library is closed or run that is not in memory.
unfoldable pub is_safe : List Event → Bool
is_safe [] = true
is_safe (e ∷ events) = is_possible e events && is_safe events

abbrev holds_library : ℕ → Option ℕ → ℕ
holds_library h none = 0
holds_library h (some k) = one_if (h == k)

-- One for a handle that owns the library.
abbrev pub holds : ℕ → Handle → ℕ
holds h handle = holds_library h handle.dynamic_library_handle
