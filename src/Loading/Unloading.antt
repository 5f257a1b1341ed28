-- ===== src/Loading/Unloading.antt =====
-- When the handles of include/opentracing/dynamic_load.h unload their libraries.
use opentracing_cpp.Base.{
  ℕ, suc, ◌+◌, ◌==◌, ==_refl, ◌<◌, ◌≡◌, inl, inr, refl, true, false, List, [], ◌∷◌, none, some, All,
  All-append, length, count, count-append, arith, zero, Option-cases,
}
use opentracing_cpp.Loading.Lifetime.{
  Handle, empty, Event, closed, deleted, Program, destroy, overwrite, handle_at, set_at, Use,
  defaults, loads, move_constructs, move_assigns, destroys, run, begin, is_opened, is_closed,
  is_safe, holds,
}
use opentracing_cpp.Loading.Owners.{
  IsPaired, set_empty, set_over, length-set_at, set_at-IsPaired, handle_at-IsPaired,
}

-- Where a program assigns to a handle, this owns no library or is the handle that is assigned.
abbrev pub IsCareful : Use → List Handle → Type 0
IsCareful defaults handles = Unit
IsCareful (loads h) handles = Unit
IsCareful (move_constructs from) handles = Unit
IsCareful (move_assigns to from) handles =
    (to < length handles)
    × ((handle_at (set_at from empty handles) to).dynamic_library_handle ≡ none)
IsCareful (destroys i) handles = Unit

unfoldable pub run_all : List Use → Program → Program
run_all [] p = p
run_all (u ∷ uses) p = run_all uses (run u p)

unfoldable pub AllCareful : List Use → Program → Type 0
AllCareful [] p = Unit
AllCareful (u ∷ uses) p = IsCareful u p.handles × AllCareful uses (run u p)

-- The libraries that are open are those that so many handles own, and nothing impossible has happened.
record Balanced (owners : ℕ → ℕ) (events : List Event) : Type 0 where
  open_libraries : (h : ℕ) → count (is_opened h) events ≡ count (is_closed h) events + owners h
  safe : is_safe events ≡ true

destroy-Balanced :
    (owners : ℕ → ℕ) (handle : Handle) (events : List Event)
    → IsPaired handle
    → Balanced (λ h. owners h + holds h handle) events
    → Balanced owners (destroy handle events)
unfolding destroy is_safe
destroy-Balanced owners handle events paired b = elim (Option-cases handle.dynamic_library_handle) [
  | inl e ↦ record {
    open_libraries = λ h. ground (arith, paired, e, b.open_libraries h);
    safe = ground (arith, paired, e, b.safe);
  }
  | inr (k, e) ↦ record {
    open_libraries = λ h. ground (arith, paired, e, b.open_libraries h);
    safe = ground (arith, paired, e, b.safe, b.open_libraries k, ==_refl k);
  }
]

abbrev owners_in : List Handle → ℕ → ℕ
owners_in handles h = count (holds h) handles

-- What holds of a program at any time.
record IsSound (p : Program) : Type 0 where
  balanced : Balanced (owners_in p.handles) p.events
  paired : All IsPaired p.handles

overwrite_nothing :
    (handle : Handle) (events : List Event)
    → IsPaired handle
    → handle.dynamic_library_handle ≡ none
    → overwrite handle events ≡ events
unfolding overwrite
overwrite_nothing handle events paired e = ground (arith, paired, e)

owns_nothing : (h : ℕ) (handle : Handle) → handle.dynamic_library_handle ≡ none → holds h handle ≡ 0
owns_nothing h handle e = ground (arith, e)

moved :
    (h to from : ℕ) (handles : List Handle)
    → IsCareful (move_assigns to from) handles
    → owners_in (set_at to (handle_at handles from) (set_at from empty handles)) h
      ≡ owners_in handles h
moved h to from handles (lt, none_owned) =
    let released = set_at from empty handles in
    omega (
      arith,
      set_empty h from handles,
      set_over h to (handle_at handles from) released (rw (length-set_at from empty handles) lt),
      owns_nothing h (handle_at released to) none_owned,
    )

run-IsSound : (u : Use) (p : Program) → IsCareful u p.handles → IsSound p → IsSound (run u p)
unfolding run
run-IsSound defaults p careful s = record {
  balanced = record {
    open_libraries = λ h.
        omega (arith, s.balanced.open_libraries h, count-append (holds h) p.handles (empty ∷ []));
    safe = s.balanced.safe;
  };
  paired = All-append IsPaired p.handles (empty ∷ []) s.paired (refl, tt);
}
run-IsSound (loads k) p careful s = record {
  balanced = record {
    open_libraries = λ h. omega (
      arith,
      s.balanced.open_libraries h,
      count-append (holds h) p.handles
          (record { dynamic_library_handle = some k; tracer_factory = some k } ∷ []),
    );
    safe = unfold is_safe in s.balanced.safe;
  };
  paired = All-append IsPaired p.handles _ s.paired (refl, tt);
}
run-IsSound (move_constructs from) p careful s = record {
  balanced = record {
    open_libraries = λ h. omega (
      arith,
      s.balanced.open_libraries h,
      set_empty h from p.handles,
      count-append (holds h) (set_at from empty p.handles) (handle_at p.handles from ∷ []),
    );
    safe = s.balanced.safe;
  };
  paired =
      All-append IsPaired (set_at from empty p.handles) _
        (set_at-IsPaired from empty p.handles refl s.paired)
        (handle_at-IsPaired p.handles from s.paired, tt);
}
run-IsSound (move_assigns to from) p careful s =
    let released = set_at from empty p.handles in
    let paired_now = set_at-IsPaired from empty p.handles refl s.paired in
    let same =
      overwrite_nothing (handle_at released to) p.events (handle_at-IsPaired released to paired_now)
        careful.1 in
    record {
      balanced = record {
        open_libraries = λ h.
            rw same (omega (arith, s.balanced.open_libraries h, moved h to from p.handles careful));
        safe = rw same s.balanced.safe;
      };
      paired =
          set_at-IsPaired to (handle_at p.handles from) released
            (handle_at-IsPaired p.handles from s.paired) paired_now;
    }
run-IsSound (destroys i) p careful s = record {
  balanced =
      destroy-Balanced (owners_in (set_at i empty p.handles)) (handle_at p.handles i) p.events
        (handle_at-IsPaired p.handles i s.paired)
        (record {
          open_libraries = λ h. omega (arith, s.balanced.open_libraries h, set_empty h i p.handles);
          safe = s.balanced.safe;
        });
  paired = set_at-IsPaired i empty p.handles refl s.paired;
}

run_all-IsSound :
    (uses : List Use) (p : Program) → AllCareful uses p → IsSound p → IsSound (run_all uses p)
unfolding run_all AllCareful
run_all-IsSound [] p careful s = s
run_all-IsSound (u ∷ uses) p (careful, rest) s =
    run_all-IsSound uses (run u p) rest (run-IsSound u p careful s)

begin-IsSound : IsSound begin
begin-IsSound = record {
  balanced = record { open_libraries = λ h. refl; safe = unfold is_safe in refl };
  paired = tt;
}

-- A program makes, moves and destroys handles, and assigns only to handles that own no library, or that
-- are assigned to themselves. Then no library is closed that is not open, and no factory is deleted whose
-- library is not open. At any time a library has been opened as often as it has been closed and as there
-- are handles that own it, so that it is unloaded with its last handle.
pub run_all-unloading :
    (uses : List Use)
    → AllCareful uses begin
    → (is_safe (run_all uses begin).events ≡ true)
      × ((h : ℕ)
          → count (is_opened h) (run_all uses begin).events
            ≡ count (is_closed h) (run_all uses begin).events
              + count (holds h) (run_all uses begin).handles)
run_all-unloading uses careful =
    let s = run_all-IsSound uses begin careful begin-IsSound in
    (s.balanced.safe, s.balanced.open_libraries)

elsewhere :
    (to from : ℕ) (handles : List Handle)
    → (to == from) ≡ false
    → handle_at (set_at from empty handles) to ≡ handle_at handles to
elsewhere to from [] ne = refl
elsewhere zero zero (handle ∷ handles) ne = absurd (cc)
elsewhere (suc to) zero (handle ∷ handles) ne = refl
elsewhere zero (suc from) (handle ∷ handles) ne = refl
elsewhere (suc to) (suc from) (handle ∷ handles) ne = elsewhere to from handles (ground arith)

-- After such a program, another handle is assigned to the one handle that owns a library. Then the library
-- is closed first, which is safe, and its factory is deleted behind that, when the library is no longer in
-- memory.
pub move_assigns-unsafe :
    (uses : List Use) (to from h : ℕ)
    → AllCareful uses begin
    → (handle_at (run_all uses begin).handles to).dynamic_library_handle ≡ some h
    → count (holds h) (run_all uses begin).handles ≡ 1
    → (to == from) ≡ false
    → ((run (move_assigns to from) (run_all uses begin)).events
        ≡ deleted h ∷ closed h ∷ (run_all uses begin).events)
      × (is_safe (closed h ∷ (run_all uses begin).events) ≡ true)
      × (is_safe (deleted h ∷ closed h ∷ (run_all uses begin).events) ≡ false)
unfolding run overwrite is_safe
move_assigns-unsafe uses to from h careful owned once ne =
    let p = run_all uses begin in
    let s = run_all-IsSound uses begin careful begin-IsSound in
    let paired = handle_at-IsPaired p.handles to s.paired in
    let safe = s.balanced.safe in
    (
      rw (elsewhere to from p.handles ne) (ground (arith, paired, owned)),
      ground (arith, safe, once, s.balanced.open_libraries h, ==_refl h),
      ground (arith, once, s.balanced.open_libraries h, ==_refl h),
    )
