-- ===== src/Tests/Libraries.antt =====
-- The loading of a library, and handles that are moved.
use opentracing_cpp.Base.{
  ℕ, ◌+◌, ◌≡◌, refl, true, false, List, [], ◌∷◌, some, none, codes, arith, Bytes, count,
}
use opentracing_cpp.Heap.{Heap}
use opentracing_cpp.Error.{out_of_memory, unexpected, same_bytes, dynamic_load_failure_error}
use opentracing_cpp.Loading.{
  Made, MakeTracerFactory, Linker, unix, opened, closed, dynamically_load_tracing_library,
}
use opentracing_cpp.Loading.Mock.{
  Hook, finished, terminated, undefined, MockTracerFactory, make_tracer_factory_hook,
  load-make_tracer_factory_hook,
}
use opentracing_cpp.Loading.Handles.{load-expected_events}
use opentracing_cpp.Loading.Lifetime.{
  closed, deleted, Use, defaults, loads, move_assigns, destroys, run, begin, is_opened, is_closed,
  is_safe, holds,
}
use opentracing_cpp.Loading.Unloading.{run_all, AllCareful, run_all-unloading, move_assigns-unsafe}

abbrev made_of : Hook → Made MockTracerFactory
made_of (finished made) = made
made_of terminated = record {
  rcode = 1;
  error_category = none;
  error_message = [];
  tracer_factory = none;
  heap = [];
}
made_of undefined = record {
  rcode = 1;
  error_category = none;
  error_message = [];
  tracer_factory = none;
  heap = [];
}

-- The hook of a library that was built with ABI version "2", on arguments that are not null.
abbrev hook : MakeTracerFactory MockTracerFactory
hook version abi message heap = made_of (
    make_tracer_factory_hook (codes "2") (some version) (some abi) (some none) (some message)
      (some none) heap)

abbrev linker : Linker ℕ MockTracerFactory
linker = record {
  platform = unix;
  dlopen = λ path. some 5;
  dlopen_error = λ path. [];
  dlsym = λ h. some (some hook);
  dlsym_error = λ h. [];
  error_text = λ e. [];
}

hook_lem :
    (v a message : Bytes) (heap : Heap)
    → make_tracer_factory_hook
        (codes "2")
        (some v)
        (some a)
        (some none)
        (some message)
        (some none)
        heap
      ≡ finished (hook v a message heap)
unfolding make_tracer_factory_hook
hook_lem v a message heap = ground arith

load-make_tracer_factory_hook_example :
    dynamically_load_tracing_library linker (codes "1.5") (codes "1") (codes "libmock.so") [] []
    ≡ record {
      result = unexpected dynamic_load_failure_error;
      error_message = codes "incompatible OpenTracing ABI versions; expected 2 but got 1";
      events = opened 5 ∷ closed 5 ∷ [];
    }
unfolding same_bytes
load-make_tracer_factory_hook_example =
    load-make_tracer_factory_hook linker (codes "1.5") (codes "1") (codes "libmock.so") []
      (codes "2") 5 (hook, refl, refl, hook_lem)

-- There is no memory for the handle object: the library stays open.
load-expected_events_example :
    ((dynamically_load_tracing_library linker
        (codes "1.5")
        (codes "1")
        (codes "libmock.so")
        []
        (false ∷ [])).events
      ≡ opened 5 ∷ [])
    × ((dynamically_load_tracing_library linker
          (codes "1.5")
          (codes "1")
          (codes "libmock.so")
          []
          (false ∷ [])).result
        ≡ unexpected out_of_memory)
unfolding dynamically_load_tracing_library
load-expected_events_example =
    load-expected_events linker (codes "1.5") (codes "1") (codes "libmock.so") [] (false ∷ [])

-- `a` is empty, a library is loaded, and its handle is assigned to `a`, which goes out of scope.
abbrev uses : List Use
uses = defaults ∷ loads 7 ∷ move_assigns 0 1 ∷ destroys 0 ∷ []

uses-AllCareful : AllCareful uses begin
unfolding AllCareful run
uses-AllCareful = (tt, (tt, ((omega arith, refl), (tt, tt))))

run_all-unloading_example :
    (is_safe (run_all uses begin).events ≡ true)
    × ((h : ℕ)
        → count (is_opened h) (run_all uses begin).events
          ≡ count (is_closed h) (run_all uses begin).events
            + count (holds h) (run_all uses begin).handles)
run_all-unloading_example = run_all-unloading uses uses-AllCareful

-- The handle of another library is assigned to one that owns library 7.
move_assigns-unsafe_example :
    ((run (move_assigns 0 1) (run_all (loads 7 ∷ loads 8 ∷ []) begin)).events
      ≡ deleted 7 ∷ closed 7 ∷ (run_all (loads 7 ∷ loads 8 ∷ []) begin).events)
    × (is_safe (closed 7 ∷ (run_all (loads 7 ∷ loads 8 ∷ []) begin).events) ≡ true)
    × (is_safe (deleted 7 ∷ closed 7 ∷ (run_all (loads 7 ∷ loads 8 ∷ []) begin).events) ≡ false)
unfolding AllCareful run run_all
move_assigns-unsafe_example =
    move_assigns-unsafe (loads 7 ∷ loads 8 ∷ []) 0 1 7 (tt, (tt, tt)) refl refl refl
