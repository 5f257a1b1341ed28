-- ===== src/Loading/Mock.antt =====
-- mocktracer/src/dynamic_load.cpp: the hook that the mock tracer's library offers, and what comes of
-- loading this library.
use opentracing_cpp.Base.{
  ◌≡◌, arith, [], ◌∷◌, ◌++◌, Option, none, some, Bytes, codes, if◌then◌else◌,
}
use opentracing_cpp.Heap.{Heap, has_memory, after_new}
use opentracing_cpp.Error.{
  generic_category, errno, not_enough_memory, Category, ok, unexpected, same_bytes,
  incompatible_library_versions_error, dynamic_load_error_category,
}
use opentracing_cpp.Loading.{
  Made, MakeTracerFactory, Linker, reported, opened, closed, dynamically_load_tracing_library,
}

-- The one object that the hook makes, which has no state.
pub data MockTracerFactory : Type 0 where
  mock_tracer_factory : MockTracerFactory

-- The hook returns, ends the process by `std::terminate`, or writes through a null pointer.
pub data Hook : Type 0 where
  finished : Made MockTracerFactory → Hook
  terminated undefined : Hook

abbrev message_of : Bytes → Bytes
message_of expected_version =
    codes "incompatible OpenTracing ABI versions; expected "
    ++ expected_version
    ++ codes " but got "

-- `catch (const std::bad_alloc&)`
abbrev no_memory : Bytes → Option MockTracerFactory → Heap → Hook
no_memory message factory heap = finished (record {
  rcode = errno not_enough_memory;
  error_category = some generic_category;
  error_message = message;
  tracer_factory = factory;
  heap = heap;
})

-- The ABI differs: the message is assigned and then appended to, and its pointer has not been tested.
abbrev refuse : Bytes → Bytes → Option Bytes → Option MockTracerFactory → Heap → Hook
refuse expected_version got none factory heap = undefined
refuse expected_version got (some message) factory heap =
    if has_memory heap
    then (if has_memory (after_new heap)
        then finished (record {
          rcode = incompatible_library_versions_error.value;
          error_category = some dynamic_load_error_category;
          error_message = message_of expected_version ++ got;
          tracer_factory = factory;
          heap = after_new (after_new heap);
        })
        else no_memory (message_of expected_version) factory (after_new (after_new heap)))
    else no_memory message factory (after_new heap)

abbrev message_or_empty : Option Bytes → Bytes
message_or_empty none = []
message_or_empty (some message) = message

-- Behind the test for null pointers. `expected_version` is `OPENTRACING_ABI_VERSION` of the library.
abbrev check_abi :
    Bytes → Bytes → Option Category → Option Bytes → Option MockTracerFactory → Heap → Hook
check_abi expected_version got category message factory heap =
    if same_bytes got expected_version
    then (if has_memory heap
        then finished (record {
          rcode = 0;
          error_category = category;
          error_message = message_or_empty message;
          tracer_factory = some mock_tracer_factory;
          heap = after_new heap;
        })
        else no_memory (message_or_empty message) factory (after_new heap))
    else refuse expected_version got message factory heap

-- `OpenTracingMakeTracerFactoryFct`
unfoldable pub make_tracer_factory_hook :
    Bytes
    → Option Bytes
    → Option Bytes
    → Option (Option Category)
    → Option Bytes
    → Option (Option MockTracerFactory)
    → Heap
    → Hook
make_tracer_factory_hook expected_version (some version) (some got) (some category) message
      (some factory) heap =
    check_abi expected_version got category message factory heap
make_tracer_factory_hook expected_version none got category message factory heap = terminated
make_tracer_factory_hook expected_version (some version) none category message factory heap =
    terminated
make_tracer_factory_hook expected_version (some version) (some got) none message factory heap =
    terminated
make_tracer_factory_hook expected_version (some version) (some got) (some category) message none
      heap =
    terminated

module _ {H : Type 0} (linker : Linker H MockTracerFactory) (version abi_version : Bytes) where
  -- The library at the path is a mock tracer's, which was built with the ABI version
  -- `expected_version`, and the linker finds its hook.
  abbrev pub IsMock : Bytes → Bytes → H → Type 0
  IsMock shared_library expected_version h =
      (make : MakeTracerFactory MockTracerFactory) × (linker.dlopen shared_library ≡ some h)
      × (linker.dlsym h ≡ some (some make))
      × ((v a message : Bytes) (heap : Heap)
          → make_tracer_factory_hook expected_version (some v) (some a) (some none) (some message)
              (some none) heap
            ≡ finished (make v a message heap))

  -- A mock tracer's library is loaded, with memory for all that is asked for, if it was built with the
  -- caller's ABI version, with the message left as it was. Otherwise the message names both versions, the
  -- library is closed, and the result is `incompatible_library_versions_error` on Windows, and
  -- `dynamic_load_failure_error` on Unix.
  pub load-make_tracer_factory_hook :
      (shared_library message expected_version : Bytes) (h : H)
      → IsMock shared_library expected_version h
      → dynamically_load_tracing_library linker version abi_version shared_library message [] ≡ (
          if same_bytes abi_version expected_version
          then record {
            result =
                ok (record { dynamic_library_handle = h; tracer_factory = mock_tracer_factory });
            error_message = message;
            events = opened h ∷ [];
          }
          else record {
            result = unexpected (reported linker.platform incompatible_library_versions_error);
            error_message =
                codes "incompatible OpenTracing ABI versions; expected "
                ++ expected_version
                ++ codes " but got "
                ++ abi_version;
            events = opened h ∷ closed h ∷ [];
          })
  unfolding dynamically_load_tracing_library make_tracer_factory_hook
  load-make_tracer_factory_hook shared_library message expected_version h
        (make, found, hook, is_hook) =
      simp (found, hook) (ground (arith, is_hook version abi_version message []))
