-- ===== src/Loading/Handles.antt =====
-- What becomes of a library that was opened by src/dynamic_load_unix.cpp or dynamic_load_windows.cpp.
use opentracing_cpp.Base.{
  ◌≡◌, Bool, true, false, List, [], ◌∷◌, Option, none, some, Bytes, arith, if◌then◌else◌,
}
use opentracing_cpp.Heap.{Heap, has_memory}
use opentracing_cpp.Error.{out_of_memory, Expected, ok, unexpected}
use opentracing_cpp.Loading.{
  Linker, LibraryHandle, Event, opened, closed, dynamically_load_tracing_library,
}

-- What has happened to libraries when a result is returned, where there was memory for the handle
-- object or there was none.
abbrev pub expected_events :
    {H F : Type 0} → Bool → Option H → Expected (LibraryHandle H F) → List (Event H)
expected_events has_object h (ok handle) = opened handle.dynamic_library_handle ∷ []
expected_events has_object none (unexpected e) = []
expected_events true (some h) (unexpected e) = opened h ∷ closed h ∷ []
expected_events false (some h) (unexpected e) = opened h ∷ []

module _ {H F : Type 0} (linker : Linker H F) (version abi_version : Bytes) where
  -- Whatever the linker and the library do, and whatever memory there is: a handle that is returned is the
  -- one that was opened, and its library is still open; with an error the library that was opened is
  -- closed, once, if there was memory for the object that owns it. If there was none, the error is
  -- `not_enough_memory`, and the library is never closed.
  pub load-expected_events :
      (shared_library message : Bytes) (heap : Heap)
      → ((dynamically_load_tracing_library linker version abi_version shared_library message
            heap).events
          ≡ expected_events
              (has_memory heap)
              (linker.dlopen shared_library)
              (dynamically_load_tracing_library linker version abi_version shared_library message
                heap).result)
        × ((dynamically_load_tracing_library linker version abi_version shared_library message
              heap).result
            ≡ (if has_memory heap
                then (dynamically_load_tracing_library linker version abi_version shared_library
                    message heap).result
                else unexpected out_of_memory))
  unfolding dynamically_load_tracing_library
  load-expected_events shared_library message heap = (ground arith, ground arith)
