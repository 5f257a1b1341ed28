-- ===== src/Loading.antt =====
-- src/dynamic_load_unix.cpp, src/dynamic_load_windows.cpp, src/dynamic_load_unsupported.cpp and
-- include/opentracing/dynamic_load.h: a tracing library is loaded at run time. The dynamic linker is a
-- parameter, and the calls that open and close a library are recorded in their order.
pub mod Mock
pub mod Handles
pub mod Lifetime
pub mod Owners
pub mod Unloading
use opentracing_cpp.Base.{
  ℕ, Bool, true, false, List, [], ◌∷◌, ◌++◌, Option, none, some, Bytes, codes, ◌==◌, if◌then◌else◌,
}
use opentracing_cpp.Heap.{Heap, has_memory, after_new}
use opentracing_cpp.Error.{
  Category, ErrorCode, Expected, ok, unexpected, dynamic_load_failure_error,
  dynamic_load_not_supported_error, out_of_memory,
}

-- What `OpenTracingMakeTracerFactory` leaves behind: its return code, what the pointers that it was
-- given point to, and the heap.
pub record Made (F : Type 0) : Type 0 where
  pub rcode : ℕ
  pub error_category : Option Category
  pub error_message : Bytes
  pub tracer_factory : Option F
  pub heap : Heap

-- `OpenTracingMakeTracerFactoryType`: of the two versions, of the message that is in `error_message`
-- and of the heap; the slots for the category and the factory hold null pointers.
abbrev pub MakeTracerFactory : Type 0 → Type 0
MakeTracerFactory F = Bytes → Bytes → Bytes → Heap → Made F

pub data Platform : Type 0 where
  unix windows : Platform

-- The dynamic linker: `dlopen`, with what `dlerror` says when it fails; and `dlsym` of the hook, a
-- null pointer or a pointer to a pointer that may be null. `error_text` is `message` of the library's
-- category.
pub record Linker (H F : Type 0) : Type 1 where
  pub platform : Platform
  pub dlopen : Bytes → Option H
  pub dlopen_error : Bytes → Bytes
  pub dlsym : H → Option (Option (MakeTracerFactory F))
  pub dlsym_error : H → Bytes
  pub error_text : ErrorCode → Bytes

-- `DynamicTracingLibraryHandle`
pub record LibraryHandle (H F : Type 0) : Type 0 where
  pub dynamic_library_handle : H
  pub tracer_factory : F

pub data Event (H : Type 0) : Type 0 where
  opened closed : H → Event H

pub record Loaded (H F : Type 0) : Type 0 where
  pub result : Expected (LibraryHandle H F)
  pub error_message : Bytes
  pub events : List (Event H)

-- The error for a code of the library: on Unix the code is not returned.
abbrev pub reported : Platform → ErrorCode → ErrorCode
reported unix e = dynamic_load_failure_error
reported windows e = e

-- The messages where the library is not opened, and where it has no hook.
abbrev open_failure : Platform → Bytes → Bytes
open_failure unix text = text
open_failure windows text = codes "An error occurred: " ++ text

abbrev lookup_failure : Platform → Bytes → Bytes
lookup_failure unix text = text
lookup_failure windows text =
    codes "An error occurred while looking up for OpenTracingMakeTracerFactory : " ++ text

-- `DynamicallyLoadTracingLibrary` where it is not supported: the message is left as it was.
unfoldable pub load_unsupported : {H F : Type 0} → Bytes → Bytes → Loaded H F
load_unsupported shared_library message = record {
  result = unexpected dynamic_load_not_supported_error;
  error_message = message;
  events = [];
}

module _ {H F : Type 0} (linker : Linker H F) (version abi_version : Bytes) where
  -- A failure where the handle object owns the library: its destructor closes it.
  abbrev failed : H → ErrorCode → Bytes → Loaded H F
  failed h e message = record {
    result = unexpected e;
    error_message = message;
    events = opened h ∷ closed h ∷ [];
  }

  -- `error_message = text; return make_unexpected(e);`. Where there is no memory for the text,
  -- `error_message` keeps what it holds.
  abbrev fail_with : H → ErrorCode → Bytes → Bytes → Heap → Loaded H F
  fail_with h e text message heap =
      if has_memory heap then failed h e text else failed h out_of_memory message

  -- Behind `if (error_message.empty())`: a message that the library left is kept.
  abbrev fail_for : H → ErrorCode → Bytes → Heap → Loaded H F
  fail_for h e [] heap = fail_with h (reported linker.platform e) (linker.error_text e) [] heap
  fail_for h e (c ∷ message) heap = failed h (reported linker.platform e) (c ∷ message)

  abbrev refused : H → Option Category → ℕ → Bytes → Heap → Loaded H F
  refused h none rcode message heap =
      fail_with h dynamic_load_failure_error
        (codes "failed to construct a TracerFactory: unknown error code") message heap
  refused h (some category) rcode message heap =
      fail_for h (record { value = rcode; category = category }) message heap

  abbrev keep : H → Bytes → Option F → Heap → Loaded H F
  keep h message none heap =
      fail_with h dynamic_load_failure_error
        (codes "failed to construct a TracerFactory: `tracer_factory` is null") message heap
  keep h message (some factory) heap = record {
    result = ok (record { dynamic_library_handle = h; tracer_factory = factory });
    error_message = message;
    events = opened h ∷ [];
  }

  abbrev made : H → Made F → Loaded H F
  made h m =
      if m.rcode == 0
      then keep h m.error_message m.tracer_factory m.heap
      else refused h m.error_category m.rcode m.error_message m.heap

  abbrev looked_up : H → Bytes → Heap → Option (Option (MakeTracerFactory F)) → Loaded H F
  looked_up h message heap none =
      fail_with h dynamic_load_failure_error (lookup_failure linker.platform (linker.dlsym_error h))
        message heap
  looked_up h message heap (some none) =
      fail_with h dynamic_load_failure_error
        (codes
          "An error occurred while looking up for OpenTracingMakeTracerFactory. It seems that it was set to nullptr.")
        message heap
  looked_up h message heap (some (some make_tracer_factory)) =
      made h (make_tracer_factory version abi_version message heap)

  -- `new DynamicLibraryHandleUnix{handle}`: until it returns, nothing owns the library.
  abbrev owned : H → Bytes → Heap → Loaded H F
  owned h message heap =
      if has_memory heap then looked_up h message (after_new heap) (linker.dlsym h) else record {
        result = unexpected out_of_memory;
        error_message = message;
        events = opened h ∷ [];
      }

  abbrev opened_library : Bytes → Bytes → Heap → Option H → Loaded H F
  opened_library shared_library message heap none =
      if has_memory heap
      then record {
        result = unexpected dynamic_load_failure_error;
        error_message = open_failure linker.platform (linker.dlopen_error shared_library);
        events = [];
      }
      else record { result = unexpected out_of_memory; error_message = message; events = [] }
  opened_library shared_library message heap (some h) = owned h message heap

  -- `DynamicallyLoadTracingLibrary`, of the path, of what is in `error_message`, and of the heap.
  unfoldable pub dynamically_load_tracing_library : Bytes → Bytes → Heap → Loaded H F
  dynamically_load_tracing_library shared_library message heap =
      opened_library shared_library message heap (linker.dlopen shared_library)
