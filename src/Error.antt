-- ===== src/Error.antt =====
-- Error codes and results: include/opentracing/util.h (`are_errors_equal`), the error codes of
-- include/opentracing/propagation.h, tracer_factory.h and dynamic_load.h, and `expected`, which
-- is a value or an error code.
pub mod Messages
pub mod Equality
use opentracing_cpp.Base.{ℕ, Bool, true, false, ◌&&◌, [], ◌∷◌, Bytes, codes, ◌==◌, if◌then◌else◌}

-- A `std::error_category` is an object: it has a name, and an identity, since each copy of a
-- library that is linked in has an object of its own.
pub record Category : Type 0 where
  pub name : Bytes
  pub copy : ℕ

-- A `std::error_code`; the value is the bit pattern of an `int`.
pub record ErrorCode : Type 0 where
  pub value : ℕ
  pub category : Category

-- `opentracing::expected<A>`
pub data Expected {ℓ} (A : Type ℓ) : Type ℓ where
  ok : A → Expected A
  unexpected : ErrorCode → Expected A

-- How a call ends where it need not return: `undefined` is a read outside an array.
pub data Exception : Type 0 where
  bad_alloc length_error : Exception

pub data Outcome {ℓ} (A : Type ℓ) : Type ℓ where
  returned : A → Outcome A
  thrown : Exception → Outcome A
  undefined : Outcome A

-- `operator==` of string_view: the lengths agree and `std::equal` finds no difference.
unfoldable pub same_bytes : Bytes → Bytes → Bool
same_bytes [] [] = true
same_bytes [] (y ∷ ys) = false
same_bytes (x ∷ xs) [] = false
same_bytes (x ∷ xs) (y ∷ ys) = x == y && same_bytes xs ys

-- Names are compared and addresses are not.
unfoldable pub are_errors_equal : ErrorCode → ErrorCode → Bool
are_errors_equal lhs rhs = same_bytes lhs.category.name rhs.category.name && lhs.value == rhs.value

-- The standard library's `operator==` compares the addresses of the categories.
unfoldable pub same_error_code : ErrorCode → ErrorCode → Bool
same_error_code lhs rhs =
    lhs.category.copy == rhs.category.copy
    && same_bytes lhs.category.name rhs.category.name
    && lhs.value == rhs.value

abbrev pub system_category : Category
system_category = record { name = codes "system"; copy = 0 }

abbrev pub generic_category : Category
generic_category = record { name = codes "generic"; copy = 0 }

abbrev pub propagation_error_category : Category
propagation_error_category = record { name = codes "OpenTracingPropagationError"; copy = 0 }

abbrev pub tracer_factory_error_category : Category
tracer_factory_error_category = record { name = codes "OpenTracingTracerFactoryError"; copy = 0 }

abbrev pub dynamic_load_error_category : Category
dynamic_load_error_category = record { name = codes "OpenTracingDynamicLoadError"; copy = 0 }

-- `std::error_code{}`
abbrev pub no_error : ErrorCode
no_error = record { value = 0; category = system_category }

-- The conditions of `std::errc` that the program names, with the values that Linux gives them.
pub data Errc : Type 0 where
  no_such_file_or_directory io_error not_enough_memory invalid_argument not_supported : Errc

abbrev pub errno : Errc → ℕ
errno no_such_file_or_directory = 2
errno io_error = 5
errno not_enough_memory = 12
errno invalid_argument = 22
errno not_supported = 95

-- `std::make_error_code(std::errc)`
abbrev pub make_error_code : Errc → ErrorCode
make_error_code e = record { value = errno e; category = generic_category }

-- What the handlers of `std::bad_alloc` return.
abbrev pub out_of_memory : ErrorCode
out_of_memory = make_error_code not_enough_memory

abbrev propagation_error : ℕ → ErrorCode
propagation_error n = record { value = n; category = propagation_error_category }

abbrev pub invalid_span_context_error : ErrorCode
invalid_span_context_error = propagation_error 1

abbrev pub invalid_carrier_error : ErrorCode
invalid_carrier_error = propagation_error 2

abbrev pub span_context_corrupted_error : ErrorCode
span_context_corrupted_error = propagation_error 3

abbrev pub key_not_found_error : ErrorCode
key_not_found_error = propagation_error 4

abbrev pub lookup_key_not_supported_error : ErrorCode
lookup_key_not_supported_error = propagation_error 5

abbrev pub configuration_parse_error : ErrorCode
configuration_parse_error = record { value = 1; category = tracer_factory_error_category }

abbrev pub invalid_configuration_error : ErrorCode
invalid_configuration_error = record { value = 2; category = tracer_factory_error_category }

abbrev pub dynamic_load_failure_error : ErrorCode
dynamic_load_failure_error = record { value = 1; category = dynamic_load_error_category }

abbrev pub dynamic_load_not_supported_error : ErrorCode
dynamic_load_not_supported_error = record { value = 2; category = dynamic_load_error_category }

abbrev pub incompatible_library_versions_error : ErrorCode
incompatible_library_versions_error = record { value = 3; category = dynamic_load_error_category }
