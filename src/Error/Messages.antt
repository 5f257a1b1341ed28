-- ===== src/Error/Messages.antt =====
-- The three error categories: src/propagation.cpp, src/tracer_factory.cpp and
-- src/dynamic_load.cpp. A category is its two virtual functions.
use opentracing_cpp.Base.{ℕ, Bytes, codes, ◌==◌, if◌then◌else◌}
use opentracing_cpp.Error.{
  Category, Errc, no_such_file_or_directory, invalid_argument, not_supported,
  propagation_error_category, tracer_factory_error_category, dynamic_load_error_category,
  invalid_span_context_error, invalid_carrier_error, span_context_corrupted_error,
  key_not_found_error, lookup_key_not_supported_error, configuration_parse_error,
  invalid_configuration_error, dynamic_load_failure_error, dynamic_load_not_supported_error,
  incompatible_library_versions_error,
}

-- A `std::error_condition`: one of `std::errc`, or a value of a category.
pub data ErrorCondition : Type 0 where
  errc : Errc → ErrorCondition
  own : ℕ → Category → ErrorCondition

unfoldable pub propagation_condition : ℕ → ErrorCondition
propagation_condition code =
    if code == invalid_span_context_error.value
    then errc not_supported
    else if code == invalid_carrier_error.value
    then errc invalid_argument
    else if code == span_context_corrupted_error.value
    then errc invalid_argument
    else if code == key_not_found_error.value
    then errc invalid_argument
    else if code == lookup_key_not_supported_error.value
    then errc not_supported
    else own code propagation_error_category

unfoldable pub propagation_message : ℕ → Bytes
propagation_message code =
    if code == invalid_span_context_error.value
    then codes "opentracing: SpanContext type incompatible with tracer"
    else if code == invalid_carrier_error.value
    then codes "opentracing: Invalid Inject/Extract carrier"
    else if code == span_context_corrupted_error.value
    then codes "opentracing: SpanContext data corrupted in Extract carrier"
    else if code == key_not_found_error.value
    then codes "opentracing: SpanContext key not found"
    else if code == lookup_key_not_supported_error.value
    then codes "opentracing: Lookup for the given key is not supported"
    else codes "opentracing: unknown propagation error"

unfoldable pub factory_condition : ℕ → ErrorCondition
factory_condition code =
    if code == configuration_parse_error.value
    then errc invalid_argument
    else if code == invalid_configuration_error.value
    then errc invalid_argument
    else own code tracer_factory_error_category

unfoldable pub factory_message : ℕ → Bytes
factory_message code =
    if code == configuration_parse_error.value
    then codes "opentracing: failed to parse configuration"
    else if code == invalid_configuration_error.value
    then codes "opentracing: invalid configuration"
    else codes "opentracing: unknown tracer factory error"

unfoldable pub loading_condition : ℕ → ErrorCondition
loading_condition code =
    if code == dynamic_load_failure_error.value
    then errc no_such_file_or_directory
    else if code == dynamic_load_not_supported_error.value
    then errc not_supported
    else if code == incompatible_library_versions_error.value
    then errc invalid_argument
    else own code dynamic_load_error_category

unfoldable pub loading_message : ℕ → Bytes
loading_message code =
    if code == dynamic_load_failure_error.value
    then codes "opentracing: failed to load dynamic library"
    else if code == dynamic_load_not_supported_error.value
    then codes "opentracing: dynamic library loading is not supported"
    else if code == incompatible_library_versions_error.value
    then codes "opentracing: versions of opentracing libraries are incompatible"
    else codes "opentracing: unknown dynamic load error"
