-- ===== src/Propagation/TextMap.antt =====
-- The text map and HTTP header carriers of mocktracer/src/propagation.cpp, over the carrier
-- interfaces of include/opentracing/propagation.h and the options of mocktracer/tracer.h.
pub mod Lookup
pub mod RoundTrip
use opentracing_cpp.Base.{
  ℕ, ◌+◌, Bool, true, false, ◌&&◌, not, [], ◌∷◌, Bytes, codes, length, ltb, leb, ◌==◌,
  if◌then◌else◌,
}
use opentracing_cpp.Memory.{Host}
use opentracing_cpp.Error.{
  ErrorCode, Expected, ok, unexpected, Outcome, returned, thrown, undefined, same_bytes,
  are_errors_equal, same_error_code, no_error, key_not_found_error, lookup_key_not_supported_error,
  span_context_corrupted_error,
}
use opentracing_cpp.Stream.{istringstream, ostringstream, string_buffer, OStream}
use opentracing_cpp.Base64
use opentracing_cpp.SpanData.{SpanContextData}
use opentracing_cpp.Propagation.Binary.{
  Extraction, inject_span_context as inject_binary, extract_span_context as extract_binary,
}

pub record PropagationOptions : Type 0 where
  pub propagation_key : Bytes
  pub inject_error_code : ErrorCode
  pub extract_error_code : ErrorCode

-- The defaults of the struct.
abbrev pub default_options : PropagationOptions
default_options = record {
  propagation_key = codes "x-ot-span-context";
  inject_error_code = no_error;
  extract_error_code = no_error;
}

-- `TextMapWriter`, whose implementations are the users': `M` is what the carrier keeps.
pub record TextMapWriter (M : Type 0) : Type 0 where
  pub set : Bytes → Bytes → M → Expected (Unit {0}) × M

-- What `ForeachKey` is given here: a function of a key, a value and the variable that it captures.
abbrev pub Visitor : Type 0
Visitor = Bytes → Bytes → Expected Bytes → Expected (Unit {0}) × Expected Bytes

-- `TextMapReader`, whose implementations are the users' as well.
pub record TextMapReader : Type 0 where
  pub lookup_key : Bytes → Expected Bytes
  pub foreach_key : Visitor → Expected Bytes → Expected (Unit {0}) × Expected Bytes

-- What the first of two steps returns, if that is an error, and else what the second does.
abbrev set_context :
    {M : Type 0}
    → PropagationOptions
    → TextMapWriter M
    → M
    → Expected (Unit {0}) × OStream Bytes
    → Expected (Unit {0}) × M
set_context options carrier m (unexpected e, _) = (unexpected e, m)
set_context options carrier m (ok _, ostream) =
    carrier.set options.propagation_key (Base64.encode ostream.buffer) m

-- `InjectSpanContext` into a text map. The overload for HTTP headers calls it.
unfoldable pub inject_span_context :
    {M : Type 0}
    → Host
    → PropagationOptions
    → TextMapWriter M
    → M
    → SpanContextData
    → Expected (Unit {0}) × M
inject_span_context host options carrier m span_context_data =
    set_context options carrier m (inject_binary host string_buffer ostringstream span_context_data)

-- The function that `LookupKey` passes to `ForeachKey`: an error code without a value breaks off.
abbrev pub visit_key : (Bytes → Bytes → Bool) → Bytes → Visitor
visit_key key_compare key carrier_key value result =
    if key_compare carrier_key key then (unexpected no_error, ok value) else (ok tt, result)

abbrev pub after_visits : Expected (Unit {0}) × Expected Bytes → Expected Bytes
after_visits (ok _, result) = result
after_visits (unexpected e, result) =
    if not (same_error_code e no_error) then unexpected e else result

abbrev pub or_visit : Expected Bytes → Expected Bytes → Expected Bytes
or_visit (ok value) otherwise = ok value
or_visit (unexpected e) otherwise =
    if not (are_errors_equal e lookup_key_not_supported_error) then unexpected e else otherwise

-- `LookupKey`
unfoldable pub lookup_key : TextMapReader → Bytes → (Bytes → Bytes → Bool) → Expected Bytes
lookup_key carrier key key_compare = or_visit (carrier.lookup_key key) (
    after_visits (carrier.foreach_key (visit_key key_compare key) (unexpected key_not_found_error)))

-- What the extraction does with the decoded value.
abbrev pub extract_decoded :
    Host → Outcome Bytes → SpanContextData → Outcome (Expected Bool × SpanContextData)
extract_decoded host (returned []) context =
    returned (unexpected span_context_corrupted_error, context)
extract_decoded host (returned (b ∷ bs)) context =
    let e = extract_binary host (istringstream (b ∷ bs)) context in
    returned (e.result, e.span_context)
extract_decoded host (thrown e) context = thrown e
extract_decoded host undefined context = undefined

abbrev pub extract_found :
    Host → Expected Bytes → SpanContextData → Outcome (Expected Bool × SpanContextData)
extract_found host (ok value) context = extract_decoded host (Base64.decode host value) context
extract_found host (unexpected e) context =
    if are_errors_equal e key_not_found_error
    then returned (ok false, context)
    else returned (unexpected e, context)

-- The template `ExtractSpanContext` for text maps: the result, and the context that it fills in.
unfoldable pub extract_with :
    Host
    → PropagationOptions
    → TextMapReader
    → (Bytes → Bytes → Bool)
    → SpanContextData
    → Outcome (Expected Bool × SpanContextData)
extract_with host options carrier key_compare context =
    extract_found host (lookup_key carrier options.propagation_key key_compare) context

-- `ExtractSpanContext` from a text map: the keys are compared as they are.
unfoldable pub extract_text_map :
    Host
    → PropagationOptions
    → TextMapReader
    → SpanContextData
    → Outcome (Expected Bool × SpanContextData)
extract_text_map host options carrier = extract_with host options carrier same_bytes

-- `std::tolower` in the C locale.
unfoldable pub tolower : ℕ → ℕ
tolower c = if leb b'A' c && leb c b'Z' then c + 32 else c

abbrev equal_ignoring_case : Bytes → Bytes → Bool
equal_ignoring_case [] rhs = true
equal_ignoring_case (a ∷ lhs) [] = false
equal_ignoring_case (a ∷ lhs) (b ∷ rhs) = tolower a == tolower b && equal_ignoring_case lhs rhs

-- The function `iequals`.
unfoldable pub iequals : Bytes → Bytes → Bool
iequals lhs rhs = length lhs == length rhs && equal_ignoring_case lhs rhs

-- `ExtractSpanContext` from HTTP headers: the keys are compared without regard to case.
unfoldable pub extract_http_headers :
    Host
    → PropagationOptions
    → TextMapReader
    → SpanContextData
    → Outcome (Expected Bool × SpanContextData)
extract_http_headers host options carrier = extract_with host options carrier iequals
