-- ===== src/Propagation/TextMap/Lookup.antt =====
-- What `LookupKey` of mocktracer/src/propagation.cpp finds, in carriers that keep the contract of
-- `ForeachKey` in include/opentracing/propagation.h.
use opentracing_cpp.Base.{
  ◌≡◌, refl, Bool, true, false, List, [], ◌∷◌, Bytes, arith, if◌then◌else◌, ◌↔◌, map, Bool-cases,
  inl, inr,
}
use opentracing_cpp.Error.{
  ErrorCode, Expected, ok, unexpected, same_bytes, are_errors_equal, same_error_code,
  key_not_found_error, lookup_key_not_supported_error,
}
use opentracing_cpp.Propagation.TextMap.{
  TextMapReader, Visitor, visit_key, after_visits, lookup_key, tolower, iequals,
}

abbrev go_on :
    (Expected Bytes → Expected (Unit {0}) × Expected Bytes)
    → Expected (Unit {0}) × Expected Bytes
    → Expected (Unit {0}) × Expected Bytes
go_on rest (ok _, s) = rest s
go_on rest (unexpected e, s) = (unexpected e, s)

-- One call of the function after another, until one of them returns an error.
unfoldable pub visit :
    Visitor → List (Bytes × Bytes) → Expected Bytes → Expected (Unit {0}) × Expected Bytes
visit f [] s = (ok tt, s)
visit f ((key, value) ∷ entries) s = go_on (visit f entries) (f key value s)

-- The contract of `ForeachKey`, for a carrier that holds these entries.
abbrev pub Visits : TextMapReader → List (Bytes × Bytes) → Type 0
Visits carrier entries =
    (f : Visitor) (s : Expected Bytes) → carrier.foreach_key f s ≡ visit f entries s

-- The value of the first entry whose key the comparison accepts.
abbrev pub first_match : (Bytes → Bytes → Bool) → Bytes → List (Bytes × Bytes) → Expected Bytes
first_match key_compare key [] = unexpected key_not_found_error
first_match key_compare key ((k, v) ∷ entries) =
    if key_compare k key then ok v else first_match key_compare key entries

visit-first_match :
    (key_compare : Bytes → Bytes → Bool) (key : Bytes) (entries : List (Bytes × Bytes))
    → after_visits (visit (visit_key key_compare key) entries (unexpected key_not_found_error))
      ≡ first_match key_compare key entries
unfolding visit
visit-first_match key_compare key [] = refl
visit-first_match key_compare key ((k, v) ∷ entries) = elim (Bool-cases (key_compare k key)) [
  | inl e ↦ rw e (unfold same_error_code same_bytes in refl)
  | inr e ↦ rw e (visit-first_match key_compare key entries)
]

-- In a carrier that does not support `LookupKey` and keeps the contract of `ForeachKey`, the
-- lookup returns the value of the first entry that matches, or that there is none.
pub lookup_key-first_match :
    (carrier : TextMapReader) (key : Bytes) (key_compare : Bytes → Bytes → Bool)
    (entries : List (Bytes × Bytes))
    → carrier.lookup_key key ≡ unexpected lookup_key_not_supported_error
    → Visits carrier entries
    → lookup_key carrier key key_compare ≡ first_match key_compare key entries
unfolding lookup_key
lookup_key-first_match carrier key key_compare entries unsupported visits =
    rw (unsupported, visits (visit_key key_compare key) (unexpected key_not_found_error))
      (unfold are_errors_equal same_bytes in visit-first_match key_compare key entries)

-- A carrier that supports `LookupKey` is not searched: its answer stands, an error included.
lookup_key_supported :
    (carrier : TextMapReader) (key : Bytes) (key_compare : Bytes → Bytes → Bool)
    (answer : Expected Bytes)
    → carrier.lookup_key key ≡ answer
    → ((e : ErrorCode)
        → answer ≡ unexpected e
        → are_errors_equal e lookup_key_not_supported_error ≡ false)
    → lookup_key carrier key key_compare ≡ answer
unfolding lookup_key
lookup_key_supported carrier key key_compare (ok v) found other = rw found
lookup_key_supported carrier key key_compare (unexpected e) found other = rw (found, other e refl)

-- `iequals` accepts two strings exactly when they are equal in lower case.
pub iequals-map : (lhs rhs : Bytes) → (iequals lhs rhs ≡ true) ↔ (map tolower lhs ≡ map tolower rhs)
unfolding iequals
iequals-map lhs rhs = (there lhs rhs, back lhs rhs)
  where
    there : (a b : Bytes) → iequals a b ≡ true → map tolower a ≡ map tolower b
    there [] [] h = refl
    there [] (y ∷ b) h = ground arith
    there (x ∷ a) [] h = ground arith
    there (x ∷ a) (y ∷ b) h = ground (arith, there a b)

    back : (a b : Bytes) → map tolower a ≡ map tolower b → iequals a b ≡ true
    back [] [] h = refl
    back [] (y ∷ b) h = cc
    back (x ∷ a) [] h = cc
    back (x ∷ a) (y ∷ b) h = ground (arith, back a b)
