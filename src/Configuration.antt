-- ===== src/Configuration.antt =====
-- mocktracer/src/tracer_factory.cpp: the parser of a tracer's configuration and the factory. The
-- pointers `i` and `last` are the number of characters read and the text that is left, up to the
-- terminator of the C string. `std::isspace` and `std::isprint` are those of the C locale.
pub mod Grammar
pub mod Acceptance
pub mod Factory
use opentracing_cpp.Base.{
  ℕ, zero, suc, ◌+◌, Bool, true, false, ◌&&◌, ◌||◌, List, [], ◌∷◌, ◌++◌, Option, none, some, ◌⊎◌,
  inl, inr, Bytes, codes, length, ltb, leb, ◌==◌, if◌then◌else◌,
}
use opentracing_cpp.Heap.{
  Heap, Action, Attempt, done, bad_alloc, allocate, modify, gets, ◌>>=◌, ◌>>◌,
}
use opentracing_cpp.Error.{Expected, ok, unexpected, invalid_configuration_error, out_of_memory}
use opentracing_cpp.Json.Text.{print_number}
use opentracing_cpp.Json.Recorder.{Output, JsonRecorder}
use opentracing_cpp.Propagation.TextMap.{PropagationOptions, default_options}
use opentracing_cpp.Tracer.{MockTracer}

-- The pointer `i`, up to `last`.
pub record Cursor : Type 0 where
  pub position : ℕ
  pub rest : Bytes

-- A result with the pointer behind it, or `InvalidConfigurationError`.
pub data Parse {ℓ} (A : Type ℓ) : Type ℓ where
  parsed : A → Cursor → Parse A
  invalid : (position : ℕ) (message : Bytes) → Parse A

abbrev pub and_then {ℓ ℓ'} : {A : Type ℓ} {B : Type ℓ'} → Parse A → (A → Cursor → Parse B) → Parse B
and_then (parsed a i) next = next a i
and_then (invalid position message) next = invalid position message

abbrev pub isspace : ℕ → Bool
isspace c = (leb 9 c && leb c 13) || c == b' '

abbrev pub isprint : ℕ → Bool
isprint c = leb 0x20 c && leb c 0x7e

-- The loop of `Consume`: `*i++` is read first, so the position of a mismatch is one further. Behind
-- the text there is the terminator, which is no character of `s`.
unfoldable pub consume_all : Bytes → ℕ → Bytes → Parse (Unit {0})
consume_all [] position rest = parsed tt (record { position = position; rest = rest })
consume_all (c ∷ s) position [] = invalid (suc position) (codes "expected " ++ c ∷ s)
consume_all (c ∷ s) position (x ∷ rest) =
    let next = consume_all s (suc position) rest in
    if x == c then next else invalid (suc position) (codes "expected " ++ c ∷ s)

-- `Consume`
unfoldable pub consume : Bytes → Cursor → Parse (Unit {0})
consume s i =
    if ltb (length i.rest) (length s)
    then invalid i.position (codes "expected " ++ s)
    else consume_all s i.position i.rest

-- `ConsumeWhitespace`
unfoldable pub skip_whitespace : ℕ → Bytes → Cursor
skip_whitespace position [] = record { position = position; rest = [] }
skip_whitespace position (c ∷ rest) =
    let next = skip_whitespace (suc position) rest in
    if isspace c then next else record { position = position; rest = c ∷ rest }

abbrev pub consume_whitespace : Cursor → Cursor
consume_whitespace i = skip_whitespace i.position i.rest

-- `ConsumeToken`
unfoldable pub consume_token : Bytes → Cursor → Parse (Unit {0})
consume_token token i = consume token (consume_whitespace i)

-- The loop of `ParseFilename`.
unfoldable pub filename_loop : Bytes → ℕ → Bytes → Parse Bytes
filename_loop result position [] = invalid position (codes "no matching \"")
filename_loop result position (c ∷ rest) =
    let next = filename_loop (result ++ c ∷ []) (suc position) rest in
    if c == b'"'
    then parsed result (record { position = suc position; rest = rest })
    else if c == b'\\'
    then invalid position (codes "escaped characters are not supported in filename")
    else if isprint c
    then next
    else invalid position (codes "invalid character")

-- `ParseFilename`
unfoldable pub parse_filename : Cursor → Parse Bytes
parse_filename i =
    and_then (consume_token (codes "\"") i) (λ _ i1. filename_loop [] i1.position i1.rest)

-- The test for the end of the text.
abbrev pub at_end : Bytes → ℕ → Bytes → Parse Bytes
at_end filename position [] = parsed filename (record { position = position; rest = [] })
at_end filename position (c ∷ rest) = invalid position (codes "expected EOF")

abbrev pub expect_end : Bytes → Cursor → Parse Bytes
expect_end filename i = at_end filename i.position i.rest

-- `ParseConfiguration`
unfoldable pub parse_configuration : Bytes → Parse Bytes
parse_configuration text =
    and_then (consume_token (codes "{") (record { position = 0; rest = text })) (λ _ i1.
      and_then (consume_token (codes "\"output_file\"") i1) (λ _ i2.
        and_then (consume_token (codes ":") i2) (λ _ i3.
          and_then (parse_filename i3) (λ filename i4.
            and_then (consume_token (codes "}") i4)
              (λ _ i5. expect_end filename (consume_whitespace i5))))))

-- The handler of `InvalidConfigurationError`.
abbrev pub parse_error_message : ℕ → Bytes → Bytes
parse_error_message position message =
    codes "Error parsing configuration at position "
    ++ print_number 10 position
    ++ codes ": "
    ++ message

-- `error_message = text`, and `error_message += text`.
abbrev pub store : Bytes → Action Bytes Unit
store text = do allocate; modify λ _. text

abbrev pub append : Bytes → Action Bytes Unit
append text = do allocate; modify λ error_message. error_message ++ text

-- The result and `error_message`, with the handler of `std::bad_alloc`.
abbrev pub handled : {T : Type 0} → Attempt (Expected T) × Bytes × Heap → Expected T × Bytes
handled (done result, error_message, heap) = (result, error_message)
handled (bad_alloc, error_message, heap) = (unexpected out_of_memory, error_message)

pub record MockTracerOptions (R : Type 0) : Type 0 where
  pub recorder : Option R
  pub propagation_options : PropagationOptions

-- The constructor of `MockTracer`
unfoldable pub make_mock_tracer : {R : Type 0} → MockTracerOptions R → MockTracer R
make_mock_tracer options = record {
  recorder = options.recorder;
  propagation_options = options.propagation_options;
}

-- The constructor of `JsonRecorder`
unfoldable pub make_json_recorder : Output → JsonRecorder
make_json_recorder out = record { out = some out; spans = [] }

-- The tracer that `MakeTracer` makes of the stream of a file.
unfoldable pub tracer_of : Output → MockTracer JsonRecorder
unfolding make_mock_tracer make_json_recorder
tracer_of out =
    make_mock_tracer
      (record { recorder = some (make_json_recorder out); propagation_options = default_options })

abbrev pub Made : Type 0
Made = Expected (MockTracer JsonRecorder)

-- The file system: `open_file` gives the stream, or what `std::strerror` says of the failure.
module _ (open_file : Bytes → Output ⊎ Bytes) where
  abbrev fail : Action Bytes Made
  fail = gets λ _. unexpected invalid_configuration_error

  -- The recorder, the tracer, and what counts its owners.
  abbrev pub make_opened : Bytes → Output ⊎ Bytes → Action Bytes Made
  make_opened output_file (inl out) = do allocate; allocate; allocate; gets λ _. ok (tracer_of out)
  make_opened output_file (inr reason) = do
    store (codes "failed to open file `")
    append (output_file ++ codes "` (")
    append reason
    append (codes ")")
    fail

  abbrev pub make_parsed : Parse Bytes → Action Bytes Made
  make_parsed (parsed output_file i) = do allocate; make_opened output_file (open_file output_file)
  make_parsed (invalid position message) = do store (parse_error_message position message); fail

  abbrev pub make : Option Bytes → Action Bytes Made
  make none = do store (codes "configuration must not be null"); fail
  make (some configuration) = do allocate; make_parsed (parse_configuration configuration)

  -- `MockTracerFactory::MakeTracer`: the result, and what is in `error_message` then. `none` is the
  -- null pointer.
  unfoldable pub make_tracer : Option Bytes → Bytes → Heap → Made × Bytes
  make_tracer configuration error_message heap = handled (make configuration error_message heap)
