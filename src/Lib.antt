-- ===== src/Lib.antt =====
-- opentracing-cpp: the OpenTracing interface for C++, its no-op tracer, the global tracer, and the mock
-- tracer with its propagation formats, recorders, configuration and dynamic loading.
--
-- The parts, and the files that model them:
-- Base64: mocktracer/src/base64.cpp. `encode` and `decode` are `Base64::encode` and
--     `Base64::decode`, with one definition for each step of the two state machines. Base64.RoundTrip
--     and Base64.Canonical relate the two in both directions.
-- Memory: mocktracer/src/utility.cpp. A `Host` is what C++ leaves to the implementation: the byte
--     order, whether `char` is signed, and for which sizes a string is given memory.
-- Stream, Dict: the standard streams and `std::map`, as far as the program uses them.
-- Propagation.Binary: the overloads of `InjectSpanContext` and `ExtractSpanContext` for streams in
--     mocktracer/src/propagation.cpp; Propagation.Wire describes their format independently, and
--     Propagation.Reading and Propagation.Failures relate the two.
-- Propagation.TextMap: the overloads for text maps and HTTP headers, with `LookupKey`. The carriers
--     of include/opentracing/propagation.h are parameters, since the users implement them.
-- Error: `are_errors_equal` of include/opentracing/util.h, the error codes of the headers, and in
--     Error.Messages the categories of src/propagation.cpp, src/tracer_factory.cpp and
--     src/dynamic_load.cpp.
-- SpanData: the records of mocktracer/include/opentracing/mocktracer/recorder.h and the variant of
--     include/opentracing/value.h, of which ValueOf has the constructors for integers. The operators
--     that compare the records are in SpanData.Comparison, and SpanData.Equality is about them.
--     Context: mocktracer/src/mock_span_context.cpp, with Context.Identity on its ids as text.
-- StringView: include/opentracing/string_view.h, over a storage of bytes. Elsewhere a view is the bytes
--     that it shows. Ext: the tag names of src/ext/tags.cpp.
-- Span: mocktracer/src/mock_span.cpp. A span and its recorder are passed from call to call; Span.Calls
--     has the sequences of calls as a list, and Span.Start is about the constructor and the setters.
--     Span.Threads has all methods that change a span called by many threads, as steps in any order:
--     the mutexes are taken and released, and the loads and stores between are steps of their own, as
--     are the exchange of the flag, the copies and the call of the recorder. Span.Exclusion,
--     Span.Linear, Span.Progress, Span.Claimed, Span.Finishers and Span.Unguarded are about it.
--     Span.Shortage has FinishWithOptions, and Span.Shortage.Setters the setters, with the allocations
--     that they make, any of which can fail; Span.Shortage.Finish, Span.Shortage.Atomic and
--     Span.Shortage.Kept are about them.
-- Heap: which allocations are given memory, and actions that change a state and can throw.
-- Recorder, Json.Recorder: mocktracer/src/in_memory_recorder.cpp and json_recorder.cpp;
--     Recorder.Shortage has their RecordSpan where memory can be short.
-- Json: mocktracer/src/json.cpp. Json.Tree, Json.Numbers and Json.Parser are trees of JSON and a reader
--     that accepts only texts of RFC 8259, with Json.Escape and Json.Utf8 for the strings; Json.Parsed shows that the reader finds
--     the tree of a text. Json.SpanTree says which tree a span has, Json.Emits and Json.Written what
--     the code writes, and Json.ReadBack puts both together; Json.Pipeline goes from the
--     calls on a span to the text of the recorder, and Json.Closing has recorders that are closed
--     twice. Json.Ids has the digits of the ids.
-- Tracer: mocktracer/src/tracer.cpp, which calls the propagation and makes the spans. Tracer.RoundTrip is
--     about injection and extraction, and Tracer.Remote about a trace that goes on in another process.
-- Options: the option classes of include/opentracing/tracer.h and span.h, and `Tracer::StartSpan`;
--     Options.Shortage has them with allocations that can fail.
-- Configuration: mocktracer/src/tracer_factory.cpp. Configuration.Grammar describes the documents
--     for itself, Configuration.Acceptance relates the two, and Configuration.Factory is about the
--     factory, whose allocations can fail.
-- Session: from the text of a configuration over a tracer, its recorder and a span to the file.
-- Loading: src/dynamic_load_unix.cpp, dynamic_load_windows.cpp and dynamic_load_unsupported.cpp, with
--     allocations that can fail, and Loading.Mock the hook of mocktracer/src/dynamic_load.cpp.
--     Loading.Lifetime has the handle of include/opentracing/dynamic_load.h, made, moved and destroyed,
--     and Loading.Owners and Loading.Unloading are about it.
-- Registry: src/tracer.cpp. Noop: src/noop.cpp.
-- Tests: the theorems on concrete inputs.
--
-- Numbers are natural numbers, and a 32- or 64-bit number keeps its wrap-around written out; times and
-- `int64_t` are integers. An object is a record that a method takes and returns, a failure is a value
-- (`Expected`, as `opentracing::expected`), and `Outcome` has the exceptions and undefined behaviour
-- that `Base64::decode` can meet. But for Span.Threads, a method is one step. Allocations succeed, but
-- in the propagation, where a `Host` says so, and where a `Heap` is passed.
--
-- The loops are structural recursion, over the text, the list or the number of rounds. The printing of
-- a number has fuel: one more than the number, of which each digit takes one, while the number is
-- divided by the base. The reader of JSON texts has three times the length of the text, since each
-- value and each element takes at most two calls and has at least one character of its own.
--
-- Not modelled: allocations that fail in `Inject` and behind the new context of `Extract`, but for
-- `Base64::decode`, and in the reads of a span or a recorder (`BaggageItem`, `spans`, `top`, `Close`); times and durations beyond
-- the 64 bits of their counts, whose overflow has no defined behaviour; and 3rd_party. A conversion of a
-- `double` to text, the comparison of two values, what a
-- variant keeps of an assignment that throws, the dynamic linker, the file system and the ABI version
-- are parameters.
pub mod Base
pub mod Memory
pub mod Heap
pub mod Dict
pub mod Error
pub mod StringView
pub mod Stream
pub mod Base64
pub mod SpanData
pub mod ValueOf
pub mod Propagation
pub mod Context
pub mod Recorder
pub mod Span
pub mod Tracer
pub mod Options
pub mod Registry
pub mod Noop
pub mod Ext
pub mod Json
pub mod Configuration
pub mod Session
pub mod Loading
pub mod Tests
