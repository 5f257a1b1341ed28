-- ===== src/Span/Shortage/Setters.antt =====
-- The setters of mocktracer/src/mock_span.cpp where memory can be short: they catch what their
-- allocations throw. A member is changed where the code changes it.
use opentracing_cpp.Base.{List, [], ◌∷◌, Option, none, some, Bytes}
use opentracing_cpp.Heap.{Heap, Action, allocate, modify, gets, ◌>>=◌, ◌>>◌, ignoring}
use opentracing_cpp.Dict.{assign, find}
use opentracing_cpp.SpanData.{Value, null}
use opentracing_cpp.Span.{MockSpan, set_operation_name, log, set_baggage_item}
use opentracing_cpp.Span.Threads.{Setter, sets_operation_name, sets_tag, logs, sets_baggage_item}
use opentracing_cpp.Span.Shortage.{reserve, copy_value, copy_fields}

-- A span whose tags stand in `tags`, in place of the field of its data: `none` is a variant that has been
-- left without a value.
pub record Short : Type 0 where
  pub span : MockSpan
  pub tags : List (Bytes × Option Value)

abbrev pub on_span : (MockSpan → MockSpan) → Short → Short
on_span f s = record s { span = f s.span }

abbrev pub set_value : Bytes → Option Value → Short → Short
set_value key value s = record s { tags = assign key value s.tags }

-- `tags[key]`: a key that is not there gets a null value, in a new node.
abbrev pub insert_key : Bytes → Option (Option Value) → Action Short Unit
insert_key key (some old) = modify λ s. s
insert_key key none = allocate >> modify (set_value key (some null))

-- `abandoned` is what the assignment of the variant leaves where the copy of the value throws. With the
-- variant of 3rd_party, which is destroyed before the copy, it is `none`.
module _ (abandoned : Value → Option Value) where
  -- `tags[key] = value`, where the key is there.
  abbrev pub assign_tag : Bytes → Value → Action Short Unit
  assign_tag key value = do
    modify (set_value key (abandoned value))
    copy_value value
    modify (set_value key (some value))

  -- The bodies of the setters. A view is copied to a string before it is used.
  unfoldable pub body : Setter → Action Short Unit
  body (sets_operation_name name) = do allocate; modify (on_span (set_operation_name name))
  body (sets_tag key value) = do
    allocate
    old ← gets λ s. find key s.tags
    insert_key key old
    assign_tag key value
  body (logs timestamp fields) = do
    reserve fields
    copy_fields fields
    allocate
    modify (on_span (log timestamp fields))
  body (sets_baggage_item key value) = do
    allocate
    allocate
    allocate
    modify (on_span (set_baggage_item key value))

  -- A setter, which ignores what is thrown.
  unfoldable pub call : Setter → Short → Heap → Short × Heap
  call c = ignoring (body c)

  unfoldable pub run : List Setter → Short → Heap → Short × Heap
  run [] s heap = (s, heap)
  run (c ∷ calls) s heap = let (s', heap') = call c s heap in run calls s' heap'
