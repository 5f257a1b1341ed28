-- ===== src/Propagation/Reading.antt =====
-- Reading back what was written: the steps of `ExtractSpanContext` of
-- mocktracer/src/propagation.cpp on a good stream that begins with what they expect.
use opentracing_cpp.Base.{
  ℕ, ◌-◌, ◌%◌, ◌^◌, ◌<◌, ◌≡◌, refl, sym, ap, ◌∙◌, true, List, [], ◌∷◌, ◌++◌, append-nil,
  append_assoc, arith, Bytes, IsByte, All, length, take, drop, take_append, drop_append,
  drop-length, take-length, length-append, length-take, length-replicate, replicate, leb, u32_mod,
}
use opentracing_cpp.Memory.{Host, le_bytes, le_value, to_memory, from_memory, swap_endian_if_big}
use opentracing_cpp.Memory.Order.{
  le_bytes-IsByte, swap-from_memory, length-to_memory, from_memory-to_memory, le_value-le_bytes-4,
  le_value-le_bytes-8,
}
use opentracing_cpp.Dict.{assign, assign_all, IsSorted}
use opentracing_cpp.Dict.Laws.{assign_all-nil}
use opentracing_cpp.Error.{ok}
use opentracing_cpp.Stream.{istringstream, delivered, after_read}
use opentracing_cpp.SpanData.{SpanContextData}
use opentracing_cpp.Propagation.Wire.{wire_string, wire_baggage, wire_format}
use opentracing_cpp.Propagation.Binary.{
  read_number, resize, read_string, read, extracted, read_baggage, rounds_of, read_context,
  extract_span_context,
}

-- A string that the format can hold and the reader is given memory for.
abbrev pub TextFits : Host → Bytes → Type 0
TextFits host s = (length s < 2 ^ 32) × (host.can_resize (length s) ≡ true) × All IsByte s

abbrev pub ItemFits : Host → Bytes × Bytes → Type 0
ItemFits host (key, value) = TextFits host key × TextFits host value

-- A span context that the format can hold: ids of 64 bits, a map for the baggage, with fewer than
-- 2 ^ 31 items, each of which fits.
pub record Fits (host : Host) (context : SpanContextData) : Type 0 where
  pub trace : context.trace_id < 2 ^ 64
  pub span : context.span_id < 2 ^ 64
  pub few : length context.baggage < 2 ^ 31
  pub items : All (ItemFits host) context.baggage
  pub sorted : IsSorted context.baggage

delivered_front :
    (w : ℕ) (bs rest : Bytes) → length bs ≡ w → delivered w (istringstream (bs ++ rest)) ≡ bs
unfolding delivered
delivered_front w bs rest e = rw (← e) (take_append bs rest)

after_read_front :
    (w : ℕ) (bs rest : Bytes)
    → length bs ≡ w
    → after_read w (istringstream (bs ++ rest)) ≡ istringstream rest
unfolding after_read
after_read_front w bs rest e =
    let enough : leb w (length (bs ++ rest)) ≡ true = ground (arith, length-append bs rest) in
    rw (enough, ← e) (ap istringstream (drop_append bs rest))

read_number_front :
    (host : Host) (w old : ℕ) (bs rest : Bytes)
    → length bs ≡ w
    → read_number host w old (istringstream (bs ++ rest)) ≡ from_memory host bs
unfolding read_number
read_number_front host w old bs rest e =
    let nothing : drop (length bs) (to_memory host w old) ≡ [] =
      rw (e ∙ sym (length-to_memory host w old)) (drop-length (to_memory host w old)) in
    rw (delivered_front w bs rest e, nothing) (ap (from_memory host) (append-nil bs))

-- Little-endian bytes in the stream are read as their number on every host.
read_le_value :
    (host : Host) (w old : ℕ) (bs rest : Bytes)
    → length bs ≡ w
    → All IsByte bs
    → swap_endian_if_big host w (read_number host w old (istringstream (bs ++ rest))) ≡ le_value bs
read_le_value host w old bs rest size all_bytes = rw (read_number_front host w old bs rest size) (
    ap (λ (n : ℕ). swap_endian_if_big host n (from_memory host bs)) (sym size)
    ∙ swap-from_memory host bs all_bytes)

-- The header of a context: two ids and a count.
read_context-header :
    (host : Host) (t s c tail : Bytes) (ids : SpanContextData)
    → length t ≡ 8
    → length s ≡ 8
    → length c ≡ 4
    → All IsByte t
    → All IsByte s
    → All IsByte c
    → read_context host (istringstream (t ++ (s ++ (c ++ tail)))) ids
      ≡ read_baggage host
          (rounds_of (le_value c))
          []
          []
          (istringstream tail)
          (record ids { trace_id = le_value t; span_id = le_value s })
unfolding read_context
read_context-header host t s c tail ids size_t size_s size_c bytes_t bytes_s bytes_c = rw (
  read_le_value host 8 ids.trace_id t (s ++ (c ++ tail)) size_t bytes_t,
  after_read_front 8 t (s ++ (c ++ tail)) size_t,
  read_le_value host 8 ids.span_id s (c ++ tail) size_s bytes_s,
  after_read_front 8 s (c ++ tail) size_s,
  read_le_value host 4 0 c tail size_c bytes_c,
  after_read_front 4 c tail size_c,
)

length-resize : (n : ℕ) (s : Bytes) → length (resize n s) ≡ n
unfolding resize
length-resize n s = omega (
  arith,
  length-append (take n s) (replicate (n - length s) 0),
  length-take n s,
  length-replicate {A = ℕ} (n - length s) 0,
)

read_string_front :
    (host : Host) (old s rest : Bytes)
    → TextFits host s
    → read_string host old (istringstream (wire_string host s ++ rest))
      ≡ read s (istringstream rest)
unfolding read_string
read_string_front host old s rest (small, granted, _) =
    let n = length s in
    let size : Bytes = to_memory host 4 n in
    let four : length size ≡ 4 = length-to_memory host 4 n in
    let no_wrap : n % u32_mod ≡ n = omega arith in
    let read_size : from_memory host size ≡ n =
      from_memory-to_memory host 4 n ∙ le_value-le_bytes-4 n small in
    let replaced : drop n (resize n old) ≡ [] =
      ap (λ (k : ℕ). drop k (resize n old)) (sym (length-resize n old))
      ∙ drop-length (resize n old) in
    rw
      (
        no_wrap,
        take-length s,
        append_assoc size s rest,
        read_number_front host 4 0 size (s ++ rest) four,
        after_read_front 4 size (s ++ rest) four,
        read_size,
        granted,
        delivered_front n s rest refl,
        after_read_front n s rest refl,
        replaced,
      )
      (ap (λ (t : Bytes). read t (istringstream rest)) (append-nil s))

-- The context with further baggage assigned to it, item by item.
abbrev with_baggage : SpanContextData → List (Bytes × Bytes) → SpanContextData
with_baggage context items = record context { baggage = assign_all items context.baggage }

-- The loop reads as many items as the stream holds, and assigns each.
read_baggage-wire :
    (host : Host) (items : List (Bytes × Bytes)) (key value rest : Bytes)
    (context : SpanContextData)
    → All (ItemFits host) items
    → read_baggage host
        (length items)
        key
        value
        (istringstream (wire_baggage host items ++ rest))
        context
      ≡ extracted (ok true) (istringstream rest) (with_baggage context items)
unfolding read_baggage assign_all
read_baggage-wire host [] key value rest context fits = refl
read_baggage-wire host ((k, v) ∷ items) key value rest context ((fits_key, fits_value), fits) =
    rw
      (
        append_assoc (wire_string host k) (wire_string host v ++ wire_baggage host items) rest,
        read_string_front host key k ((wire_string host v ++ wire_baggage host items) ++ rest)
            fits_key,
        append_assoc (wire_string host v) (wire_baggage host items) rest,
        read_string_front host value v (wire_baggage host items ++ rest) fits_value,
      )
      (read_baggage-wire host items k v rest
        (record context { baggage = assign k v context.baggage }) fits)

rounds_of_small : (n : ℕ) → n < 2 ^ 31 → rounds_of n ≡ n
unfolding rounds_of
rounds_of_small n h = ground arith

-- Extraction, into a context without baggage, reads back the binary format of any context that fits,
-- on the host that wrote it, succeeds, and leaves what follows it in the stream.
pub extract-wire_format :
    (host : Host) (context : SpanContextData) (rest : Bytes) (ids : SpanContextData)
    → Fits host context
    → ids.baggage ≡ []
    → extract_span_context host (istringstream (wire_format host context ++ rest)) ids
      ≡ extracted (ok true) (istringstream rest) context
unfolding extract_span_context
extract-wire_format host context rest ids fits fresh =
    let n = length context.baggage in
    let no_wrap : n % u32_mod ≡ n = omega arith in
    read_context-header host (le_bytes 8 context.trace_id) (le_bytes 8 context.span_id)
      (le_bytes 4 (n % u32_mod)) (wire_baggage host context.baggage ++ rest) ids refl refl refl
      (le_bytes-IsByte 8 context.trace_id) (le_bytes-IsByte 8 context.span_id)
      (le_bytes-IsByte 4 (n % u32_mod))
    ∙ rw (
      le_value-le_bytes-8 context.trace_id fits.trace,
      le_value-le_bytes-8 context.span_id fits.span,
      no_wrap,
      le_value-le_bytes-4 n (omega arith),
      rounds_of_small n fits.few,
      read_baggage-wire host context.baggage [] [] rest _ fits.items,
      fresh,
      assign_all-nil context.baggage fits.sorted,
    )
