-- ===== src/Stream.antt =====
-- The standard streams as the program uses them. A `std::istream` is the bytes that are left and
-- whether the stream is good; a `std::ostream` writes to a stream buffer, which the caller chooses.
use opentracing_cpp.Base.{ℕ, Bool, true, [], ◌++◌, Bytes, length, take, drop, leb, if◌then◌else◌}

pub record IStream : Type 0 where
  pub rest : Bytes
  pub is_good : Bool

-- `std::istringstream{bytes}`
abbrev pub istringstream : Bytes → IStream
istringstream bs = record { rest = bs; is_good = true }

-- The bytes that `istream.read(_, n)` delivers: all that are left, if these are fewer than `n`, and
-- none of a stream that is not good.
unfoldable pub delivered : ℕ → IStream → Bytes
delivered n is = if is.is_good then take n is.rest else []

-- The stream after `istream.read(_, n)`: falling short sets `eofbit` and `failbit`.
unfoldable pub after_read : ℕ → IStream → IStream
after_read n is =
    if is.is_good then record { rest = drop n is.rest; is_good = leb n (length is.rest) } else is

-- Memory that held `old` and that `got` was copied to the front of.
abbrev pub overlay : Bytes → Bytes → Bytes
overlay got old = got ++ drop (length got) old

-- What a `std::ostream` delegates to: `put` and `sync` say whether they succeeded.
pub record StreamBuffer (S : Type 0) : Type 0 where
  pub put : S → Bytes → S × Bool
  pub sync : S → S × Bool

pub record OStream (S : Type 0) : Type 0 where
  pub buffer : S
  pub is_good : Bool

module _ {S : Type 0} (sb : StreamBuffer S) where
  abbrev result_stream : S × Bool → OStream S
  result_stream (s, done) = record { buffer = s; is_good = done }

  -- `ostream.write`: a stream that is not good is left alone, and a failure makes it bad.
  unfoldable pub write : Bytes → OStream S → OStream S
  write bs os = if os.is_good then result_stream (sb.put os.buffer bs) else os

  -- `ostream.flush`
  unfoldable pub flush : OStream S → OStream S
  flush os = if os.is_good then result_stream (sb.sync os.buffer) else os

-- The buffer of a `std::ostringstream`, which takes all that is written.
abbrev pub string_buffer : StreamBuffer Bytes
string_buffer = record { put = λ s bs. (s ++ bs, true); sync = λ s. (s, true) }

abbrev pub ostringstream : OStream Bytes
ostringstream = record { buffer = []; is_good = true }
