-- ===== src/Tests/Values.antt =====
-- Hosts and contexts that the tests share.
use opentracing_cpp.Base.{refl, true, false, [], ◌∷◌, codes, arith}
use opentracing_cpp.Memory.{Host}
use opentracing_cpp.SpanData.{SpanContextData}
use opentracing_cpp.Propagation.Reading.{Fits}
use opentracing_cpp.Dict.{before}

abbrev pub little_host : Host
little_host = record { big_endian = false; char_is_signed = true; can_resize = λ n. true }

abbrev pub big_host : Host
big_host = record { big_endian = true; char_is_signed = false; can_resize = λ n. true }

abbrev pub some_context : SpanContextData
some_context = record {
  trace_id = 258;
  span_id = 3;
  baggage = (codes "a", codes "1") ∷ (codes "b", []) ∷ [];
}

pub some_context-Fits : Fits big_host some_context
unfolding before
some_context-Fits = record {
  trace = omega arith;
  span = omega arith;
  few = omega arith;
  items = (
    ((omega arith, refl, (omega arith, tt)), (omega arith, refl, (omega arith, tt))),
    (((omega arith, refl, (omega arith, tt)), (omega arith, refl, tt)), tt),
  );
  sorted = ((refl, tt), (tt, tt));
}
