-- ===== src/Json/Recorder.antt =====
-- mocktracer/src/json_recorder.cpp: a recorder that writes its spans when it is closed. The stream is
-- one whose writes succeed; it is the text that was written, the flag `std::hex`, and how much of the
-- text was flushed. Each method holds the mutex while it reads or changes the spans.
use opentracing_cpp.Base.{
  ℕ, ◌≡◌, refl, ap, ◌∙◌, List, [], ◌∷◌, ◌++◌, append_assoc, append-nil, Option, none, some, Bytes,
}
use opentracing_cpp.SpanData.{SpanData}
use opentracing_cpp.Recorder.{Recorder, record_all}
use opentracing_cpp.Json.Text.{Writer}
use opentracing_cpp.Json.{to_json}

pub record Output : Type 0 where
  pub writer : Writer
  pub flushed : Bytes

-- `none` is the null pointer.
pub record JsonRecorder : Type 0 where
  pub out : Option Output
  pub spans : List SpanData

-- `RecordSpan`: `left` says what the move leaves in the argument.
unfoldable pub json_record_span :
    (SpanData → SpanData) → SpanData → JsonRecorder → JsonRecorder × SpanData
json_record_span left span_data r =
    (record { out = r.out; spans = r.spans ++ span_data ∷ [] }, left span_data)

-- `ostream.flush`
abbrev flush_output : Writer → Output
flush_output w = record { writer = w; flushed = w.text }

module _ (print_double : ℕ → Bytes) where
  abbrev close_output : Option Output → List SpanData → JsonRecorder
  close_output none spans = record { out = none; spans = spans }
  close_output (some o) spans = record {
    out = some (flush_output (to_json print_double spans o.writer));
    spans = [];
  }

  -- `Close`
  unfoldable pub json_close : JsonRecorder → JsonRecorder
  json_close r = close_output r.out r.spans

  abbrev pub json_recorder : (SpanData → SpanData) → Recorder JsonRecorder
  json_recorder left = record { record_span = json_record_span left; close = json_close }

record_all-json :
    (print_double : ℕ → Bytes) (left : SpanData → SpanData) (spans : List SpanData)
    (r : JsonRecorder)
    → record_all (json_recorder print_double left) spans r
      ≡ record { out = r.out; spans = r.spans ++ spans }
unfolding record_all json_record_span
record_all-json print_double left [] r =
    ap (λ (s : List SpanData). record { out = r.out; spans = s }) (rw (append-nil r.spans) refl)
record_all-json print_double left (s ∷ spans) r =
    record_all-json print_double left spans (record { out = r.out; spans = r.spans ++ s ∷ [] })
    ∙ ap (λ (t : List SpanData). record { out = r.out; spans = t })
        (append_assoc r.spans (s ∷ []) spans)

-- The spans that were recorded since the last `Close` are written by the next one, in their order and
-- once: all text is flushed, and a further `Close` finds no span to write.
pub json_close-record_all :
    (print_double : ℕ → Bytes) (left : SpanData → SpanData) (spans : List SpanData) (o : Output)
    → json_close print_double
        (record_all (json_recorder print_double left) spans (record { out = some o; spans = [] }))
      ≡ record {
        out = some (record {
          writer = to_json print_double spans o.writer;
          flushed = (to_json print_double spans o.writer).text;
        });
        spans = [];
      }
unfolding json_close
json_close-record_all print_double left spans o =
    rw (record_all-json print_double left spans (record { out = some o; spans = [] })) refl
