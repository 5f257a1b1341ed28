-- ===== src/Configuration/Factory.antt =====
-- `MakeTracer` of mocktracer/src/tracer_factory.cpp: which documents a tracer is made of.
use opentracing_cpp.Base.{true, false, some, ◌⊎◌, ◌≡◌, refl, [], ◌∷◌, ◌++◌, Bytes, inl, inr}
use opentracing_cpp.Error.{Expected, ok}
use opentracing_cpp.Heap.{Heap, Action, after_new, allocate, ◌>>◌}
use opentracing_cpp.Configuration.{
  tracer_of, make_mock_tracer, make_json_recorder, make_tracer, make_opened, make_parsed, handled,
  store, append, Parse, parsed, invalid, parse_configuration,
}
use opentracing_cpp.Json.Recorder.{Output, JsonRecorder}
use opentracing_cpp.Propagation.TextMap.{default_options}
use opentracing_cpp.Tracer.{MockTracer}
use opentracing_cpp.Configuration.Grammar.{Layout, IsBlank, document}
use opentracing_cpp.Configuration.Acceptance.{document-parse_configuration}

-- Code that has come to a tracer has been given what it asked for.
handled-allocate :
    {T : Type 0} (k : Action Bytes (Expected T)) (message : Bytes) (heap : Heap) (t : T)
    → (handled ((allocate >> k) message heap)).0 ≡ ok t
    → (handled (k message (after_new heap))).0 ≡ ok t
handled-allocate k message [] t made = made
handled-allocate k message (true ∷ heap) t made = made
handled-allocate k message (false ∷ heap) t made = absurd cc

-- Code that comes to no tracer.
abbrev NeverMakes : {T : Type 0} → Action Bytes (Expected T) → Type 0
NeverMakes {T} k = (message : Bytes) (heap : Heap) (t : T) → (handled (k message heap)).0 ≡ ok t → ⊥

store-NeverMakes :
    {T : Type 0} (text : Bytes) (k : Action Bytes (Expected T))
    → NeverMakes k
    → NeverMakes (store text >> k)
store-NeverMakes text k never message [] t made = never text [] t made
store-NeverMakes text k never message (true ∷ heap) t made = never text heap t made
store-NeverMakes text k never message (false ∷ heap) t made = absurd cc

append-NeverMakes :
    {T : Type 0} (text : Bytes) (k : Action Bytes (Expected T))
    → NeverMakes k
    → NeverMakes (append text >> k)
append-NeverMakes text k never message [] t made = never (message ++ text) [] t made
append-NeverMakes text k never message (true ∷ heap) t made = never (message ++ text) heap t made
append-NeverMakes text k never message (false ∷ heap) t made = absurd cc

-- A tracer with a recorder that has no spans and writes to this stream, and default options.
abbrev pub WritesTo : Output → MockTracer JsonRecorder → Type 0
WritesTo out t =
    (t.recorder ≡ some (record { out = some out; spans = [] }))
    × (t.propagation_options ≡ default_options)

tracer_of-WritesTo :
    (out : Output) (t : MockTracer JsonRecorder) → t ≡ tracer_of out → WritesTo out t
unfolding tracer_of make_mock_tracer make_json_recorder
tracer_of-WritesTo out t e = rw e (refl, refl)

module _ (open_file : Bytes → Output ⊎ Bytes) where
  -- The text is a document, its file is opened, and the tracer writes to that file.
  abbrev pub IsMadeFrom : Bytes → MockTracer JsonRecorder → Type 0
  IsMadeFrom text t =
      (l : Layout) × (filename : Bytes) × (out : Output) × IsBlank l
      × (text ≡ document l filename)
      × (open_file filename ≡ inl out)
      × WritesTo out t

  make_opened-IsMadeFrom :
      (l : Layout) (text filename message : Bytes) (o : Output ⊎ Bytes) (heap : Heap)
      (t : MockTracer JsonRecorder)
      → IsBlank l
      → text ≡ document l filename
      → open_file filename ≡ o
      → (handled (make_opened open_file filename o message heap)).0 ≡ ok t
      → IsMadeFrom text t
  make_opened-IsMadeFrom l text filename message (inl out) heap t blank split opened made =
      let m1 = handled-allocate _ message heap t made in
      let m2 = handled-allocate _ message (after_new heap) t m1 in
      let m3 = handled-allocate _ message (after_new (after_new heap)) t m2 in
      (l, filename, out, blank, split, opened, tracer_of-WritesTo out t cc)
  make_opened-IsMadeFrom l text filename message (inr reason) heap t blank split opened made =
      let fails : NeverMakes (make_opened open_file filename (inr reason)) = store-NeverMakes _ _ (
        append-NeverMakes _ _
          (append-NeverMakes _ _ (append-NeverMakes _ _ (λ m h r e. absurd cc)))) in
      absurd (fails message heap t made)

  make_parsed-IsMadeFrom :
      (p : Parse Bytes) (text message : Bytes) (heap : Heap) (t : MockTracer JsonRecorder)
      → parse_configuration text ≡ p
      → (handled (make_parsed open_file p message heap)).0 ≡ ok t
      → IsMadeFrom text t
  make_parsed-IsMadeFrom (parsed filename j) text message heap t e made =
      let (l, blank, plain, split) = document-parse_configuration text filename j e in
      make_opened-IsMadeFrom l text filename message (open_file filename) (after_new heap) t blank
        split refl (handled-allocate _ message heap t made)
  make_parsed-IsMadeFrom (invalid position reason) text message heap t e made =
      let fails : NeverMakes (make_parsed open_file (invalid position reason)) =
        store-NeverMakes _ _ (λ m h r e. absurd cc) in
      absurd (fails message heap t made)

  -- Whatever memory there is, the factory makes a tracer only of a document whose file is opened, and the
  -- tracer has a recorder without spans that writes to this file, and default options.
  pub make_tracer-IsMadeFrom :
      (text message : Bytes) (heap : Heap) (t : MockTracer JsonRecorder)
      → (make_tracer open_file (some text) message heap).0 ≡ ok t
      → IsMadeFrom text t
  unfolding make_tracer
  make_tracer-IsMadeFrom text message heap t made =
      make_parsed-IsMadeFrom (parse_configuration text) text message (after_new heap) t refl
        (handled-allocate _ message heap t made)
