-- ===== src/Registry.antt =====
-- The global tracer: `TracerRegistry` of src/tracer.cpp and the static methods of `Tracer`. The
-- mutex makes each method one step. `T` is what a `std::shared_ptr<Tracer>` points to.
use opentracing_cpp.Base.{Bool, true, false, List, [], ◌∷◌, ◌++◌, ◌≡◌, refl, ap}

pub record TracerRegistry (T : Type 0) : Type 0 where
  pub is_registered : Bool
  pub tracer : T

module _ {T : Type 0} where
  -- The initial values of the static members; the tracer is what `MakeNoopTracer` returns.
  unfoldable pub initial_registry : T → TracerRegistry T
  initial_registry noop = record { is_registered = false; tracer = noop }

  -- `RegisterTracer`: after the swap the argument holds the former tracer, which is returned.
  unfoldable pub register_tracer : T → TracerRegistry T → TracerRegistry T × T
  register_tracer tracer registry =
      (record { is_registered = true; tracer = tracer }, registry.tracer)

  -- `Tracer::InitGlobal`
  unfoldable pub init_global : T → TracerRegistry T → TracerRegistry T × T
  unfolding register_tracer
  init_global tracer registry = register_tracer tracer registry

  -- `Tracer::Global`
  unfoldable pub global : TracerRegistry T → T
  global registry = registry.tracer

  -- `Tracer::IsGlobalTracerRegistered`
  unfoldable pub is_global_tracer_registered : TracerRegistry T → Bool
  is_global_tracer_registered registry = registry.is_registered

  -- One `InitGlobal` after another, with what each returns.
  unfoldable pub init_all : List T → TracerRegistry T → TracerRegistry T × List T
  init_all [] registry = (registry, [])
  init_all (t ∷ tracers) registry =
      let (registry', former) = init_global t registry in
      let (last, rest) = init_all tracers registry' in (last, former ∷ rest)

  abbrev pub is_nonempty : List T → Bool
  is_nonempty [] = false
  is_nonempty (t ∷ tracers) = true

  -- Each registration returns the tracer that was global before it, and the last one stays: what
  -- the calls return, followed by the global tracer, is the first global tracer followed by those
  -- that were registered.
  pub global-init_all :
      (tracers : List T) (registry : TracerRegistry T)
      → (init_all tracers registry).1 ++ global (init_all tracers registry).0 ∷ []
        ≡ global registry ∷ tracers
  unfolding init_all init_global global
  global-init_all [] registry = refl
  global-init_all (t ∷ tracers) registry =
      ap (λ (r : List T). registry.tracer ∷ r)
        (global-init_all tracers (record { is_registered = true; tracer = t }))

  -- A tracer counts as registered from the first call of `InitGlobal` on, and not before.
  is_global_tracer_registered-init_all :
      (tracers : List T) (noop : T)
      → is_global_tracer_registered (init_all tracers (initial_registry noop)).0
        ≡ is_nonempty tracers
  unfolding init_all init_global is_global_tracer_registered initial_registry
  is_global_tracer_registered-init_all [] noop = refl
  is_global_tracer_registered-init_all (t ∷ tracers) noop = stays tracers t
    where
      stays :
          (ts : List T) (u : T)
          → (init_all ts (record { is_registered = true; tracer = u })).0.is_registered ≡ true
      stays [] u = refl
      stays (v ∷ ts) u = stays ts v
