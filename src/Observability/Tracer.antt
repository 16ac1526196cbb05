-- ===== src/Observability/Tracer.antt =====
-- ai_guardrail/aerorisk/observability/tracing.py. The classes of OpenTelemetry are a record of
-- operations on a state `W`, which may raise.
use aero_risk_ai.Base.{String, Option, none, some, str_eq, if◌then◌else◌}
use aero_risk_ai.Base.Outcome.{ok}
use aero_risk_ai.Base.Exec.{Exec, pure, attempt, outside, ◌>>=◌, ◌>>◌}

pub record OpenTelemetry (W P T : Type 0) : Type 0 where
  pub otel_exporter_endpoint : String
  -- TracerProvider of the service's resource.
  pub tracer_provider : Exec W P
  -- add_span_processor of a batch for an exporter to the endpoint, or to the console.
  pub add_otlp : P → String → Exec W (Unit {0})
  pub add_console : P → Exec W (Unit {0})
  pub set_tracer_provider : P → Exec W (Unit {0})
  pub get_tracer : Exec W T
  pub instrument_asyncio : Exec W (Unit {0})
  pub shutdown : P → Exec W (Unit {0})

-- TracingSetup
pub record TracingSetup (P T : Type 0) : Type 0 where
  pub tracer_provider : Option P
  pub tracer : Option T

module _ {W P T : Type 0} (otel : OpenTelemetry W P T) where
  abbrev pub State : Type 0
  State = W × TracingSetup P T

  pub add_exporter : P → Exec W (Unit {0})
  add_exporter p =
      if str_eq otel.otel_exporter_endpoint ""
      then otel.add_console p
      else otel.add_otlp p otel.otel_exporter_endpoint

  -- The assignments to `self`.
  abbrev pub keep_provider : P → Exec State P
  keep_provider p (w, s) = (ok p, (w, record s { tracer_provider = some p }))

  abbrev pub keep_tracer : T → Exec State T
  keep_tracer t (w, s) = (ok t, (w, record s { tracer = some t }))

  pub setup : Exec State T
  unfolding add_exporter
  setup = do
    p ← outside otel.tracer_provider
    keep_provider p
    outside (add_exporter p)
    outside (otel.set_tracer_provider p)
    t ← outside otel.get_tracer
    keep_tracer t
    outside (attempt otel.instrument_asyncio tt)
    pure t

  abbrev pub tracer_or : Option T → Exec State T
  tracer_or none = setup
  tracer_or (some t) = pure t

  pub get_tracer : Exec State T
  unfolding setup
  get_tracer (w, s) = tracer_or (s.tracer) (w, s)

  abbrev pub shutdown_of : Option P → Exec W (Unit {0})
  shutdown_of none = pure tt
  shutdown_of (some p) = otel.shutdown p

  pub shutdown_tracing : Exec State (Unit {0})
  shutdown_tracing (w, s) = outside (shutdown_of (s.tracer_provider)) (w, s)
