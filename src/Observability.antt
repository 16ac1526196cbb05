-- ===== src/Observability.antt =====
-- ai_guardrail/aerorisk/observability/metrics.py. What prometheus_client keeps of a metric is the
-- list of what it was told, and the set-up of OpenTelemetry is a record of operations on a state
-- `W`, which may raise.
pub mod Declared
pub mod Registry
pub mod Timed
pub mod Tracer
use aero_risk_ai.Base.{
  String, concat, Bool, true, false, Option, none, some, List, [], ◌∷◌, ◌++◌, str_eq, if◌then◌else◌,
}
use aero_risk_ai.Base.Dict.{Dict}
use aero_risk_ai.Base.Lists.{is_empty}
use aero_risk_ai.Base.Outcome.{Outcome, ok, err, Error}
use aero_risk_ai.Base.Exec.{Exec, pure, attempt, continue, outside, ◌>>=◌, ◌>>◌}
use aero_risk_ai.Base.Float.{Float}

-- A metric's name, and its labels.
abbrev pub Series : Type 0
Series = String × Dict String

pub record Metrics (F : Type 0) : Type 0 where
  pub increments : List Series
  pub observations : List (Series × F)
  pub gauges : List (Series × F)

-- ObservabilitySetup's `_initialized`, with the metrics.
pub record Observability (F : Type 0) : Type 0 where
  pub initialized : Bool
  pub metrics : Metrics F

pub record Tracing (W F : Type 0) : Type 0 where
  pub now : W → F
  -- The provider with its exporter, where there is an endpoint; both are made global.
  pub set_provider : Exec W (Unit {0})
  pub add_exporter : String → Exec W (Unit {0})
  pub get_tracer : Exec W (Unit {0})
  -- AioHttpClientInstrumentor, RedisInstrumentor and Psycopg2Instrumentor.
  pub instrument_http : Exec W (Unit {0})
  pub instrument_redis : Exec W (Unit {0})
  pub instrument_postgres : Exec W (Unit {0})
  pub otel_exporter_endpoint : String
  -- `type(e).__name__`
  pub error_type : Error → String

-- `if labels: metric.labels(**labels)`: None and no labels alike.
abbrev pub labels_of : Option (Dict String) → Dict String
labels_of none = []
labels_of (some labels) = labels

module _ {F : Type 0} where
  abbrev pub with_metrics : (Metrics F → Metrics F) → Observability F → Observability F
  with_metrics f o = record o { metrics = f o.metrics }

  unfoldable pub increment_counter :
      String → Option (Dict String) → Observability F → Observability F
  increment_counter counter labels =
      with_metrics (λ m. record m { increments = m.increments ++ (counter, labels_of labels) ∷ [] })

  pub set_gauge : String → F → Option (Dict String) → Observability F → Observability F
  set_gauge gauge value labels =
      with_metrics (λ m. record m { gauges = m.gauges ++ ((gauge, labels_of labels), value) ∷ [] })

module _ {W F : Type 0} ⦃fl : Float F⦄ (t : Tracing W F) where
  abbrev pub State : Type 0
  State = W × Observability F

  unfoldable pub record_metric_latency :
      String → F → Option (Dict String) → W → Observability F → Observability F
  record_metric_latency metric start labels w = with_metrics (λ m. record m {
    observations = m.observations ++ ((metric, labels_of labels), fl.sub (t.now w) start) ∷ [];
  })

  -- A library that cannot be instrumented is passed over.
  pub instrument_libraries : Exec W (Unit {0})
  instrument_libraries =
      attempt t.instrument_http tt
      >> (attempt t.instrument_redis tt >> attempt t.instrument_postgres tt)

  pub add_endpoint : Exec W (Unit {0})
  add_endpoint =
      if str_eq t.otel_exporter_endpoint ""
      then pure tt
      else t.add_exporter t.otel_exporter_endpoint

  abbrev pub marked : Outcome (Unit {0}) × W → Observability F → Outcome (Unit {0}) × State
  marked (ok u, w) o = (ok tt, (w, record o { initialized = true }))
  marked (err e, w) o = (err e, (w, o))

  pub initialize : Exec State (Unit {0})
  unfolding instrument_libraries add_endpoint
  initialize (w, o) =
      let once =
        marked ((add_endpoint >> (t.set_provider >> (t.get_tracer >> instrument_libraries))) w) o in
      if o.initialized then (ok tt, (w, o)) else once

  pub get_observability : Exec State (Unit {0})
  unfolding initialize
  get_observability (w, o) =
      let once = initialize (w, o) in if o.initialized then (ok tt, (w, o)) else once

  abbrev pub agent_labels : String → String → Option (Dict String)
  agent_labels agent status = some (("agent_name", agent) ∷ ("status", status) ∷ [])

  module _ {A : Type 0} where
    -- The counters of the `try`, by the outcome.
    abbrev pub counted : String → Outcome A → Observability F → Observability F
    counted agent (ok a) o =
        increment_counter "aerorisk_agent_executions_total" (agent_labels agent "success") o
    counted agent (err e) o =
        increment_counter "aerorisk_errors_total"
          (some (("error_type", t.error_type e) ∷ ("component", concat "agent." agent) ∷ []))
          (increment_counter "aerorisk_agent_executions_total" (agent_labels agent "error") o)

    -- `try`, `except` and `finally` of the wrapper.
    abbrev pub finished : String → F → Outcome A × W → Observability F → Outcome A × State
    finished agent start (r, w) o = (
      r,
      (
        w,
        record_metric_latency "aerorisk_agent_latency_seconds" start
            (some (("agent_name", agent) ∷ [])) w (counted agent r o),
      ),
    )

    abbrev pub timed : String → Exec W A → (Unit {0}) → Exec State A
    timed agent func u (w, o) = finished agent (t.now w) (func w) o

    pub timed_agent : String → Exec W A → Exec State A
    unfolding get_observability
    timed_agent agent func = get_observability >>= timed agent func

    abbrev pub measured : String → F → Outcome A → Outcome (Unit {0}) × State → Outcome A × State
    measured metric start r (ok u, (w, o)) = (r, (w, record_metric_latency metric start none w o))
    measured metric start r (err e, (w, o)) = (err e, (w, o))

    -- An exception of the set-up, in the `finally`, replaces the result.
    pub timed_operation : String → Exec W A → Exec State A
    unfolding get_observability
    timed_operation metric body (w, o) =
        let (r, w') = body w in measured metric (t.now w) r (get_observability (w', o))
