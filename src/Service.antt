-- ===== src/Service.antt =====
-- ai_guardrail/aerorisk/main.py: the endpoints and the life of the application. The pipeline, the
-- clients and the consumer are a record of operations on a state `W`, which may raise.
pub mod Declared
pub mod Ready
use aero_risk_ai.Base.{
  String, concat, Bool, true, false, not, ◌&&◌, Option, none, some, List, [], ◌∷◌, ◌++◌,
  if◌then◌else◌,
}
use aero_risk_ai.Base.Dict.{Dict}
use aero_risk_ai.Base.Outcome.{Outcome, ok, err, Error}
use aero_risk_ai.Base.Exec.{Exec, pure, lift, or_else, attempt, continue, outside, ◌>>=◌, ◌>>◌}
use aero_risk_ai.Base.Float.{Float}
use aero_risk_ai.Settings.{Settings}
use aero_risk_ai.Observability.{Observability, Tracing, State, get_observability, increment_counter}

pub record Backend (W V E R : Type 0) : Type 0 where
  -- `TransactionEvent(**event)`, a class that the models do not have.
  pub transaction_event : V → Outcome E
  pub process_event : E → Exec W R
  -- What is read of a result: the decision's type, whether its confidence is beyond 0.7, and the
  -- dictionary of the answer. A missing key or attribute raises.
  pub decision_type : R → Outcome String
  pub is_confident : R → Outcome Bool
  pub answer : R → Outcome V
  pub show : Error → String
  -- `consumer.is_running()`, a method that the consumer does not have.
  pub is_running : W → Outcome Bool
  pub ping_redis : Exec W (Unit {0})
  pub get_collections : Exec W (Unit {0})
  pub get_postgres_client : Exec W (Unit {0})

-- The globals `pipeline` and `consumer`, as far as they are set.
pub record Globals : Type 0 where
  pub pipeline : Bool
  pub consumer : Bool

pub data Answer (V : Type 0) : Type 0 where
  not_initialized : Answer V
  success : V → Answer V
  failure : String → Answer V

pub record Readiness : Type 0 where
  pub ready : Bool
  pub checks : Dict String

pub record PipelineStatus : Type 0 where
  pub pipeline_initialized : Bool
  pub consumer_running : Bool
  pub consumer_topic : String
  pub environment : String
  pub tracing_enabled : Bool
  pub metrics_enabled : Bool

pub record Health : Type 0 where
  pub status : String
  pub service : String
  pub version : String
  pub environment : String

pub health_check : {F : Type 0} → Settings F → Health
health_check settings = record {
  status = "healthy";
  service = settings.service_name;
  version = settings.service_version;
  environment = settings.environment;
}

module _ {W V E R F : Type 0} ⦃fl : Float F⦄ (b : Backend W V E R) (t : Tracing W F) where
  abbrev pub risk_level : Bool → String
  risk_level confident = if confident then "high" else "low"

  pub count_processed : R → Exec (State t) (Unit {0})
  count_processed result = do
    get_observability t
    kind ← lift (b.decision_type result)
    confident ← lift (b.is_confident result)
    λ s. (
      ok tt,
      (
        s.0,
        increment_counter "aerorisk_transactions_processed_total"
            (some (("decision_type", kind) ∷ ("risk_level", risk_level confident) ∷ [])) (s.1),
      ),
    )

  pub process_body : V → Exec (State t) (Answer V)
  unfolding count_processed
  process_body event = do
    transaction ← lift (b.transaction_event event)
    result ← outside (b.process_event transaction)
    count_processed result
    shown ← lift (b.answer result)
    pure (success shown)

  -- The `except`, whose own calls are not caught.
  pub report_failure : Error → Exec (State t) (Answer V)
  report_failure e = do
    get_observability t
    λ s. (
      ok (failure (b.show e)),
      (
        s.0,
        increment_counter "aerorisk_errors_total"
            (some (("error_type", t.error_type e) ∷ ("component", "api.process_event") ∷ [])) (s.1),
      ),
    )

  abbrev pub handled : Outcome (Answer V) × State t → Outcome (Answer V) × State t
  handled (ok a, s) = (ok a, s)
  handled (err e, s) = report_failure e s

  pub process_event_direct : Globals → V → Exec (State t) (Answer V)
  unfolding process_body report_failure
  process_event_direct g event s =
      let done = handled (process_body event s) in
      if g.pipeline then done else (ok not_initialized, s)

  -- A check in a `try`: its name, and what it adds.
  abbrev pub checked : String → Outcome (Unit {0}) → Readiness → Readiness
  checked name (ok u) r = record r { checks = r.checks ++ (name, "connected") ∷ [] }
  checked name (err e) r = record {
    ready = false;
    checks = r.checks ++ (name, concat "error: " (b.show e)) ∷ [];
  }

  pub kafka_check : Globals → W → Outcome Bool
  kafka_check g w = if g.consumer then b.is_running w else ok false

  abbrev pub with_kafka : Bool → Readiness
  with_kafka running = record {
    ready = running;
    checks = ("kafka", if running then "connected" else "disconnected") ∷ [];
  }

  abbrev pub with_clients : Outcome Bool → Exec W Readiness
  with_clients (err e) w = (err e, w)
  with_clients (ok running) w =
      let (redis, w1) = b.ping_redis w in
      let (qdrant, w2) = b.get_collections w1 in
      let (postgres, w3) = b.get_postgres_client w2 in
      (
        ok (
            checked "postgres" postgres
              (checked "qdrant" qdrant (checked "redis" redis (with_kafka running)))),
        w3,
      )

  pub readiness_check : Globals → Exec W Readiness
  unfolding kafka_check
  readiness_check g w = with_clients (kafka_check g w) w

  abbrev pub status_with : Settings F → Globals → Outcome Bool → Outcome PipelineStatus
  status_with settings g (err e) = err e
  status_with settings g (ok running) = ok (record {
    pipeline_initialized = g.pipeline;
    consumer_running = running;
    consumer_topic = settings.kafka.order_topic;
    environment = settings.environment;
    tracing_enabled = settings.tracing_enabled;
    metrics_enabled = settings.metrics_enabled;
  })

  pub pipeline_status : Settings F → Globals → Exec W PipelineStatus
  unfolding kafka_check
  pipeline_status settings g w = (status_with settings g (kafka_check g w), w)

pub record Lifecycle (W : Type 0) : Type 0 where
  pub tracing_enabled : Bool
  pub metrics_enabled : Bool
  pub init_tracing : Exec W (Unit {0})
  pub initialize : Exec W (Unit {0})
  pub create_pipeline : Exec W (Unit {0})
  -- `KafkaEventConsumer(...)`, with arguments that the class does not take.
  pub create_consumer : Exec W (Unit {0})
  -- The task that starts the consumer.
  pub create_task : Exec W (Unit {0})
  pub stop_consumer : Exec W (Unit {0})
  -- The task is cancelled and awaited; CancelledError is caught.
  pub cancel_task : Exec W (Unit {0})
  pub shutdown_tracing : Exec W (Unit {0})

module _ {W : Type 0} (l : Lifecycle W) where
  abbrev pub only_if : Bool → Exec W (Unit {0}) → Exec W (Unit {0})
  only_if test m = if test then m else pure tt

  -- `lifespan` up to its `yield`: an exception ends it, and the application does not start.
  pub startup : Exec W (Unit {0})
  startup =
      only_if l.tracing_enabled l.init_tracing
      >> (only_if l.metrics_enabled l.initialize
          >> (l.create_pipeline >> (l.create_consumer >> l.create_task)))

  -- `lifespan` from its `yield` on; the consumer is set.
  pub shutdown : Exec W (Unit {0})
  shutdown = l.stop_consumer >> (l.cancel_task >> only_if l.tracing_enabled l.shutdown_tracing)
