-- ===== src/Examples/Serving.antt =====
-- The theorem on what the endpoint tells the metrics at a concrete pipeline.
use aero_risk_ai.Base.{ℕ, ◌+◌, ◌==◌, if◌then◌else◌, String, Bool, true, false, []}
use aero_risk_ai.Base.Outcome.{ok, err, runtime}
use aero_risk_ai.Observability.{Observability, Tracing}
use aero_risk_ai.Observability.Registry.{AllDeclared}
use aero_risk_ai.Service.{Backend, Globals, process_event_direct}
use aero_risk_ai.Service.Declared.{process_event_direct-AllDeclared}
use aero_risk_ai.Examples.Fixed.{Fixed, units, fixed_float}

-- The world counts the events, and the third one fails.
abbrev backend : Backend ℕ String String Bool
backend = record {
  transaction_event = λ text. ok text;
  process_event = λ event w. if w == 2 then (err (runtime "down"), 3) else (ok true, w + 1);
  decision_type = λ result. ok "ALLOW";
  is_confident = λ result. ok result;
  answer = λ result. ok "done";
  show = λ e. "error";
  is_running = λ w. ok true;
  ping_redis = λ w. (ok tt, w);
  get_collections = λ w. (ok tt, w);
  get_postgres_client = λ w. (ok tt, w);
}

abbrev tracing : Tracing ℕ Fixed
tracing = record {
  now = λ w. units w;
  set_provider = λ w. (ok tt, w);
  add_exporter = λ endpoint w. (ok tt, w);
  get_tracer = λ w. (ok tt, w);
  instrument_http = λ w. (ok tt, w);
  instrument_redis = λ w. (err (runtime "no redis"), w);
  instrument_postgres = λ w. (ok tt, w);
  otel_exporter_endpoint = "http://localhost:4317";
  error_type = λ e. "RuntimeError";
}

abbrev fresh : Observability Fixed
fresh = record {
  initialized = false;
  metrics = record { increments = []; observations = []; gauges = [] };
}

abbrev running : Globals
running = record { pipeline = true; consumer = true }

process_event_direct-AllDeclared_example :
    AllDeclared ((process_event_direct backend tracing running "order" (2, fresh)).1.1.metrics)
process_event_direct-AllDeclared_example =
    process_event_direct-AllDeclared backend tracing running "order" (2, fresh) (tt, tt, tt)
