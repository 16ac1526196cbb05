-- ===== src/Observability/Registry.antt =====
-- ai_guardrail/aerorisk/observability/metrics.py: the metrics that are declared, less their help
-- texts, and what prometheus_client accepts of them.
use aero_risk_ai.Base.{◌≡◌, String, Bool, true, false, ◌&&◌, List, [], ◌∷◌, ◌++◌, map, str_eq}
use aero_risk_ai.Base.Lists.{All, any}
use aero_risk_ai.Base.Float.{Float}
use aero_risk_ai.Observability.{Series, Metrics}

pub data MetricKind : Type 0 where
  counter histogram gauge : MetricKind

abbrev pub same_kind : MetricKind → MetricKind → Bool
same_kind counter counter = true
same_kind histogram histogram = true
same_kind gauge gauge = true
same_kind _ _ = false

pub record Metric (F : Type 0) : Type 0 where
  pub kind : MetricKind
  pub name : String
  pub labelnames : List String
  pub buckets : List F

module _ {F : Type 0} ⦃fl : Float F⦄ where
  -- The bounds 0.001 to 0.1, which are shared.
  abbrev fine_buckets : List F
  fine_buckets =
      fl.lit 1 1000
      ∷ fl.lit 5 1000
      ∷ fl.lit 1 100
      ∷ fl.lit 25 1000
      ∷ fl.lit 5 100
      ∷ fl.lit 1 10
      ∷ []

  abbrev wide_buckets : List F
  wide_buckets = fl.lit 25 100 ∷ fl.lit 5 10 ∷ fl.lit 1 1 ∷ []

  abbrev slow_buckets : List F
  slow_buckets = fl.lit 25 10 ∷ fl.lit 5 1 ∷ []

  abbrev pub transactions_processed : Metric F
  transactions_processed = record {
    kind = counter;
    name = "aerorisk_transactions_processed_total";
    labelnames = "decision_type" ∷ "risk_level" ∷ [];
    buckets = [];
  }

  abbrev pub transaction_latency : Metric F
  transaction_latency = record {
    kind = histogram;
    name = "aerorisk_transaction_latency_seconds";
    labelnames = [];
    buckets = fine_buckets ++ wide_buckets ++ slow_buckets;
  }

  abbrev pub ai_pipeline_latency : Metric F
  ai_pipeline_latency = record {
    kind = histogram;
    name = "aerorisk_ai_pipeline_latency_seconds";
    labelnames = [];
    buckets =
        fl.lit 1 100 ∷ fl.lit 25 1000 ∷ fl.lit 5 100 ∷ fl.lit 1 10 ∷ wide_buckets ++ slow_buckets;
  }

  abbrev pub agent_execution_count : Metric F
  agent_execution_count = record {
    kind = counter;
    name = "aerorisk_agent_executions_total";
    labelnames = "agent_name" ∷ "status" ∷ [];
    buckets = [];
  }

  abbrev pub agent_latency : Metric F
  agent_latency = record {
    kind = histogram;
    name = "aerorisk_agent_latency_seconds";
    labelnames = "agent_name" ∷ [];
    buckets = fine_buckets ++ wide_buckets;
  }

  abbrev pub risk_score_gauge : Metric F
  risk_score_gauge = record {
    kind = gauge;
    name = "aerorisk_risk_score";
    labelnames = "account_id" ∷ [];
    buckets = [];
  }

  abbrev pub circuit_breaker_state : Metric F
  circuit_breaker_state = record {
    kind = gauge;
    name = "aerorisk_circuit_breaker_state";
    labelnames = "account_id" ∷ "breaker_type" ∷ [];
    buckets = [];
  }

  abbrev pub vector_search_latency : Metric F
  vector_search_latency = record {
    kind = histogram;
    name = "aerorisk_vector_search_latency_seconds";
    labelnames = [];
    buckets = fine_buckets;
  }

  abbrev pub vector_search_results : Metric F
  vector_search_results = record {
    kind = histogram;
    name = "aerorisk_vector_search_results_count";
    labelnames = [];
    buckets =
        fl.lit 1 1
        ∷ fl.lit 2 1
        ∷ fl.lit 5 1
        ∷ fl.lit 10 1
        ∷ fl.lit 20 1
        ∷ fl.lit 50 1
        ∷ fl.lit 100 1
        ∷ [];
  }

  abbrev pub errors_total : Metric F
  errors_total = record {
    kind = counter;
    name = "aerorisk_errors_total";
    labelnames = "error_type" ∷ "component" ∷ [];
    buckets = [];
  }

  abbrev pub sanctions_matches : Metric F
  sanctions_matches = record {
    kind = counter;
    name = "aerorisk_sanctions_matches_total";
    labelnames = [];
    buckets = [];
  }

  abbrev pub fraud_detected : Metric F
  fraud_detected = record {
    kind = counter;
    name = "aerorisk_fraud_detected_total";
    labelnames = "fraud_type" ∷ [];
    buckets = [];
  }

  abbrev pub registry : List (Metric F)
  registry =
      transactions_processed ∷ transaction_latency ∷ ai_pipeline_latency ∷ agent_execution_count
      ∷ agent_latency ∷ risk_score_gauge ∷ circuit_breaker_state ∷ vector_search_latency
      ∷ vector_search_results ∷ errors_total ∷ sanctions_matches ∷ fraud_detected ∷ []

abbrev same_texts : List String → List String → Bool
same_texts [] [] = true
same_texts (s ∷ ss) (t ∷ ts) = str_eq s t && same_texts ss ts
same_texts _ _ = false

-- A declared metric has the name, is of the kind, and has exactly these labels.
abbrev pub is_declared : {F : Type 0} → List (Metric F) → MetricKind → Series → Bool
is_declared metrics kind (name, labels) =
    any
      (λ (m : Metric _).
        same_kind m.kind kind
        && str_eq m.name name
        && same_texts m.labelnames (map (λ (l : String × String). l.0) labels))
      metrics

module _ {F : Type 0} ⦃fl : Float F⦄ where
  -- The client was told of no metric that is not declared, and of no other labels.
  abbrev pub AllDeclared : Metrics F → Type 0
  AllDeclared m =
      All (λ (s : Series). is_declared {F = F} registry counter s ≡ true) m.increments
      × All (λ (o : Series × F). is_declared {F = F} registry histogram (o.0) ≡ true) m.observations
      × All (λ (g : Series × F). is_declared {F = F} registry gauge (g.0) ≡ true) m.gauges
