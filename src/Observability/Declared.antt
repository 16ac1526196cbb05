-- ===== src/Observability/Declared.antt =====
-- ai_guardrail/aerorisk/observability/metrics.py: what timed_agent tells the metrics.
use aero_risk_ai.Base.{◌≡◌, refl, sym, String, true, Option, some, [], ◌∷◌, Bool-cases, inl, inr}
use mathlib.Core.Path.{subst}
use aero_risk_ai.Base.Dict.{Dict}
use aero_risk_ai.Base.Lists.{All-append}
use aero_risk_ai.Base.Outcome.{Outcome, ok, err}
use aero_risk_ai.Base.Exec.{Exec, continue}
use aero_risk_ai.Base.Float.{Float}
use aero_risk_ai.Observability.{
  Series, Observability, Tracing, State, labels_of, agent_labels, increment_counter,
  record_metric_latency, marked, counted, timed, initialize, get_observability, timed_agent,
}
use aero_risk_ai.Observability.Registry.{counter, histogram, registry, is_declared, AllDeclared}

module _ {F : Type 0} ⦃fl : Float F⦄ where
  pub increment_counter-AllDeclared :
      (name : String) (labels : Option (Dict String)) (o : Observability F)
      → is_declared {F = F} registry counter (name, labels_of labels) ≡ true
      → AllDeclared (o.metrics)
      → AllDeclared ((increment_counter name labels o).metrics)
  unfolding increment_counter
  increment_counter-AllDeclared name labels o h (i, s, g) = (
    All-append (λ (x : Series). is_declared {F = F} registry counter x ≡ true)
        (o.metrics.increments) ((name, labels_of labels) ∷ []) i (h, tt),
    s,
    g,
  )

module _ {W F : Type 0} ⦃fl : Float F⦄ (t : Tracing W F) where
  pub record_metric_latency-AllDeclared :
      (name : String) (start : F) (labels : Option (Dict String)) (w : W) (o : Observability F)
      → is_declared {F = F} registry histogram (name, labels_of labels) ≡ true
      → AllDeclared (o.metrics)
      → AllDeclared ((record_metric_latency t name start labels w o).metrics)
  unfolding record_metric_latency
  record_metric_latency-AllDeclared name start labels w o h (i, s, g) = (
    i,
    All-append (λ (x : Series × F). is_declared {F = F} registry histogram (x.0) ≡ true)
        (o.metrics.observations) (((name, labels_of labels), _) ∷ []) s (h, tt),
    g,
  )

  -- The set-up tells the metrics nothing.
  marked-metrics :
      (r : Outcome (Unit {0})) (w : W) (o : Observability F)
      → (marked t (r, w) o).1.1.metrics ≡ o.metrics
  marked-metrics (ok u) w o = refl
  marked-metrics (err e) w o = refl

  pub get_observability-metrics :
      (w : W) (o : Observability F) → (get_observability t (w, o)).1.1.metrics ≡ o.metrics
  unfolding get_observability initialize
  get_observability-metrics w o = elim (Bool-cases (o.initialized)) [
    | inl done ↦ rw done refl
    | inr fresh ↦ rw fresh (marked-metrics _ _ _)
  ]

  pub get_observability-AllDeclared :
      (w : W) (o : Observability F)
      → AllDeclared (o.metrics)
      → AllDeclared ((get_observability t (w, o)).1.1.metrics)
  get_observability-AllDeclared w o h = subst AllDeclared (sym (get_observability-metrics w o)) h

  module _ {A : Type 0} (agent : String) where
    counted-AllDeclared :
        (r : Outcome A) (o : Observability F)
        → AllDeclared (o.metrics)
        → AllDeclared ((counted t agent r o).metrics)
    counted-AllDeclared (ok a) o h =
        increment_counter-AllDeclared "aerorisk_agent_executions_total"
          (agent_labels t agent "success") o refl h
    counted-AllDeclared (err e) o h =
        increment_counter-AllDeclared "aerorisk_errors_total" _ _ refl (
          increment_counter-AllDeclared "aerorisk_agent_executions_total"
            (agent_labels t agent "error") o refl h)

    timed-AllDeclared :
        (func : Exec W A) (ready : Outcome (Unit {0})) (s : State t)
        → AllDeclared (s.1.metrics)
        → AllDeclared ((continue ready (timed t agent func) s).1.1.metrics)
    timed-AllDeclared func (err e) s h = h
    timed-AllDeclared func (ok u) (w, o) h =
        let (r, v) = func w in
        record_metric_latency-AllDeclared "aerorisk_agent_latency_seconds" (t.now w)
          (some (("agent_name", agent) ∷ [])) v (counted t agent r o) refl
          (counted-AllDeclared r o h)

    -- Whatever an agent returns or raises, the wrapper tells the client only of metrics that are
    -- declared, with exactly their labels.
    pub timed_agent-AllDeclared :
        (func : Exec W A) (w : W) (o : Observability F)
        → AllDeclared (o.metrics)
        → AllDeclared ((timed_agent t agent func (w, o)).1.1.metrics)
    unfolding timed_agent
    timed_agent-AllDeclared func w o h =
        timed-AllDeclared func ((get_observability t (w, o)).0) ((get_observability t (w, o)).1)
          (get_observability-AllDeclared w o h)
