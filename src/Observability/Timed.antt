-- ===== src/Observability/Timed.antt =====
-- ai_guardrail/aerorisk/observability/metrics.py: timed_agent.
use aero_risk_ai.Base.{◌+◌, ◌≡◌, refl, String, true}
use aero_risk_ai.Base.Outcome.{Outcome, ok, err}
use aero_risk_ai.Base.Exec.{Exec}
use aero_risk_ai.Base.Float.{Float}
use aero_risk_ai.Base.Lists.{length, length-append}
use aero_risk_ai.Observability.{
  Observability, Tracing, State, finished, record_metric_latency, increment_counter,
  get_observability, timed_agent,
}

module _ {W F : Type 0} ⦃fl : Float F⦄ (t : Tracing W F) where
  get_observability-ready :
      (w : W) (o : Observability F)
      → o.initialized ≡ true
      → get_observability t (w, o) ≡ (ok tt, (w, o))
  unfolding get_observability
  get_observability-ready w o h = simp h refl

module _ {W F : Type 0} ⦃fl : Float F⦄ (t : Tracing W F) {A : Type 0} where
  -- Once the set-up is done, the wrapper returns or raises what the agent does, leaves the agent's
  -- state, and observes one latency.
  abbrev pub IsTransparent : Outcome A × W → Observability F → Outcome A × State t → Type 0
  IsTransparent (r, w) o (r', (w', o')) =
      (r' ≡ r) × (w' ≡ w) × (length (o'.metrics.observations) ≡ length (o.metrics.observations) + 1)

  finished-IsTransparent :
      (agent : String) (start : F) (r : Outcome A) (w : W) (o : Observability F)
      → IsTransparent (r, w) o (finished t agent start (r, w) o)
  unfolding record_metric_latency increment_counter
  finished-IsTransparent agent start (ok a) w o =
      (refl, refl, length-append (o.metrics.observations) _)
  finished-IsTransparent agent start (err e) w o =
      (refl, refl, length-append (o.metrics.observations) _)

  pub timed_agent-IsTransparent :
      (agent : String) (func : Exec W A) (w : W) (o : Observability F)
      → o.initialized ≡ true
      → IsTransparent (func w) o (timed_agent t agent func (w, o))
  unfolding timed_agent
  timed_agent-IsTransparent agent func w o h =
      let (r, w') = func w in
      rw (get_observability-ready t w o h) (finished-IsTransparent agent (t.now w) r w' o)
