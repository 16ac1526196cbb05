-- ===== src/Service/Declared.antt =====
-- ai_guardrail/aerorisk/main.py: what the endpoints tell the metrics.
use aero_risk_ai.Base.{refl, some, [], ◌∷◌, Bool-cases, inl, inr}
use aero_risk_ai.Base.Outcome.{Outcome, ok, err, Error}
use aero_risk_ai.Base.Exec.{Keeps, Keeps-bind, lift, outside}
use aero_risk_ai.Base.Float.{Float}
use aero_risk_ai.Observability.{Tracing, State, get_observability}
use aero_risk_ai.Observability.Registry.{AllDeclared}
use aero_risk_ai.Observability.Declared.{
  increment_counter-AllDeclared, get_observability-AllDeclared,
}
use aero_risk_ai.Service.{
  Backend, Globals, Answer, risk_level, count_processed, process_body, report_failure, handled,
  process_event_direct,
}

module _ {W V E R F : Type 0} ⦃fl : Float F⦄ (b : Backend W V E R) (t : Tracing W F) where
  abbrev Declared : State t → Type 0
  Declared s = AllDeclared (s.1.metrics)

  count_processed-Declared : (result : R) → Keeps Declared (count_processed b t result)
  unfolding count_processed
  count_processed-Declared result =
      Keeps-bind Declared (get_observability t) _
        (λ s h. get_observability-AllDeclared t (s.0) (s.1) h)
        (λ u.
          Keeps-bind Declared (lift (b.decision_type result)) _ (λ s h. h)
            (λ kind.
              Keeps-bind Declared (lift (b.is_confident result)) _ (λ s h. h)
                (λ confident s h.
                  increment_counter-AllDeclared "aerorisk_transactions_processed_total"
                    (some (("decision_type", kind) ∷ ("risk_level", risk_level b t confident) ∷ []))
                    (s.1) refl h)))

  process_body-Declared : (event : V) → Keeps Declared (process_body b t event)
  unfolding process_body
  process_body-Declared event =
      Keeps-bind Declared (lift (b.transaction_event event)) _ (λ s h. h)
        (λ transaction.
          Keeps-bind Declared (outside (b.process_event transaction)) _ (λ s h. h)
            (λ result.
              Keeps-bind Declared (count_processed b t result) _ (count_processed-Declared result)
                (λ u. Keeps-bind Declared (lift (b.answer result)) _ (λ s h. h) (λ shown s h. h))))

  report_failure-Declared : (e : Error) → Keeps Declared (report_failure b t e)
  unfolding report_failure
  report_failure-Declared e =
      Keeps-bind Declared (get_observability t) _
        (λ s h. get_observability-AllDeclared t (s.0) (s.1) h)
        (λ u s h.
          increment_counter-AllDeclared "aerorisk_errors_total"
            (some (("error_type", t.error_type e) ∷ ("component", "api.process_event") ∷ [])) (s.1)
            refl h)

  handled-Declared :
      (r : Outcome (Answer V)) (s : State t) → Declared s → Declared ((handled b t (r, s)).1)
  handled-Declared (ok a) s h = h
  handled-Declared (err e) s h = report_failure-Declared e s h

  -- Whatever the pipeline answers or raises, the endpoint tells the client only of metrics that
  -- are declared, with exactly their labels, where it has been told of no others before.
  pub process_event_direct-AllDeclared :
      (g : Globals) (event : V) (s : State t)
      → AllDeclared (s.1.metrics)
      → AllDeclared ((process_event_direct b t g event s).1.1.metrics)
  unfolding process_event_direct
  process_event_direct-AllDeclared g event s h = elim (Bool-cases (g.pipeline)) [
    | inl up ↦ rw up (
        handled-Declared ((process_body b t event s).0) ((process_body b t event s).1)
          (process_body-Declared event s h))
    | inr down ↦ rw down h
  ]
