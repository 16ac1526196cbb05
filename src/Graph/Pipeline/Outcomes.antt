-- ===== src/Graph/Pipeline/Outcomes.antt =====
-- ai_guardrail/aerorisk/graph/pipeline.py: what the final state of an event is, whatever the agents
-- return or raise.
use aero_risk_ai.Base.{concat, ◌≡◌, ◌≢◌, ◌⊎◌, true, false, none, some, [], ◌∷◌}
use aero_risk_ai.Base.Outcome
use aero_risk_ai.Base.Outcome.{Outcome, ok, err, Error}
use aero_risk_ai.Base.Float.{Float}
use aero_risk_ai.Models.Decision.{allow, block}
use aero_risk_ai.Graph.Router.{high_risk}
use aero_risk_ai.Graph.Pipeline.{Services, State, route_after_anomaly, hit, needs_report}

module _ {W F Event Anomaly Context Rule Decision Report : Type 0} ⦃fl : Float F⦄
    (s : Services W F Event Anomaly Context Rule Decision Report) where
  -- The event stays, and no error is noted.
  abbrev pub Keeps : Event → State s → Type 0
  Keeps event state = (state.errors ≡ []) × (state.event ≡ some event)

  -- The high risk route skips the retrieval of a context.
  abbrev pub IsRouted : State s → Type 0
  IsRouted state = (route_after_anomaly s state ≢ high_risk) ⊎ (state.context_bundle ≡ none)

  -- A context with a sanctions hit is blocked, for a human to review.
  abbrev pub IsGuarded : State s → Type 0
  IsGuarded state =
      (hit s state.context_bundle ≡ false)
      ⊎ ((decision : Decision) × (state.risk_decision ≡ some decision)
          × (s.decision_type decision ≡ block)
          × (s.requires_human_review decision ≡ true))

  -- Where there is a decision, the processing is complete, the breaker is marked as the decision
  -- says, and there is a report exactly when one is needed.
  abbrev pub IsClosed : State s → Type 0
  IsClosed state =
      (state.risk_decision ≡ none)
      ⊎ ((decision : Decision) × (state.risk_decision ≡ some decision)
          × (state.processing_complete ≡ true)
          × (state.circuit_breaker_updated ≡ s.should_update_circuit_breaker decision)
          × (((needs_report s decision ≡ true)
                × (report : Report) × (state.incident_report ≡ some report))
              ⊎ ((needs_report s decision ≡ false) × (state.incident_report ≡ none))))

  -- Where a run failed, the call of the constructor that was to make the ALLOW decision.
  abbrev pub fallback_decision : Error → Outcome Decision
  fallback_decision e =
      s.risk_decision allow (fl.lit 0 1) (concat "Pipeline error - fail-open: " (s.text e)) true
        false true

  -- A run that failed left the event and an ALLOW decision for a human to review.
  abbrev pub IsFailed : Event → State s → Type 0
  IsFailed event state =
      (e : Error) × (state.errors ≡ s.text e ∷ [])
      × (state.event ≡ some event)
      × (state.processing_complete ≡ true)
      × (state.context_bundle ≡ none)
      × (decision : Decision) × (state.risk_decision ≡ some decision)
      × (fallback_decision e ≡ ok decision)
      × (s.decision_type decision ≡ allow)
      × (s.requires_human_review decision ≡ true)

  abbrev pub IsFinal : Event → State s → Type 0
  IsFinal event state = Keeps event state × IsRouted state × IsGuarded state × IsClosed state

  -- The processing raises nothing but what the constructor raised for the ALLOW decision.
  abbrev pub IsSettled : Event → Outcome (State s) → Type 0
  IsSettled event (ok state) = IsFinal event state ⊎ IsFailed event state
  IsSettled event (err refusal) = (e : Error) × (fallback_decision e ≡ err refusal)
