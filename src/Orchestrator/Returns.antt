-- ===== src/Orchestrator/Returns.antt =====
-- ai_guardrail/aerorisk/agents/agent3_orchestrator/agent.py: an evaluation returns, whatever the LLM
-- and the circuit breaker do.
use aero_risk_ai.Base.{String, ◌≡◌, ◌⊎◌, List}
use aero_risk_ai.Base.Outcome.{Outcome, ok, err, Error}
use aero_risk_ai.Base.Exec.{Exec, outside, Holds, Leads, Ends}
use aero_risk_ai.Base.Float.{Float}
use aero_risk_ai.Scoring.{Signals}
use aero_risk_ai.Breaker.{Redis}
use aero_risk_ai.Orchestrator.Types.{Decision, Clients, Report}
use aero_risk_ai.Orchestrator.{World}

module _ {W R A : Type 0} where
  pub outside-Leads :
      (m : Exec W A) (w : W × R) → Leads m (w.0) (λ a v. Unit) → Leads (outside m) w (λ a v. Unit)
  outside-Leads m w h = go ((m (w.0)).0) h
    where
      go :
          (o : Outcome A)
          → Holds o ((m (w.0)).1) (λ a v. Unit)
          → Holds {W = W × R} o ((m (w.0)).1, w.1) (λ a v. Unit)
      go (ok a) h = tt
      go (err e) h = h

-- The clock and the database answer, and the prompt can be written. Nothing is asked of the LLM.
pub record Works {W F Event Context Flag Limits Dump : Type 0} ⦃fl : Float F⦄
    (c : Clients W F Event Context Flag Limits Dump) : Type 0 where
  pub now_ok : (w : W) → Leads c.now w (λ t v. Unit)
  pub insert_ok :
      (report : Report F Dump) (w : W) → Leads (c.insert_incident_report report) w (λ t v. Unit)
  pub prompt_ok :
      (event : Event) (context : Context) (flags : List Flag) (base : F)
      → (text : String) × (c.prompt event context flags base ≡ ok text)

-- RiskDecision or IncidentReport refuses its fields with the error.
abbrev pub Refuses :
    {W F Event Context Flag Limits Dump : Type 0}
    → Clients W F Event Context Flag Limits Dump
    → Error
    → Type 0
Refuses {F = F} {Limits = Limits} {Dump = Dump} c e =
    ((d : Decision F Limits) × (c.validate d ≡ err e))
    ⊎ ((report : Report F Dump) × (c.validate_report report ≡ err e))

module _ {W R F Event Context Profile Flag Limits Dump : Type 0} ⦃fl : Float F⦄
    (c : Clients W F Event Context Flag Limits Dump) (works : Works c)
    (s : Signals F Event Context Profile Flag) (redis : Redis R) where
  abbrev Stops : {A : Type 0} → Exec (World c s redis) A → World c s redis → Type 0
  Stops m w = Ends (Refuses c) m w (λ d v. Unit)
