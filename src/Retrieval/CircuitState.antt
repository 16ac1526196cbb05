-- ===== src/Retrieval/CircuitState.antt =====
-- ai_guardrail/aerorisk/agents/agent2_rag/agent.py: get_circuit_breaker_state.
use aero_risk_ai.Base.{ℕ, String, Option, none, some}
use aero_risk_ai.Base.Exec.{Exec, pure, attempt, ◌>>=◌}

pub record CircuitState : Type 0 where
  pub status : String
  pub trigger_count : ℕ

abbrev pub closed_state : CircuitState
closed_state = record { status = "closed"; trigger_count = 0 }

-- `state or {...}`: None and empty data alike.
abbrev pub state_or_closed : Option CircuitState → CircuitState
state_or_closed none = closed_state
state_or_closed (some state) = state

-- The lookup of the storage client is an argument; an error reads as a closed circuit.
pub get_circuit_breaker_state :
    {W : Type 0} → (String → Exec W (Option CircuitState)) → String → Exec W CircuitState
get_circuit_breaker_state lookup symbol =
    attempt (do state ← lookup symbol; pure (state_or_closed state)) closed_state
