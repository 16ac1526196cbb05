-- ===== src/Models.antt =====
-- The pydantic models of ai_guardrail/aerorisk/models.
pub mod Event
pub mod Anomaly
pub mod Decision
pub mod Context
pub mod Incident
