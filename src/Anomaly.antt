-- ===== src/Anomaly.antt =====
-- Agent 1 (ai_guardrail/aerorisk/agents/agent1_anomaly): the four detectors and what combines them.
pub mod Velocity
pub mod Vwap
pub mod Agent
pub mod Embedding
pub mod Spoofing
pub mod WashTrade
