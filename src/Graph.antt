-- ===== src/Graph.antt =====
-- ai_guardrail/aerorisk/graph: the routing of a state, and the pipeline of the three agents.
pub mod Router
pub mod State
pub mod Pipeline
