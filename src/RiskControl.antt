-- ===== src/RiskControl.antt =====
-- The risk control workflow of backend/ai_copilot/application/risk_control.
pub mod State
pub mod Nodes
pub mod Levels
pub mod Graph
