-- ===== src/Copilot.antt =====
-- The operator copilot (backend/ai_copilot/application).
pub mod Values
pub mod Policy
pub mod Guards
pub mod State
pub mod Nodes
pub mod Execute
pub mod Graph
