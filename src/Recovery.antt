-- ===== src/Recovery.antt =====
-- The account recovery workflow of backend/ai_copilot/application/account_recovery.
pub mod State
pub mod Nodes
pub mod Graph
