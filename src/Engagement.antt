-- ===== src/Engagement.antt =====
-- The smart engagement workflow of backend/ai_copilot/: its state and ports, its nodes, its graph with
-- the interrupt for approval, and the adapters behind its ports.
pub mod Goal
pub mod State
pub mod Nodes
pub mod Graph
pub mod Adapters
