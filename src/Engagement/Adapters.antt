-- ===== src/Engagement/Adapters.antt =====
-- The adapters behind the ports of the smart engagement workflow.
pub mod Risk
pub mod Context
pub mod Approvals
pub mod Executor
pub mod Laws
