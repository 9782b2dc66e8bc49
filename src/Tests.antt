-- ===== src/Tests.antt =====
-- Runs of the models at concrete inputs, and the theorems at inputs that meet their hypotheses.
pub mod CopilotRuns
pub mod Breakers
pub mod Cooldowns
pub mod PostJobs
pub mod JobQueues
pub mod EngagementRuns
pub mod RateWindows
pub mod Recoveries
pub mod RiskControls
