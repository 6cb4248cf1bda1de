-- ===== src/Orchestrator.antt =====
-- agents/bp-orchestrator: the pipeline of one brand and one trigger.
pub mod Sources
pub mod Env
pub mod Step
pub mod Collect
pub mod Analysis
pub mod Pipeline
