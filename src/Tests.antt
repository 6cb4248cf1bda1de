-- ===== src/Tests.antt =====
-- Each property at a concrete input, and the data that these inputs are made of.
pub mod Data
pub mod Anakin
pub mod Http
pub mod Sources
pub mod Runs
pub mod Agents
pub mod Clusters
pub mod Voice
pub mod Enricher
pub mod Replies
pub mod Router
pub mod Topics
pub mod Briefs
