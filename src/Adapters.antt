-- ===== src/Adapters.antt =====
-- internal/anakin/sources: the adapters, which turn what a source answers into mentions.
pub mod Mentions
pub mod Reddit
pub mod Kept
pub mod Stops
pub mod Search
pub mod Web
pub mod Pages
