-- ===== src/Stats.antt =====
-- internal/stats: the arithmetic behind alerting, and the time buckets.
pub mod Buckets
pub mod Moments
