-- ===== src/Anakin.antt =====
-- internal/anakin: the credit ceiling, the price of a call, the cached fetch and its retries.
pub mod Budget
pub mod Costs
pub mod Fetch
pub mod Http
