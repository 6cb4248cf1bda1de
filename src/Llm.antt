-- ===== src/Llm.antt =====
-- internal/llm: the only path to a language model.
pub mod Usage
pub mod Prices
pub mod Router
pub mod Billing
pub mod Rates
