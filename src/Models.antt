-- ===== src/Models.antt =====
-- The value types that the components share: src/toss_trader/models.py.
pub mod Time
pub mod Signal
pub mod Candle
pub mod Plan
pub mod Accepted
mod Tests
