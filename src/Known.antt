-- ===== src/Known.antt =====
-- services/known_signals/matching.py: whether a measured signal is a known one.
pub mod Match
pub mod Report
pub mod Laws
mod Tests
