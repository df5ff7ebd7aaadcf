-- ===== src/Baseline.antt =====
-- services/baseline.py: saved device baselines and the comparison of a session with them.
pub mod Table
pub mod Save
pub mod Places
pub mod Rows
pub mod History
pub mod Compare
pub mod Index
pub mod Items
pub mod Placed
pub mod Totals
pub mod Refused
mod Tests
