-- ===== src/Anomaly.antt =====
-- services/anomaly: the runs and cooldowns of the spectrum detector, and its online pipeline.
pub mod Groups
pub mod Runs
pub mod Cooldown
pub mod Pipeline
pub mod Accounting
pub mod Schedule
mod Tests
