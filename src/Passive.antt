-- ===== src/Passive.antt =====
-- services/anomaly/passive.py: what is unusual about a Wi-Fi or Bluetooth observation.
pub mod Rules
pub mod Wifi
pub mod Bluetooth
pub mod Repeated
pub mod Known
mod Tests
