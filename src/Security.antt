-- ===== src/Security.antt =====
-- security.py of the processor: the settings, and who may do what.
pub mod Settings
pub mod Authorize
pub mod Laws
mod Tests
