-- ===== src/Ingest.antt =====
-- spectrum-ingest/app.py: frames from the RF agent, checked and fanned out to browsers.
pub mod Json
pub mod Fanout
pub mod Delivery
pub mod Frame
pub mod Accepted
pub mod State
pub mod Source
pub mod Audio
pub mod Clients
pub mod Messages
pub mod Hub
pub mod Packets
mod Tests
