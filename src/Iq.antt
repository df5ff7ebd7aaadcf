-- ===== src/Iq.antt =====
-- python-processor/app/services/sdrangel/iq_pipeline.py: the IQ data plane.
pub mod Packet
pub mod Valid
pub mod Plane
pub mod Enqueue
pub mod Window
pub mod Threads
pub mod Accounting
pub mod Gaps
pub mod Lifecycle
pub mod Mock
mod Tests
