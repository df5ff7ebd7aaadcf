-- ===== src/Rag.antt =====
-- rag.py: how a document is cut into chunks.
pub mod Chunk
pub mod Cover
mod Tests
