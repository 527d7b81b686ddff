-- ===== src/Semantic.antt =====
-- src/bob/semantic: what the index is made of.
pub mod Chunks
pub mod Embedder
