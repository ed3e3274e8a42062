-- ===== src/Indexing/Repositories.antt =====
-- The repositories that the indexing service calls.
pub mod Chunks
pub mod Embeddings
pub mod Versions
