-- ===== src/Chunking.antt =====
-- The text splitter (backend/src/rag_enterprise/chunking/splitter.py): spans of a document that become
-- its chunks.
pub mod Breaks
pub mod Split
pub mod Merge
pub mod Coalesce
pub mod Pieces
pub mod Service
mod Examples
