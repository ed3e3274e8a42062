-- ===== src/Retrieval.antt =====
-- retrieval/: what is searched.
pub mod Corpus
pub mod LexicalIndex
mod Examples
