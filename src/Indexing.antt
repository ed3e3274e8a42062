-- ===== src/Indexing.antt =====
-- indexing/: the embedding of the chunks of a document version.
pub mod Enums
pub mod Models
pub mod Session
pub mod Repositories
pub mod Batches
pub mod Embedding
pub mod Service
pub mod Keeping
pub mod Generations
pub mod Coverage
pub mod Completion
pub mod Samples
mod Examples
pub mod Superseding
