-- ===== src/Knowledge.antt =====
-- The knowledge service (backend/src/rag_enterprise/knowledge): knowledge bases, folders,
-- documents, their versions and uploads, over a relational store and a file store.
pub mod Enums
pub mod Models
pub mod Errors
pub mod Storage
pub mod Session
pub mod Repositories
pub mod Commands
pub mod Handlers
pub mod Atomicity
pub mod Authorization
pub mod LegalHold
pub mod Subtrees
pub mod Removal
pub mod LostUpdates
pub mod Uploading
pub mod Binding
pub mod VersionNumbers
pub mod Samples
mod Examples
