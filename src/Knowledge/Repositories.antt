-- ===== src/Knowledge/Repositories.antt =====
-- knowledge/repositories: the statements on each table, over the session's view of the database.
pub mod Bases
pub mod Folders
pub mod Documents
pub mod Versions
pub mod Uploads
pub mod Indexed
pub mod Scope
