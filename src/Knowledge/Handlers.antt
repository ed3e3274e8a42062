-- ===== src/Knowledge/Handlers.antt =====
-- knowledge/handlers/command_handlers.py and application/commands/dispatcher.py.
pub mod Env
pub mod Bases
pub mod Folders
pub mod Documents
pub mod Uploads
pub mod Dispatch
