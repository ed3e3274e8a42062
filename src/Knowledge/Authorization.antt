-- ===== src/Knowledge/Authorization.antt =====
-- knowledge/authorization.py as the handlers use it: which permission each command needs.
use rag_enterprise.Prelude.{String, ◌≡◌, false}
use rag_enterprise.Knowledge.Errors.{forbidden_error, fail}
use rag_enterprise.Knowledge.Session.{World, Tx, unit_of_work, ◌>>=◌, ◌>>◌}
use rag_enterprise.Knowledge.Commands.{
  RequestActor, has_permission, Command, create_knowledge_base, update_knowledge_base,
  publish_knowledge_base, archive_knowledge_base, restore_knowledge_base, delete_knowledge_base,
  create_folder, move_folder, delete_folder, create_document, initiate_upload, complete_upload,
  upload_document_version, archive_document, restore_document, delete_document, move_document,
  update_document_metadata,
}
use rag_enterprise.Knowledge.Handlers.Env.{Env, require_permission, deleting}
use rag_enterprise.Knowledge.Handlers.Dispatch.{handle}
use rag_enterprise.Knowledge.Handlers.Bases
use rag_enterprise.Knowledge.Handlers.Folders
use rag_enterprise.Knowledge.Handlers.Documents
use rag_enterprise.Knowledge.Handlers.Uploads

-- The actor of a command.
abbrev pub actor_of : Command → RequestActor
actor_of (create_knowledge_base c) = c.actor
actor_of (update_knowledge_base c) = c.actor
actor_of (publish_knowledge_base c) = c.actor
actor_of (archive_knowledge_base c) = c.actor
actor_of (restore_knowledge_base c) = c.actor
actor_of (delete_knowledge_base c) = c.actor
actor_of (create_folder c) = c.actor
actor_of (move_folder c) = c.actor
actor_of (delete_folder c) = c.actor
actor_of (create_document c) = c.actor
actor_of (initiate_upload c) = c.actor
actor_of (complete_upload c) = c.actor
actor_of (upload_document_version c) = c.actor
actor_of (archive_document c) = c.actor
actor_of (restore_document c) = c.actor
actor_of (delete_document c) = c.actor
actor_of (move_document c) = c.actor
actor_of (update_document_metadata c) = c.actor

-- The permission that is asked for each command. It is the one that
-- specs/001-knowledge-management/API.md names, but for the uploads: there the API takes
-- `document:update` as well.
abbrev pub needed : Command → String
needed (create_knowledge_base c) = "workspace:knowledge_base:create"
needed (update_knowledge_base c) = "knowledge_base:manage"
needed (publish_knowledge_base c) = "knowledge_base:manage"
needed (archive_knowledge_base c) = "knowledge_base:manage"
needed (restore_knowledge_base c) = "knowledge_base:manage"
needed (delete_knowledge_base c) = "knowledge_base:manage"
needed (create_folder c) = "folder:manage"
needed (move_folder c) = "folder:manage"
needed (delete_folder c) = "folder:manage"
needed (create_document c) = "document:create"
needed (initiate_upload c) = "document:create"
needed (complete_upload c) = "document:create"
needed (upload_document_version c) = "document:update"
needed (archive_document c) = "document:update"
needed (restore_document c) = "document:update"
needed (delete_document c) = "document:delete"
needed (move_document c) = "document:update"
needed (update_document_metadata c) = "document:update"

denied_transaction :
    {A : Type 0} (actor : RequestActor) (p : String) (rest : Tx A) (w : World)
    → has_permission actor p ≡ false
    → unit_of_work (require_permission actor p >> rest) w ≡ (fail forbidden_error, w)
unfolding unit_of_work ◌>>=◌ require_permission
denied_transaction actor p rest w denied = rw denied

-- A command whose actor lacks the permission that is asked for it fails with the error
-- `forbidden`, and changes neither the database nor the file store.
pub handle-denied :
    (env : Env) (w : World) (c : Command)
    → has_permission (actor_of c) (needed c) ≡ false
    → handle env c w ≡ (fail forbidden_error, w)
unfolding handle deleting Bases.create_knowledge_base Bases.update_knowledge_base
    Bases.publish_knowledge_base Bases.archive_knowledge_base Bases.restore_knowledge_base
    Bases.delete_knowledge_base Folders.create_folder Folders.move_folder Folders.delete_folder
    Documents.create_document Uploads.initiate_upload Uploads.complete_upload
    Uploads.upload_document_version Documents.archive_document Documents.restore_document
    Documents.delete_document Documents.move_document Documents.update_document_metadata
handle-denied env w (create_knowledge_base c) h = rw (denied_transaction c.actor _ _ w h)
handle-denied env w c h = rw (denied_transaction (actor_of c) _ _ w h)
