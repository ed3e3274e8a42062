-- ===== src/Knowledge/Handlers/Documents.antt =====
-- The handlers of documents.
use rag_enterprise.Prelude.{
  ℕ, ◌+◌, Bool, not, ◌||◌, Option, none, some, List, [], ◌++◌, or_else, if◌then◌else◌,
}
use rag_enterprise.Prelude.Text.{Str, str_eq, strip}
use rag_enterprise.Knowledge.Enums.{
  DocumentStatus, is_draft_document, is_active_document, is_archived_document, is_deleted_document,
}
use rag_enterprise.Knowledge.Models.{KnowledgeBase, Document, StorageKey}
use rag_enterprise.Knowledge.Errors.{ApplicationError, conflict, not_found}
use rag_enterprise.Knowledge.Session.{
  Tx, pure, query, required, execute, reject_if, commit, ◌>>=◌, ◌>>◌,
}
use rag_enterprise.Knowledge.Repositories.Scope.{TenantScope}
use rag_enterprise.Knowledge.Repositories.Bases as Kbs
use rag_enterprise.Knowledge.Repositories.Folders as Rows
use rag_enterprise.Knowledge.Repositories.Documents as Repo
use rag_enterprise.Knowledge.Repositories.Versions
use rag_enterprise.Knowledge.Repositories.Uploads
use rag_enterprise.Knowledge.Repositories.Indexed
use rag_enterprise.Knowledge.Commands.{
  CreateDocumentCommand, MoveDocumentCommand, DocumentCommand, UpdateDocumentMetadataCommand,
}
use rag_enterprise.Knowledge.Handlers.Env.{Env, scope_of, require_permission, require_active}
use rag_enterprise.Knowledge.Handlers.Bases.{stale}
use rag_enterprise.Knowledge.Handlers.Folders.{require_available, lower_count}

-- `if folder_id is not None:` the folder is in scope and active, or the handler fails with `e`.
unfoldable pub check_folder : ApplicationError → TenantScope → ℕ → Option ℕ → Tx Unit
check_folder e scope kb none = pure tt
check_folder e scope kb (some id) = do
  found ← query (Rows.get_scoped scope kb id)
  require_active e found
  pure tt

-- `command.declared_language or kb.default_language`
unfoldable pub language_or : Option Str → Str → Str
language_or none default = default
language_or (some l) default = if str_eq l [] then default else l

unfoldable pub new_document : Env → CreateDocumentCommand → KnowledgeBase → Document
new_document env c kb = record {
  id = env.new_id;
  organization_id = c.actor.organization_id;
  workspace_id = c.workspace_id;
  knowledge_base_id = c.knowledge_base_id;
  deleted_at = none;
  created_by_user_id = some c.actor.user_id;
  updated_by_user_id = some c.actor.user_id;
  row_version = 1;
  folder_id = c.folder_id;
  title = strip c.title;
  status = DocumentStatus.draft;
  source_type = c.source_type;
  declared_language = language_or c.declared_language kb.default_language;
  classification_label = c.classification_label;
  current_version_id = none;
  tags = c.tags;
  metadata_json = c.metadata;
  owner_user_id = some c.actor.user_id;
  legal_hold = Bool.false;
  archived_at = none;
}

unfoldable pub create_document : Env → CreateDocumentCommand → Tx Document
create_document env c = do
  require_permission c.actor "document:create"
  found ← query (Kbs.get_scoped (scope_of c.scoped) c.knowledge_base_id)
  kb ← require_available found
  check_folder (not_found "Folder") (scope_of c.scoped) c.knowledge_base_id c.folder_id
  let document = new_document env c kb
  execute (Repo.add document)
  execute (Kbs.save (record kb { document_count = kb.document_count + 1 }))
  commit
  pure document

unfoldable pub archived_document : (now user : ℕ) → Document → Document
archived_document now user d = record d {
  status = DocumentStatus.archived;
  archived_at = some now;
  updated_by_user_id = some user;
  row_version = d.row_version + 1;
}

unfoldable pub archive_document : Env → DocumentCommand → Tx Document
archive_document env c = do
  require_permission c.actor "document:update"
  found ← query (Repo.get_scoped (scope_of c.scoped) c.knowledge_base_id c.document_id)
  document ← required (not_found "Document") found
  if is_archived_document document.status then pure document else do
    let archived = archived_document env.now c.actor.user_id document
    execute (Repo.save archived)
    commit
    pure archived

unfoldable pub restored_document : ℕ → Document → Document
restored_document user d = record d {
  status = DocumentStatus.active;
  archived_at = none;
  updated_by_user_id = some user;
  row_version = d.row_version + 1;
}

unfoldable pub restore_document : DocumentCommand → Tx Document
restore_document c = do
  require_permission c.actor "document:update"
  found ← query (Repo.get_scoped (scope_of c.scoped) c.knowledge_base_id c.document_id)
  document ← required (not_found "Document") found
  reject_if (not (is_archived_document document.status)) (conflict "Document is not archived")
  check_folder (conflict "Restore parent folder first") (scope_of c.scoped) c.knowledge_base_id
      document.folder_id
  let restored = restored_document c.actor.user_id document
  execute (Repo.save restored)
  commit
  pure restored

-- The unit of work of DeleteDocumentHandler; it returns the keys of the objects to delete.
unfoldable pub delete_document : DocumentCommand → Tx (List StorageKey)
delete_document c = do
  require_permission c.actor "document:delete"
  found ← query (Repo.get_scoped (scope_of c.scoped) c.knowledge_base_id c.document_id)
  document ← required (not_found "Document") found
  reject_if document.legal_hold (conflict "Document is under legal hold")
  version_keys ← query (Versions.list_storage_keys_for_document document.id)
  staging_keys ← query (Uploads.list_staging_keys_for_document document.id)
  execute (Indexed.delete_embeddings_of_document document.id)
  execute (Indexed.delete_chunks_of_document document.id)
  execute (Versions.delete_all_for_document document.id)
  execute (Uploads.delete_all_for_document document.id)
  kb ← query (Kbs.get_scoped (scope_of c.scoped) c.knowledge_base_id)
  lower_count 1 kb
  execute (Repo.remove document)
  commit
  pure (version_keys ++ staging_keys)

-- `document is None or document.status not in {DRAFT, ACTIVE}`, as a failure.
unfoldable pub require_movable : Option Document → Tx Document
require_movable found = do
  document ← required (conflict "Document is not movable") found
  reject_if (not (is_draft_document document.status || is_active_document document.status))
      (conflict "Document is not movable")
  pure document

unfoldable pub moved_document : MoveDocumentCommand → Document → Document
moved_document c d = record d {
  folder_id = c.target_folder_id;
  updated_by_user_id = some c.actor.user_id;
  row_version = d.row_version + 1;
}

unfoldable pub move_document : MoveDocumentCommand → Tx Document
move_document c = do
  require_permission c.actor "document:update"
  found ← query (Repo.get_scoped (scope_of c.scoped) c.knowledge_base_id c.document_id)
  document ← require_movable found
  check_folder (not_found "Target folder") (scope_of c.scoped) c.knowledge_base_id
      c.target_folder_id
  let moved = moved_document c document
  execute (Repo.save moved)
  commit
  pure moved

unfoldable pub with_metadata : UpdateDocumentMetadataCommand → Document → Document
with_metadata c d = record d {
  title = elim c.title [ none ↦ d.title | some t ↦ strip t ];
  declared_language = or_else c.declared_language d.declared_language;
  classification_label = or_else c.classification_label d.classification_label;
  tags = or_else c.tags d.tags;
  metadata_json = or_else c.metadata d.metadata_json;
  updated_by_user_id = some c.actor.user_id;
  row_version = d.row_version + 1;
}

unfoldable pub update_document_metadata : UpdateDocumentMetadataCommand → Tx Document
update_document_metadata c = do
  require_permission c.actor "document:update"
  found ← query (Repo.get_scoped (scope_of c.scoped) c.knowledge_base_id c.document_id)
  document ← required (not_found "Document") found
  reject_if (is_archived_document document.status || is_deleted_document document.status)
      (conflict "Document is not mutable")
  reject_if (stale c.expected_version document.row_version) (conflict "Version conflict")
  let changed = with_metadata c document
  execute (Repo.save changed)
  commit
  pure changed
