-- ===== src/Knowledge/Handlers/Bases.antt =====
-- The handlers of knowledge bases, and mappers.to_kb_detail.
use rag_enterprise.Prelude.{
  ℕ, ◌+◌, String, Bool, not, ◌||◌, Option, none, some, List, ◌++◌, ◌==◌, or_else, if◌then◌else◌,
}
use rag_enterprise.Prelude.Text.{Str, strip}
use rag_enterprise.Knowledge.Enums.{
  KnowledgeBaseStatus, VisibilityPolicy, is_draft_base, is_active_base, is_archived_base,
  is_deleted_base,
}
use rag_enterprise.Knowledge.Models.{KnowledgeBase, StorageKey}
use rag_enterprise.Knowledge.Errors.{conflict, not_found}
use rag_enterprise.Knowledge.Session.{
  Tx, pure, query, required, execute, reject_if, commit, ◌>>=◌, ◌>>◌,
}
use rag_enterprise.Knowledge.Repositories.Scope.{TenantScope}
use rag_enterprise.Knowledge.Repositories.Bases as Kbs
use rag_enterprise.Knowledge.Repositories.Folders
use rag_enterprise.Knowledge.Repositories.Documents
use rag_enterprise.Knowledge.Repositories.Versions
use rag_enterprise.Knowledge.Repositories.Uploads
use rag_enterprise.Knowledge.Repositories.Indexed
use rag_enterprise.Knowledge.Commands.{
  Scoped, CreateKnowledgeBaseCommand, UpdateKnowledgeBaseCommand,
}
use rag_enterprise.Knowledge.Handlers.Env.{Env, scope_of, require_permission}

pub record KnowledgeBaseDetail : Type 0 where
  pub id : ℕ
  pub name : Str
  pub status : KnowledgeBaseStatus
  pub default_language : Str
  pub visibility_policy : VisibilityPolicy
  pub document_count : ℕ
  pub description : Option String
  pub version : ℕ

unfoldable pub to_kb_detail : KnowledgeBase → KnowledgeBaseDetail
to_kb_detail kb = record {
  id = kb.id;
  name = kb.name;
  status = kb.status;
  default_language = kb.default_language;
  visibility_policy = kb.visibility_policy;
  document_count = kb.document_count;
  description = kb.description;
  version = kb.row_version;
}

unfoldable pub new_knowledge_base : Env → CreateKnowledgeBaseCommand → KnowledgeBase
new_knowledge_base env c = record {
  id = env.new_id;
  organization_id = c.actor.organization_id;
  workspace_id = c.workspace_id;
  deleted_at = none;
  created_by_user_id = some c.actor.user_id;
  updated_by_user_id = some c.actor.user_id;
  row_version = 1;
  name = strip c.name;
  description = c.description;
  status = KnowledgeBaseStatus.draft;
  default_language = c.default_language;
  visibility_policy = c.visibility_policy;
  document_count = 0;
  archived_at = none;
}

unfoldable pub create_knowledge_base : Env → CreateKnowledgeBaseCommand → Tx KnowledgeBaseDetail
create_knowledge_base env c = do
  require_permission c.actor "workspace:knowledge_base:create"
  let scope : TenantScope = record {
    organization_id = c.actor.organization_id;
    workspace_id = c.workspace_id;
  }
  taken ← query (Kbs.name_exists scope c.name none)
  reject_if taken (conflict "Knowledge base name already exists")
  let entity = new_knowledge_base env c
  execute (Kbs.add entity)
  commit
  pure (to_kb_detail entity)

-- `if command.name is not None`
unfoldable pub rename : TenantScope → KnowledgeBase → Option Str → Tx KnowledgeBase
rename scope kb none = pure kb
rename scope kb (some name) = do
  taken ← query (Kbs.name_exists scope name (some kb.id))
  reject_if taken (conflict "Knowledge base name already exists")
  pure (record kb { name = strip name })

-- `command.expected_version is not None and row_version != command.expected_version`
abbrev pub stale : Option ℕ → ℕ → Bool
stale none version = Bool.false
stale (some expected) version = not (version == expected)

unfoldable pub with_fields : UpdateKnowledgeBaseCommand → KnowledgeBase → KnowledgeBase
with_fields c kb = record kb {
  default_language = or_else c.default_language kb.default_language;
  visibility_policy = or_else c.visibility_policy kb.visibility_policy;
  description = elim c.description [ none ↦ kb.description | some d ↦ some d ];
  updated_by_user_id = some c.actor.user_id;
  row_version = kb.row_version + 1;
}

unfoldable pub update_knowledge_base : UpdateKnowledgeBaseCommand → Tx KnowledgeBaseDetail
update_knowledge_base c = do
  require_permission c.actor "knowledge_base:manage"
  found ← query (Kbs.get_scoped (scope_of c.scoped) c.knowledge_base_id)
  kb ← required (not_found "Knowledge base") found
  reject_if (is_archived_base kb.status || is_deleted_base kb.status)
      (conflict "Knowledge base is not mutable")
  reject_if (stale c.expected_version kb.row_version) (conflict "Version conflict")
  renamed ← rename (scope_of c.scoped) kb c.name
  let changed = with_fields c renamed
  execute (Kbs.save changed)
  commit
  pure (to_kb_detail changed)

unfoldable pub publish_knowledge_base : Scoped → Tx KnowledgeBaseDetail
publish_knowledge_base c = do
  require_permission c.actor "knowledge_base:manage"
  found ← query (Kbs.get_scoped (scope_of c) c.knowledge_base_id)
  kb ← required (not_found "Knowledge base") found
  if is_active_base kb.status then pure (to_kb_detail kb) else do
    reject_if (not (is_draft_base kb.status)) (conflict "Knowledge base is not draft")
    let published = Kbs.publish c.actor.user_id kb
    execute (Kbs.save published)
    commit
    pure (to_kb_detail published)

unfoldable pub archived_base : (now user : ℕ) → KnowledgeBase → KnowledgeBase
archived_base now user kb = record kb {
  status = KnowledgeBaseStatus.archived;
  archived_at = some now;
  updated_by_user_id = some user;
  row_version = kb.row_version + 1;
}

-- Each bulk update reads the clock once more.
unfoldable pub archive_knowledge_base : Env → Scoped → Tx KnowledgeBaseDetail
archive_knowledge_base env c = do
  require_permission c.actor "knowledge_base:manage"
  found ← query (Kbs.get_scoped (scope_of c) c.knowledge_base_id)
  kb ← required (not_found "Knowledge base") found
  if is_archived_base kb.status then pure (to_kb_detail kb) else do
    reject_if (is_deleted_base kb.status) (conflict "Knowledge base is deleted")
    let archived = archived_base env.now c.actor.user_id kb
    execute (Kbs.save archived)
    execute (Folders.archive_all_in_kb env.later kb.id)
    execute (Documents.archive_all_in_kb env.latest kb.id)
    commit
    pure (to_kb_detail archived)

unfoldable pub restored_base : ℕ → KnowledgeBase → KnowledgeBase
restored_base user kb = record kb {
  status = KnowledgeBaseStatus.active;
  archived_at = none;
  updated_by_user_id = some user;
  row_version = kb.row_version + 1;
}

unfoldable pub restore_knowledge_base : Scoped → Tx KnowledgeBaseDetail
restore_knowledge_base c = do
  require_permission c.actor "knowledge_base:manage"
  found ← query (Kbs.get_scoped (scope_of c) c.knowledge_base_id)
  kb ← required (not_found "Knowledge base") found
  reject_if (not (is_archived_base kb.status)) (conflict "Knowledge base is not archived")
  let restored = restored_base c.actor.user_id kb
  execute (Kbs.save restored)
  commit
  pure (to_kb_detail restored)

-- The unit of work of DeleteKnowledgeBaseHandler; it returns the keys of the objects to delete.
unfoldable pub delete_knowledge_base : Scoped → Tx (List StorageKey)
delete_knowledge_base c = do
  require_permission c.actor "knowledge_base:manage"
  found ← query (Kbs.get_scoped (scope_of c) c.knowledge_base_id)
  kb ← required (not_found "Knowledge base") found
  held ← query (Documents.has_legal_hold_in_kb kb.id)
  reject_if held (conflict "Knowledge base has documents under legal hold")
  version_keys ← query (Versions.list_storage_keys_for_kb kb.id)
  staging_keys ← query (Uploads.list_staging_keys_for_kb kb.id)
  execute (Indexed.delete_messages_of_kb kb.id)
  execute (Indexed.delete_conversations_of_kb kb.id)
  execute (Indexed.delete_embeddings_of_kb kb.id)
  execute (Indexed.delete_chunks_of_kb kb.id)
  execute (Versions.delete_all_for_knowledge_base kb.id)
  execute (Uploads.delete_all_for_knowledge_base kb.id)
  execute (Documents.hard_delete_all_in_kb kb.id)
  execute (Folders.hard_delete_all_in_kb kb.id)
  execute (Kbs.remove kb)
  commit
  pure (version_keys ++ staging_keys)
