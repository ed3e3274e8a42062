-- ===== src/Knowledge/Handlers/Folders.antt =====
-- The handlers of folders.
use rag_enterprise.Prelude.{
  ℕ, ◌+◌, ◌-◌, max, Bool, not, Option, none, some, List, [], ◌∷◌, ◌++◌, ltb, leb, ◌==◌, length,
  rows_where, if◌then◌else◌,
}
use rag_enterprise.Prelude.Text.{Str, str_eq, strip, split, starts_with, replace_first}
use rag_enterprise.Knowledge.Enums.{FolderStatus, is_archived_base}
use rag_enterprise.Knowledge.Models.{KnowledgeBase, Folder, StorageKey, Database}
use rag_enterprise.Knowledge.Errors.{conflict, not_found}
use rag_enterprise.Knowledge.Session.{
  Tx, pure, abort, query, required, execute, reject_if, commit, ◌>>=◌, ◌>>◌,
}
use rag_enterprise.Knowledge.Repositories.Scope.{TenantScope}
use rag_enterprise.Knowledge.Repositories.Bases as Kbs
use rag_enterprise.Knowledge.Repositories.Folders as Repo
use rag_enterprise.Knowledge.Repositories.Documents
use rag_enterprise.Knowledge.Repositories.Versions
use rag_enterprise.Knowledge.Repositories.Uploads
use rag_enterprise.Knowledge.Repositories.Indexed
use rag_enterprise.Knowledge.Commands.{CreateFolderCommand, MoveFolderCommand, DeleteFolderCommand}
use rag_enterprise.Knowledge.Commands.Validation.{max_folder_depth}
use rag_enterprise.Knowledge.Handlers.Env.{
  Env, scope_of, require_permission, folder_path, require_active,
}
use rag_enterprise.Knowledge.Handlers.Bases.{stale}

-- `kb is None or kb.status == ARCHIVED`, as a failure.
unfoldable pub require_available : Option KnowledgeBase → Tx KnowledgeBase
require_available none = abort (conflict "Knowledge base is not available")
require_available (some kb) =
    if is_archived_base kb.status
    then abort (conflict "Knowledge base is not available")
    else pure kb

-- The parent that the command names, if it names one.
unfoldable pub parent_of : TenantScope → ℕ → Option ℕ → Tx (Option Folder)
parent_of scope kb none = pure none
parent_of scope kb (some id) = do
  found ← query (Repo.get_scoped scope kb id)
  parent ← require_active (not_found "Parent folder") found
  pure (some parent)

abbrev pub depth_under : Option Folder → ℕ
depth_under none = 0
depth_under (some parent) = parent.depth + 1

unfoldable pub new_folder : Env → CreateFolderCommand → Option Folder → Folder
new_folder env c parent = record {
  id = env.new_id;
  organization_id = c.actor.organization_id;
  workspace_id = c.workspace_id;
  knowledge_base_id = c.knowledge_base_id;
  deleted_at = none;
  created_by_user_id = some c.actor.user_id;
  updated_by_user_id = some c.actor.user_id;
  row_version = 1;
  parent_folder_id = c.parent_folder_id;
  name = strip c.name;
  path = folder_path parent c.name;
  depth = depth_under parent;
  status = FolderStatus.active;
  archived_at = none;
}

unfoldable pub create_folder : Env → CreateFolderCommand → Tx Folder
create_folder env c = do
  require_permission c.actor "folder:manage"
  found ← query (Kbs.get_scoped (scope_of c.scoped) c.knowledge_base_id)
  require_available found
  parent ← parent_of (scope_of c.scoped) c.knowledge_base_id c.parent_folder_id
  reject_if (leb max_folder_depth (depth_under parent)) (conflict "Maximum folder depth exceeded")
  taken ← query (Repo.sibling_name_exists c.knowledge_base_id c.parent_folder_id c.name none)
  reject_if taken (conflict "Folder name already exists")
  let folder = new_folder env c parent
  execute (Repo.add folder)
  commit
  pure folder

-- The target that the command names: not the folder itself, active, and not below the folder.
unfoldable pub target_of : TenantScope → ℕ → Folder → Option ℕ → Tx (Option Folder)
target_of scope kb folder none = pure none
target_of scope kb folder (some id) = do
  reject_if (id == folder.id) (conflict "Cannot move folder into itself")
  found ← query (Repo.get_scoped scope kb id)
  target ← require_active (not_found "Target folder") found
  reject_if (starts_with target.path (folder.path ++ b'/' ∷ []))
      (conflict "Cannot move folder into its descendant")
  pure (some target)

-- `max_extra`: how much deeper than the folder the rows of its subtree lie. A row that is less deep
-- adds nothing, in the source by `max` with a negative difference, here by the truncated one.
unfoldable pub max_extra_from : TenantScope → ℕ → Folder → ℕ → List ℕ → Database → ℕ
max_extra_from scope kb folder acc [] db = acc
max_extra_from scope kb folder acc (id ∷ ids) db =
    max_extra_from scope kb folder
      (elim (Repo.get_scoped scope kb id db) [
        | none ↦ acc
        | some child ↦ max acc (child.depth - folder.depth)
      ])
      ids db

nonempty : Str → Bool
nonempty p = not (str_eq p [])

-- `len([part for part in path.split("/") if part]) - 1`; a path of slashes alone gives 0 here, and -1
-- in the source.
unfoldable pub path_depth : Str → ℕ
unfolding nonempty split
path_depth path = length (rows_where nonempty (split b'/' path)) - 1

unfoldable pub relocated : (old_path new_path : Str) → Folder → Folder
unfolding path_depth
relocated old_path new_path child =
    let path = replace_first old_path new_path child.path in
    record child { path = path; depth = path_depth path; row_version = child.row_version + 1 }

unfoldable pub relocate_row : (old_path new_path : Str) → Option Folder → Tx Unit
relocate_row old_path new_path none = pure tt
relocate_row old_path new_path (some child) =
    execute (Repo.save (relocated old_path new_path child))

-- One round of the loop over the subtree, before the rounds that are left.
unfoldable pub relocate_round : TenantScope → ℕ → Folder → (old_path : Str) → ℕ → Tx Unit → Tx Unit
relocate_round scope kb folder old_path id rest = if id == folder.id then rest else do
  child ← query (Repo.get_scoped scope kb id)
  relocate_row old_path folder.path child
  rest

-- The loop over the subtree of the folder that has moved.
unfoldable pub relocate : TenantScope → ℕ → Folder → (old_path : Str) → List ℕ → Tx Unit
relocate scope kb folder old_path [] = pure tt
relocate scope kb folder old_path (id ∷ ids) =
    relocate_round scope kb folder old_path id (relocate scope kb folder old_path ids)

unfoldable pub moved_folder : MoveFolderCommand → Option Folder → Folder → Folder
moved_folder c target folder = record folder {
  parent_folder_id = c.target_parent_folder_id;
  path = folder_path target folder.name;
  depth = depth_under target;
  row_version = folder.row_version + 1;
  updated_by_user_id = some c.actor.user_id;
}

unfoldable pub move_folder : Env → MoveFolderCommand → Tx Folder
move_folder env c = do
  require_permission c.actor "folder:manage"
  let scope = scope_of c.scoped
  found ← query (Repo.get_scoped scope c.knowledge_base_id c.folder_id)
  folder ← require_active (not_found "Folder") found
  reject_if (stale c.expected_version folder.row_version) (conflict "Version conflict")
  target ← target_of scope c.knowledge_base_id folder c.target_parent_folder_id
  subtree_ids ← query (Repo.list_subtree_ids env.like c.knowledge_base_id folder.id)
  max_extra ← query (max_extra_from scope c.knowledge_base_id folder 0 subtree_ids)
  reject_if (leb max_folder_depth (depth_under target + max_extra))
      (conflict "Maximum folder depth exceeded")
  taken ← query (
      Repo.sibling_name_exists c.knowledge_base_id c.target_parent_folder_id folder.name
        (some folder.id))
  reject_if taken (conflict "Folder name already exists at target")
  let moved = moved_folder c target folder
  execute (Repo.save moved)
  relocate scope c.knowledge_base_id moved folder.path subtree_ids
  commit
  pure moved

-- `if kb is not None and kb.document_count > 0`
unfoldable pub lower_count : ℕ → Option KnowledgeBase → Tx Unit
lower_count n none = pure tt
lower_count n (some kb) =
    if ltb 0 kb.document_count
    then execute (Kbs.save (record kb { document_count = kb.document_count - n }))
    else pure tt

-- `if document_ids:` of DeleteFolderHandler
unfoldable pub delete_documents : TenantScope → ℕ → List ℕ → List ℕ → Tx (List StorageKey)
delete_documents scope kb folder_ids [] = pure []
delete_documents scope kb folder_ids (d ∷ ds) = do
  let document_ids = d ∷ ds
  version_keys ← query (Versions.list_storage_keys_for_documents document_ids)
  staging_keys ← query (Uploads.list_staging_keys_for_documents document_ids)
  execute (Indexed.delete_embeddings_of_documents document_ids)
  execute (Indexed.delete_chunks_of_documents document_ids)
  execute (Versions.delete_all_for_documents document_ids)
  execute (Uploads.delete_all_for_documents document_ids)
  execute (Documents.hard_delete_in_folders folder_ids)
  found ← query (Kbs.get_scoped scope kb)
  lower_count (length document_ids) found
  pure (version_keys ++ staging_keys)

-- The unit of work of DeleteFolderHandler; it returns the keys of the objects to delete.
unfoldable pub delete_folder : Env → DeleteFolderCommand → Tx (List StorageKey)
delete_folder env c = do
  require_permission c.actor "folder:manage"
  let scope = scope_of c.scoped
  found ← query (Repo.get_scoped scope c.knowledge_base_id c.folder_id)
  folder ← required (not_found "Folder") found
  folder_ids ← query (Repo.list_subtree_ids env.like c.knowledge_base_id folder.id)
  held ← query (Documents.has_legal_hold_in_folders folder_ids)
  reject_if held (conflict "Folder has documents under legal hold")
  document_ids ← query (Documents.list_ids_in_folders folder_ids)
  storage_keys ← delete_documents scope c.knowledge_base_id folder_ids document_ids
  execute (Repo.hard_delete_subtree folder_ids)
  commit
  pure storage_keys
