-- ===== src/Knowledge/Repositories/Folders.antt =====
-- repositories/folder.py. `like path prefix` is the database's `path LIKE '<prefix>%'`.
use rag_enterprise.Prelude.{
  ℕ, Bool, not, ◌&&◌, Option, none, some, List, [], ◌∷◌, ◌++◌, map, ◌==◌, is_none, same_id, is_in,
  scalar, rows_where, any_row, update_rows, delete_rows,
}
use rag_enterprise.Prelude.Text.{Str, str_eq, strip}
use rag_enterprise.Knowledge.Enums.{FolderStatus, is_active_folder, is_deleted_folder}
use rag_enterprise.Knowledge.Models.{Folder, Database}
use rag_enterprise.Knowledge.Repositories.Scope.{TenantScope}
use rag_enterprise.Knowledge.Repositories.Bases.{not_excluded}

abbrev pub scoped : TenantScope → ℕ → Folder → Bool
scoped scope kb f =
    f.organization_id == scope.organization_id
    && f.workspace_id == scope.workspace_id
    && f.knowledge_base_id == kb
    && is_none f.deleted_at

unfoldable pub get_scoped : TenantScope → ℕ → ℕ → Database → Option Folder
get_scoped scope kb id db = scalar (λ f. scoped scope kb f && f.id == id) db.folders

unfoldable pub sibling_name_exists : ℕ → Option ℕ → Str → Option ℕ → Database → Bool
sibling_name_exists kb parent name exclude_id db =
    any_row
      (λ f.
        f.knowledge_base_id == kb
        && str_eq f.name (strip name)
        && is_none f.deleted_at
        && not (is_deleted_folder f.status)
        && same_id f.parent_folder_id parent
        && not_excluded exclude_id f.id)
      db.folders

-- `root is None`, or the identifiers of the rows whose path is like the root's.
unfoldable pub subtree_of : (Str → Str → Bool) → ℕ → List Folder → Option Folder → List ℕ
subtree_of like kb folders none = []
subtree_of like kb folders (some root) =
    map (λ f. f.id) (rows_where (λ f. f.knowledge_base_id == kb && like f.path root.path) folders)

unfoldable pub list_subtree_ids : (Str → Str → Bool) → ℕ → ℕ → Database → List ℕ
unfolding subtree_of
list_subtree_ids like kb root db =
    subtree_of like kb db.folders (scalar (λ f. f.id == root) db.folders)

unfoldable pub archive_all_in_kb : (now kb : ℕ) → Database → Database
archive_all_in_kb now kb db = record db {
  folders =
      update_rows
        (λ f. f.knowledge_base_id == kb && is_none f.deleted_at && is_active_folder f.status)
        (λ f. record f { status = FolderStatus.archived; archived_at = some now }) db.folders;
}

unfoldable pub hard_delete_all_in_kb : ℕ → Database → Database
hard_delete_all_in_kb kb db = record db {
  folders =
      delete_rows (λ f. f.knowledge_base_id == kb)
        (update_rows (λ f. f.knowledge_base_id == kb) (λ f. record f { parent_folder_id = none })
          db.folders);
}

unfoldable pub hard_delete_subtree : List ℕ → Database → Database
hard_delete_subtree [] db = db
hard_delete_subtree (i ∷ ids) db = record db {
  folders =
      delete_rows (λ f. is_in f.id (i ∷ ids))
        (update_rows (λ f. is_in f.id (i ∷ ids)) (λ f. record f { parent_folder_id = none })
          db.folders);
}

unfoldable pub add : Folder → Database → Database
add f db = record db { folders = db.folders ++ f ∷ [] }

unfoldable pub save : Folder → Database → Database
save f db = record db { folders = update_rows (λ r. r.id == f.id) (λ _. f) db.folders }
