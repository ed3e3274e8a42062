-- ===== src/Knowledge/Repositories/Documents.antt =====
-- repositories/document.py
use rag_enterprise.Prelude.{
  ℕ, Bool, false, ◌&&◌, ◌||◌, Option, none, some, List, [], ◌∷◌, ◌++◌, map, ◌==◌, is_none, is_in,
  scalar, rows_where, any_row, update_rows, delete_rows,
}
use rag_enterprise.Knowledge.Enums.{DocumentStatus, is_draft_document, is_active_document}
use rag_enterprise.Knowledge.Models.{Document, Database}
use rag_enterprise.Knowledge.Repositories.Scope.{TenantScope}

abbrev pub scoped : TenantScope → ℕ → Document → Bool
scoped scope kb d =
    d.organization_id == scope.organization_id
    && d.workspace_id == scope.workspace_id
    && d.knowledge_base_id == kb
    && is_none d.deleted_at

unfoldable pub get_scoped : TenantScope → ℕ → ℕ → Database → Option Document
get_scoped scope kb id db = scalar (λ d. scoped scope kb d && d.id == id) db.documents

unfoldable pub archive_all_in_kb : (now kb : ℕ) → Database → Database
archive_all_in_kb now kb db = record db {
  documents =
      update_rows
        (λ d.
          d.knowledge_base_id == kb
          && is_none d.deleted_at
          && (is_draft_document d.status || is_active_document d.status))
        (λ d. record d { status = DocumentStatus.archived; archived_at = some now }) db.documents;
}

unfoldable pub has_legal_hold_in_kb : ℕ → Database → Bool
has_legal_hold_in_kb kb db = any_row (λ d. d.knowledge_base_id == kb && d.legal_hold) db.documents

-- `Document.folder_id.in_(folder_ids)`: a document in no folder is in none of them.
abbrev pub in_folders : List ℕ → Document → Bool
in_folders ids d = elim d.folder_id [ none ↦ false | some f ↦ is_in f ids ]

unfoldable pub list_ids_in_folders : List ℕ → Database → List ℕ
list_ids_in_folders [] db = []
list_ids_in_folders (i ∷ ids) db = map (λ d. d.id) (rows_where (in_folders (i ∷ ids)) db.documents)

unfoldable pub has_legal_hold_in_folders : List ℕ → Database → Bool
has_legal_hold_in_folders [] db = false
has_legal_hold_in_folders (i ∷ ids) db =
    any_row (λ d. in_folders (i ∷ ids) d && d.legal_hold) db.documents

unfoldable pub hard_delete_in_folders : List ℕ → Database → Database
hard_delete_in_folders [] db = db
hard_delete_in_folders (i ∷ ids) db = record db {
  documents = delete_rows (in_folders (i ∷ ids)) db.documents;
}

unfoldable pub hard_delete_all_in_kb : ℕ → Database → Database
hard_delete_all_in_kb kb db = record db {
  documents = delete_rows (λ d. d.knowledge_base_id == kb) db.documents;
}

unfoldable pub add : Document → Database → Database
add d db = record db { documents = db.documents ++ d ∷ [] }

unfoldable pub save : Document → Database → Database
save d db = record db { documents = update_rows (λ r. r.id == d.id) (λ _. d) db.documents }

unfoldable pub remove : Document → Database → Database
remove d db = record db { documents = delete_rows (λ r. r.id == d.id) db.documents }
