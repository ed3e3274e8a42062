-- ===== src/Knowledge/Repositories/Uploads.antt =====
-- repositories/upload_session.py
use rag_enterprise.Prelude.{
  ℕ, Bool, false, ◌&&◌, Option, none, some, List, [], ◌∷◌, ◌++◌, ◌==◌, is_in, scalar, rows_where,
  update_rows, delete_rows,
}
use rag_enterprise.Knowledge.Models.{StorageKey, UploadSession, Database}
use rag_enterprise.Knowledge.Repositories.Scope.{TenantScope}

unfoldable pub get_scoped : TenantScope → ℕ → ℕ → Database → Option UploadSession
get_scoped scope kb id db =
    scalar
      (λ u.
        u.organization_id == scope.organization_id
        && u.workspace_id == scope.workspace_id
        && u.knowledge_base_id == kb
        && u.id == id)
      db.upload_sessions

-- The staging keys that are not null.
unfoldable pub staging_keys : List UploadSession → List StorageKey
staging_keys [] = []
staging_keys (u ∷ us) = elim u.storage_key_staging [
  | none ↦ staging_keys us
  | some k ↦ k ∷ staging_keys us
]

-- `UploadSession.document_id == document_id`, and `….in_(document_ids)`
abbrev pub for_document : ℕ → UploadSession → Bool
for_document document u = elim u.document_id [ none ↦ false | some d ↦ d == document ]

abbrev pub for_documents : List ℕ → UploadSession → Bool
for_documents documents u = elim u.document_id [ none ↦ false | some d ↦ is_in d documents ]

unfoldable pub list_staging_keys_for_kb : ℕ → Database → List StorageKey
unfolding staging_keys
list_staging_keys_for_kb kb db =
    staging_keys (rows_where (λ u. u.knowledge_base_id == kb) db.upload_sessions)

unfoldable pub list_staging_keys_for_document : ℕ → Database → List StorageKey
unfolding staging_keys
list_staging_keys_for_document document db =
    staging_keys (rows_where (for_document document) db.upload_sessions)

unfoldable pub list_staging_keys_for_documents : List ℕ → Database → List StorageKey
unfolding staging_keys
list_staging_keys_for_documents [] db = []
list_staging_keys_for_documents (i ∷ ids) db =
    staging_keys (rows_where (for_documents (i ∷ ids)) db.upload_sessions)

unfoldable pub delete_all_for_knowledge_base : ℕ → Database → Database
delete_all_for_knowledge_base kb db = record db {
  upload_sessions = delete_rows (λ u. u.knowledge_base_id == kb) db.upload_sessions;
}

unfoldable pub delete_all_for_document : ℕ → Database → Database
delete_all_for_document document db = record db {
  upload_sessions = delete_rows (for_document document) db.upload_sessions;
}

unfoldable pub delete_all_for_documents : List ℕ → Database → Database
delete_all_for_documents [] db = db
delete_all_for_documents (i ∷ ids) db = record db {
  upload_sessions = delete_rows (for_documents (i ∷ ids)) db.upload_sessions;
}

unfoldable pub add : UploadSession → Database → Database
add u db = record db { upload_sessions = db.upload_sessions ++ u ∷ [] }

unfoldable pub save : UploadSession → Database → Database
save u db = record db {
  upload_sessions = update_rows (λ r. r.id == u.id) (λ _. u) db.upload_sessions;
}
