-- ===== src/Knowledge/Repositories/Versions.antt =====
-- repositories/document_version.py
use rag_enterprise.Prelude.{
  ℕ, ◌+◌, max, Bool, false, Option, none, some, List, [], ◌∷◌, ◌++◌, ◌==◌, is_in, scalar,
  rows_where, delete_rows,
}
use rag_enterprise.Knowledge.Models.{StorageKey, DocumentVersion, Database}

-- `max(version_number)` over the rows; 0 where there is none (`current or 0`).
unfoldable pub max_number : List DocumentVersion → ℕ
max_number [] = 0
max_number (v ∷ vs) = max v.version_number (max_number vs)

unfoldable pub next_version_number : ℕ → Database → ℕ
unfolding max_number
next_version_number document db =
    max_number (rows_where (λ v. v.document_id == document) db.document_versions) + 1

abbrev pub bound_to : ℕ → DocumentVersion → Bool
bound_to upload v = elim v.upload_session_id [ none ↦ false | some u ↦ u == upload ]

unfoldable pub get_by_upload_session : ℕ → Database → Option DocumentVersion
get_by_upload_session upload db = scalar (bound_to upload) db.document_versions

-- The keys of each row: the original, and the extracted text if there is one.
unfoldable pub storage_keys : List DocumentVersion → List StorageKey
storage_keys [] = []
storage_keys (v ∷ vs) =
    v.storage_key_original
    ∷ elim v.storage_key_extracted [ none ↦ storage_keys vs | some e ↦ e ∷ storage_keys vs ]

unfoldable pub list_storage_keys_for_kb : ℕ → Database → List StorageKey
unfolding storage_keys
list_storage_keys_for_kb kb db =
    storage_keys (rows_where (λ v. v.knowledge_base_id == kb) db.document_versions)

unfoldable pub list_storage_keys_for_document : ℕ → Database → List StorageKey
unfolding storage_keys
list_storage_keys_for_document document db =
    storage_keys (rows_where (λ v. v.document_id == document) db.document_versions)

unfoldable pub list_storage_keys_for_documents : List ℕ → Database → List StorageKey
unfolding storage_keys
list_storage_keys_for_documents [] db = []
list_storage_keys_for_documents (i ∷ ids) db =
    storage_keys (rows_where (λ v. is_in v.document_id (i ∷ ids)) db.document_versions)

unfoldable pub delete_all_for_knowledge_base : ℕ → Database → Database
delete_all_for_knowledge_base kb db = record db {
  document_versions = delete_rows (λ v. v.knowledge_base_id == kb) db.document_versions;
}

unfoldable pub delete_all_for_document : ℕ → Database → Database
delete_all_for_document document db = record db {
  document_versions = delete_rows (λ v. v.document_id == document) db.document_versions;
}

unfoldable pub delete_all_for_documents : List ℕ → Database → Database
delete_all_for_documents [] db = db
delete_all_for_documents (i ∷ ids) db = record db {
  document_versions = delete_rows (λ v. is_in v.document_id (i ∷ ids)) db.document_versions;
}

unfoldable pub add : DocumentVersion → Database → Database
add v db = record db { document_versions = db.document_versions ++ v ∷ [] }
