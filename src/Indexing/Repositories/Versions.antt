-- ===== src/Indexing/Repositories/Versions.antt =====
-- knowledge/repositories/document_version.py: what the indexing, chunking and pipeline services call,
-- and their assignments to the columns of a version.
use rag_enterprise.Prelude.{
  ℕ, Bool, ◌&&◌, Option, List, [], ◌∷◌, ◌==◌, leb, scalar, rows_where, update_rows, if◌then◌else◌,
}
use rag_enterprise.Prelude.Text.{Str}
use rag_enterprise.Knowledge.Enums.{ProcessingStatus}
use rag_enterprise.Knowledge.Models.{Database, DocumentVersion}
use rag_enterprise.Knowledge.Repositories.Scope.{TenantScope}

-- `versions.get(id)`: a version has no soft delete.
unfoldable pub get_version : ℕ → Database → Option DocumentVersion
get_version id db = scalar (λ v. v.id == id) db.document_versions

-- `ORDER BY version_number DESC`
unfoldable pub insert_by_number : DocumentVersion → List DocumentVersion → List DocumentVersion
insert_by_number v [] = v ∷ []
insert_by_number v (w ∷ ws) =
    let rest = insert_by_number v ws in
    if leb w.version_number v.version_number then v ∷ w ∷ ws else w ∷ rest

unfoldable pub order_by_number : List DocumentVersion → List DocumentVersion
unfolding insert_by_number
order_by_number [] = []
order_by_number (v ∷ vs) = insert_by_number v (order_by_number vs)

unfoldable pub of_document : TenantScope → (knowledge_base document : ℕ) → DocumentVersion → Bool
of_document scope kb document v =
    v.organization_id == scope.organization_id
    && v.workspace_id == scope.workspace_id
    && v.knowledge_base_id == kb
    && v.document_id == document

unfoldable pub list_for_document :
    TenantScope → (knowledge_base document : ℕ) → Database → List DocumentVersion
unfolding order_by_number of_document
list_for_document scope kb document db =
    order_by_number (rows_where (of_document scope kb document) db.document_versions)

-- An assignment to columns of the version with this identifier.
unfoldable pub set_version : ℕ → (DocumentVersion → DocumentVersion) → Database → Database
set_version id f db = record db {
  document_versions = update_rows (λ v. v.id == id) f db.document_versions;
}

-- `version.processing_status = status; version.failure_reason = reason`
abbrev pub with_status : ProcessingStatus → Option Str → DocumentVersion → DocumentVersion
with_status status reason v = record v { processing_status = status; failure_reason = reason }
