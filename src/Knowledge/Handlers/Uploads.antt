-- ===== src/Knowledge/Handlers/Uploads.antt =====
-- The handlers of uploads and of document versions.
use rag_enterprise.Prelude.{
  ℕ, ◌+◌, ◌*◌, Bool, true, false, not, ◌&&◌, ◌||◌, Option, none, some, [], ◌∷◌, length, ltb, ◌==◌,
  or_else, if◌then◌else◌,
}
use rag_enterprise.Prelude.Text.{Str, codes, str_eq}
use rag_enterprise.Knowledge.Enums.{
  DocumentStatus, ExtractionMethod, ProcessingStatus, UploadSessionStatus, is_draft_document,
  is_archived_document, is_deleted_document, is_pending_upload, is_completed_upload,
}
use rag_enterprise.Knowledge.Models.{Document, DocumentVersion, UploadSession}
use rag_enterprise.Knowledge.Errors.{conflict, not_found}
use rag_enterprise.Knowledge.Storage.{storage_key_for_version, staging_storage_key}
use rag_enterprise.Knowledge.Session.{
  Tx, pure, abort, query, required, execute, reject_if, commit, put_file, get_file, ◌>>=◌, ◌>>◌,
}
use rag_enterprise.Knowledge.Repositories.Bases as Kbs
use rag_enterprise.Knowledge.Repositories.Documents as Docs
use rag_enterprise.Knowledge.Repositories.Versions
use rag_enterprise.Knowledge.Repositories.Uploads as Repo
use rag_enterprise.Knowledge.Commands.{
  InitiateUploadCommand, CompleteUploadCommand, UploadDocumentVersionCommand,
}
use rag_enterprise.Knowledge.Commands.Validation.{upload_session_ttl_hours}
use rag_enterprise.Knowledge.Handlers.Env.{Env, scope_of, require_permission}
use rag_enterprise.Knowledge.Handlers.Folders.{require_available}

-- `datetime.now(UTC) + timedelta(hours=UPLOAD_SESSION_TTL_HOURS)`, in seconds. The staging key is
-- written once the row has its identifier, and flushed.
unfoldable pub new_upload : Env → InitiateUploadCommand → UploadSession
new_upload env c = record {
  id = env.new_id;
  organization_id = c.actor.organization_id;
  workspace_id = c.workspace_id;
  knowledge_base_id = c.knowledge_base_id;
  document_id = c.document_id;
  file_name = c.file_name;
  file_size_bytes = c.file_size_bytes;
  mime_type = c.mime_type;
  status = UploadSessionStatus.pending;
  storage_key_staging = none;
  checksum_sha256 = c.checksum_sha256;
  expires_at = env.now + upload_session_ttl_hours * 3600;
  completed_at = none;
  created_by_user_id = some c.actor.user_id;
}

unfoldable pub initiate_upload : Env → InitiateUploadCommand → Tx UploadSession
initiate_upload env c = do
  require_permission c.actor "document:create"
  found ← query (Kbs.get_scoped (scope_of c.scoped) c.knowledge_base_id)
  require_available found
  let session = new_upload env c
  execute (Repo.add session)
  let key = staging_storage_key session.id c.actor.organization_id c.workspace_id
  let staged : UploadSession = record session { storage_key_staging = some key }
  execute (Repo.save staged)
  commit
  pure staged

-- `command.checksum_sha256 and command.checksum_sha256 != digest`
abbrev pub checksum_differs : Option Str → Str → Bool
checksum_differs none digest = false
checksum_differs (some c) digest = not (str_eq c []) && not (str_eq c digest)

unfoldable pub completed_upload : (now : ℕ) (digest : Str) → UploadSession → UploadSession
completed_upload now digest u = record u {
  checksum_sha256 = some digest;
  status = UploadSessionStatus.completed;
  completed_at = some now;
}

-- The part of CompleteUploadHandler behind the checks on the status and the expiry.
unfoldable pub store_upload : Env → CompleteUploadCommand → UploadSession → Tx UploadSession
store_upload env c session = do
  content ← required (conflict "Upload content is required") c.content
  reject_if (not (length content == session.file_size_bytes)) (conflict "Upload size mismatch")
  let digest = env.sha256 content
  reject_if (checksum_differs c.checksum_sha256 digest) (conflict "Checksum mismatch")
  let default_key = staging_storage_key session.id c.actor.organization_id c.workspace_id
  put_file (or_else session.storage_key_staging default_key) content
  let completed = completed_upload env.later digest session
  execute (Repo.save completed)
  commit
  pure completed

unfoldable pub expire_upload : UploadSession → Tx UploadSession
expire_upload session = do
  execute (Repo.save (record session { status = UploadSessionStatus.expired }))
  commit
  abort (conflict "Upload session expired")

unfoldable pub complete_upload : Env → CompleteUploadCommand → Tx UploadSession
complete_upload env c = do
  require_permission c.actor "document:create"
  found ← query (Repo.get_scoped (scope_of c.scoped) c.knowledge_base_id c.upload_id)
  session ← required (not_found "Upload session") found
  if is_completed_upload session.status then pure session else do
    reject_if (not (is_pending_upload session.status))
        (conflict "Upload session is not completable")
    if ltb session.expires_at env.now then expire_upload session else store_upload env c session

-- `session is None or session.status != COMPLETED`, as a failure.
unfoldable pub require_completed : Option UploadSession → Tx UploadSession
require_completed found = do
  session ← required (conflict "Upload is not completed") found
  reject_if (not (is_completed_upload session.status)) (conflict "Upload is not completed")
  pure session

abbrev pub is_bound : Option DocumentVersion → Bool
is_bound none = false
is_bound (some v) = true

-- `session.mime_type or "application/octet-stream"`
abbrev pub mime_or_default : Option Str → Str
mime_or_default none = codes "application/octet-stream"
mime_or_default (some []) = codes "application/octet-stream"
mime_or_default (some (c ∷ s)) = c ∷ s

unfoldable pub new_version :
    Env
    → UploadDocumentVersionCommand
    → Document
    → UploadSession
    → (digest : Str) → (number : ℕ) → DocumentVersion
new_version env c document session digest number = record {
  id = env.new_id;
  organization_id = c.actor.organization_id;
  workspace_id = c.workspace_id;
  knowledge_base_id = c.knowledge_base_id;
  document_id = document.id;
  version_number = number;
  extraction_method = ExtractionMethod.native_text;
  processing_status = ProcessingStatus.uploaded;
  content_hash = digest;
  file_name = session.file_name;
  file_size_bytes = session.file_size_bytes;
  mime_type = mime_or_default session.mime_type;
  storage_key_original =
      storage_key_for_version c.actor.organization_id c.workspace_id c.knowledge_base_id document.id
        env.new_id session.file_name;
  storage_key_extracted = none;
  change_summary = c.change_summary;
  upload_session_id = some session.id;
  created_by_user_id = some c.actor.user_id;
  indexed_at = none;
  superseded_at = none;
  failure_reason = none;
}

unfoldable pub with_version : (user version_id : ℕ) → Document → Document
with_version user version_id d = record d {
  current_version_id = some version_id;
  updated_by_user_id = some user;
  row_version = d.row_version + 1;
  status = if is_draft_document d.status then DocumentStatus.active else d.status;
}

unfoldable pub upload_document_version : Env → UploadDocumentVersionCommand → Tx DocumentVersion
upload_document_version env c = do
  require_permission c.actor "document:update"
  let scope = scope_of c.scoped
  found ← query (Docs.get_scoped scope c.knowledge_base_id c.document_id)
  document ← required (not_found "Document") found
  reject_if (is_archived_document document.status || is_deleted_document document.status)
      (conflict "Document is not mutable")
  upload ← query (Repo.get_scoped scope c.knowledge_base_id c.upload_id)
  session ← require_completed upload
  bound ← query (Versions.get_by_upload_session session.id)
  reject_if (is_bound bound) (conflict "Upload already bound to a version")
  staging_key ← required (conflict "Upload is missing staged content") session.storage_key_staging
  digest ← required (conflict "Upload is missing staged content") session.checksum_sha256
  content ← get_file staging_key
  number ← query (Versions.next_version_number document.id)
  let version = new_version env c document session digest number
  put_file version.storage_key_original content
  execute (Versions.add version)
  execute (Docs.save (with_version c.actor.user_id version.id document))
  commit
  pure version
