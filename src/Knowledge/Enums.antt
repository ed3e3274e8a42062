-- ===== src/Knowledge/Enums.antt =====
-- knowledge/enums.py, with the tests on a status that the code writes out.
use rag_enterprise.Prelude.{Bool, true, false}

pub data KnowledgeBaseStatus : Type 0 where
  draft active reindexing archived deleted : KnowledgeBaseStatus

pub data FolderStatus : Type 0 where
  active archived deleted : FolderStatus

pub data DocumentStatus : Type 0 where
  draft active archived deleted : DocumentStatus

pub data DocumentSourceType : Type 0 where
  upload connector url : DocumentSourceType

pub data ClassificationLabel : Type 0 where
  public_internal restricted confidential regulated : ClassificationLabel

pub data VisibilityPolicy : Type 0 where
  private workspace organization : VisibilityPolicy

pub data ExtractionMethod : Type 0 where
  native_text ocr connector_import manual_edit : ExtractionMethod

pub data ProcessingStatus : Type 0 where
  uploaded extracting extracted chunking chunked indexing indexed failed superseded :
      ProcessingStatus

pub data UploadSessionStatus : Type 0 where
  pending uploading completed cancelled expired : UploadSessionStatus

-- `status == X`, for the constants that the handlers and the queries compare with.
abbrev pub is_draft_base : KnowledgeBaseStatus → Bool
is_draft_base KnowledgeBaseStatus.draft = true
is_draft_base _ = false

abbrev pub is_active_base : KnowledgeBaseStatus → Bool
is_active_base KnowledgeBaseStatus.active = true
is_active_base _ = false

abbrev pub is_archived_base : KnowledgeBaseStatus → Bool
is_archived_base KnowledgeBaseStatus.archived = true
is_archived_base _ = false

abbrev pub is_deleted_base : KnowledgeBaseStatus → Bool
is_deleted_base KnowledgeBaseStatus.deleted = true
is_deleted_base _ = false

abbrev pub is_active_folder : FolderStatus → Bool
is_active_folder FolderStatus.active = true
is_active_folder _ = false

abbrev pub is_deleted_folder : FolderStatus → Bool
is_deleted_folder FolderStatus.deleted = true
is_deleted_folder _ = false

abbrev pub is_draft_document : DocumentStatus → Bool
is_draft_document DocumentStatus.draft = true
is_draft_document _ = false

abbrev pub is_active_document : DocumentStatus → Bool
is_active_document DocumentStatus.active = true
is_active_document _ = false

abbrev pub is_archived_document : DocumentStatus → Bool
is_archived_document DocumentStatus.archived = true
is_archived_document _ = false

abbrev pub is_deleted_document : DocumentStatus → Bool
is_deleted_document DocumentStatus.deleted = true
is_deleted_document _ = false

abbrev pub is_pending_upload : UploadSessionStatus → Bool
is_pending_upload UploadSessionStatus.pending = true
is_pending_upload _ = false

abbrev pub is_completed_upload : UploadSessionStatus → Bool
is_completed_upload UploadSessionStatus.completed = true
is_completed_upload _ = false
