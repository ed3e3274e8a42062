-- ===== src/Knowledge/Models.antt =====
-- knowledge/models.py with the mixins of db/mixins: one record to a table. Identifiers and times are
-- numbers; the columns that no modelled operation reads or writes (timestamps, slug, delete_reason,
-- effective_at) are left out. JSON values are kept as their text.
use rag_enterprise.Prelude.{ℕ, String, Option, Bool, List}
use rag_enterprise.Prelude.Text.{Str}
use rag_enterprise.Indexing.Models.{Chunk, Embedding}
use rag_enterprise.Knowledge.Enums.{
  KnowledgeBaseStatus, FolderStatus, DocumentStatus, DocumentSourceType, ClassificationLabel,
  VisibilityPolicy, ExtractionMethod, ProcessingStatus, UploadSessionStatus,
}

-- A relative object key under the storage root (infrastructure/storage.py): the parts of the path. The
-- last kind is a key with a suffix that is not part of a file's name.
pub data StorageKey : Type 0 where
  version_key : (organization_id workspace_id document_id version_id : ℕ) → Str → StorageKey
  staging_key : (organization_id workspace_id upload_id : ℕ) → StorageKey
  extended_key : StorageKey → Str → StorageKey

pub record KnowledgeBase : Type 0 where
  pub id : ℕ
  pub organization_id : ℕ
  pub workspace_id : ℕ
  pub deleted_at : Option ℕ
  pub created_by_user_id : Option ℕ
  pub updated_by_user_id : Option ℕ
  pub row_version : ℕ
  pub name : Str
  pub description : Option String
  pub status : KnowledgeBaseStatus
  pub default_language : Str
  pub visibility_policy : VisibilityPolicy
  pub document_count : ℕ
  pub archived_at : Option ℕ

pub record Folder : Type 0 where
  pub id : ℕ
  pub organization_id : ℕ
  pub workspace_id : ℕ
  pub knowledge_base_id : ℕ
  pub deleted_at : Option ℕ
  pub created_by_user_id : Option ℕ
  pub updated_by_user_id : Option ℕ
  pub row_version : ℕ
  pub parent_folder_id : Option ℕ
  pub name : Str
  pub path : Str
  pub depth : ℕ
  pub status : FolderStatus
  pub archived_at : Option ℕ

pub record Document : Type 0 where
  pub id : ℕ
  pub organization_id : ℕ
  pub workspace_id : ℕ
  pub knowledge_base_id : ℕ
  pub deleted_at : Option ℕ
  pub created_by_user_id : Option ℕ
  pub updated_by_user_id : Option ℕ
  pub row_version : ℕ
  pub folder_id : Option ℕ
  pub title : Str
  pub status : DocumentStatus
  pub source_type : DocumentSourceType
  pub declared_language : Str
  pub classification_label : ClassificationLabel
  pub current_version_id : Option ℕ
  pub tags : List Str
  pub metadata_json : Str
  pub owner_user_id : Option ℕ
  pub legal_hold : Bool
  pub archived_at : Option ℕ

pub record DocumentVersion : Type 0 where
  pub id : ℕ
  pub organization_id : ℕ
  pub workspace_id : ℕ
  pub knowledge_base_id : ℕ
  pub document_id : ℕ
  pub version_number : ℕ
  pub extraction_method : ExtractionMethod
  pub processing_status : ProcessingStatus
  pub content_hash : Str
  pub file_name : Str
  pub file_size_bytes : ℕ
  pub mime_type : Str
  pub storage_key_original : StorageKey
  pub storage_key_extracted : Option StorageKey
  pub change_summary : Option String
  pub upload_session_id : Option ℕ
  pub created_by_user_id : Option ℕ
  pub indexed_at : Option ℕ
  pub superseded_at : Option ℕ
  pub failure_reason : Option Str

pub record UploadSession : Type 0 where
  pub id : ℕ
  pub organization_id : ℕ
  pub workspace_id : ℕ
  pub knowledge_base_id : ℕ
  pub document_id : Option ℕ
  pub file_name : Str
  pub file_size_bytes : ℕ
  pub mime_type : Option Str
  pub status : UploadSessionStatus
  pub storage_key_staging : Option StorageKey
  pub checksum_sha256 : Option Str
  pub expires_at : ℕ
  pub completed_at : Option ℕ
  pub created_by_user_id : Option ℕ

-- What the knowledge handlers use of the tables of the generation service.
pub record Conversation : Type 0 where
  pub id : ℕ
  pub knowledge_base_id : ℕ

pub record Message : Type 0 where
  pub id : ℕ
  pub knowledge_base_id : ℕ
  pub conversation_id : ℕ

pub record Database : Type 0 where
  pub knowledge_bases : List KnowledgeBase
  pub folders : List Folder
  pub documents : List Document
  pub document_versions : List DocumentVersion
  pub upload_sessions : List UploadSession
  pub chunks : List Chunk
  pub embeddings : List Embedding
  pub conversations : List Conversation
  pub messages : List Message
