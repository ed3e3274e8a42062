-- ===== src/Knowledge/Samples.antt =====
-- Concrete stores and commands for the examples.
use rag_enterprise.Prelude.{ℕ, String, Bool, true, false, none, some, List, [], ◌∷◌}
use rag_enterprise.Prelude.Text.{Str, codes, starts_with}
use rag_enterprise.Knowledge.Enums.{
  FolderStatus, DocumentStatus, DocumentSourceType, ClassificationLabel, UploadSessionStatus,
  KnowledgeBaseStatus, VisibilityPolicy,
}
use rag_enterprise.Knowledge.Models.{
  Folder, Document, Database, UploadSession, KnowledgeBase, staging_key,
}
use rag_enterprise.Knowledge.Session.{World}
use rag_enterprise.Knowledge.Commands.{Scoped}
use rag_enterprise.Knowledge.Handlers.Env.{Env}

-- `LIKE '<prefix>%'`, for a prefix without wildcards.
abbrev pub like_prefix : Str → Str → Bool
like_prefix path prefix = starts_with path prefix

abbrev pub sample_env : Env
sample_env = record {
  now = 100;
  later = 101;
  latest = 102;
  new_id = 99;
  sha256 = λ content. content;
  like = like_prefix;
}

abbrev pub folder_at : ℕ → Str → Folder
folder_at id name = record {
  id = id;
  organization_id = 1;
  workspace_id = 2;
  knowledge_base_id = 10;
  deleted_at = none;
  created_by_user_id = none;
  updated_by_user_id = none;
  row_version = 1;
  parent_folder_id = none;
  name = name;
  path = b'/' ∷ name;
  depth = 0;
  status = FolderStatus.active;
  archived_at = none;
}

abbrev pub held_document : Document
held_document = record {
  id = 30;
  organization_id = 1;
  workspace_id = 2;
  knowledge_base_id = 10;
  deleted_at = none;
  created_by_user_id = none;
  updated_by_user_id = none;
  row_version = 1;
  folder_id = some 20;
  title = codes "Terms";
  status = DocumentStatus.active;
  source_type = DocumentSourceType.upload;
  declared_language = codes "fa";
  classification_label = ClassificationLabel.restricted;
  current_version_id = none;
  tags = [];
  metadata_json = codes "{}";
  owner_user_id = none;
  legal_hold = true;
  archived_at = none;
}

abbrev pub sample_db : Database
sample_db = record {
  knowledge_bases = [];
  folders = folder_at 20 (codes "a") ∷ folder_at 21 (codes "ab") ∷ [];
  documents = held_document ∷ [];
  document_versions = [];
  upload_sessions = [];
  chunks = [];
  embeddings = [];
  conversations = [];
  messages = [];
}

abbrev pub sample_world : World
sample_world = record { db = sample_db; files = λ k. none }

abbrev pub scoped_by : List String → Scoped
scoped_by permissions = record {
  actor = record { user_id = 5; organization_id = 1; permissions = permissions };
  workspace_id = 2;
  knowledge_base_id = 10;
}

-- A document that may be changed, a pending upload, and their knowledge base.
abbrev pub free_document : Document
free_document = record held_document {
  id = 31;
  folder_id = none;
  legal_hold = false;
  status = DocumentStatus.draft;
}

abbrev pub pending_upload : UploadSession
pending_upload = record {
  id = 40;
  organization_id = 1;
  workspace_id = 2;
  knowledge_base_id = 10;
  document_id = none;
  file_name = codes "a.txt";
  file_size_bytes = 2;
  mime_type = none;
  status = UploadSessionStatus.pending;
  storage_key_staging = some (staging_key 1 2 40);
  checksum_sha256 = none;
  expires_at = 200;
  completed_at = none;
  created_by_user_id = none;
}

abbrev pub sample_base : KnowledgeBase
sample_base = record {
  id = 10;
  organization_id = 1;
  workspace_id = 2;
  deleted_at = none;
  created_by_user_id = none;
  updated_by_user_id = none;
  row_version = 1;
  name = codes "Handbook";
  description = none;
  status = KnowledgeBaseStatus.active;
  default_language = codes "fa";
  visibility_policy = VisibilityPolicy.private;
  document_count = 1;
  archived_at = none;
}

abbrev pub free_db : Database
free_db = record sample_db {
  knowledge_bases = sample_base ∷ [];
  documents = free_document ∷ [];
  upload_sessions = pending_upload ∷ [];
  conversations =
      record { id = 50; knowledge_base_id = 10 } ∷ record { id = 51; knowledge_base_id = 11 } ∷ [];
}

abbrev pub free_world : World
free_world = record { db = free_db; files = λ k. none }

-- The upload after its completion.
abbrev pub done_upload : UploadSession
done_upload = record pending_upload {
  status = UploadSessionStatus.completed;
  checksum_sha256 = some (codes "hi");
}

abbrev pub done_world : World
done_world = record {
  db = record free_db { upload_sessions = done_upload ∷ [] };
  files = λ k. some (codes "hi");
}
