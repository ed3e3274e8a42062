-- ===== src/Knowledge/Commands.antt =====
-- knowledge/commands.py, knowledge/context.py and knowledge/validation.py: the commands, their actor,
-- and the validation that the dispatcher runs before a handler.
pub mod Validation
use text.Mathlib.Text.{◌==◌ as string_eq}
use rag_enterprise.Prelude.{ℕ, String, Bool, true, false, ◌||◌, Option, none, some, List, [], ◌∷◌}
use rag_enterprise.Prelude.Text.{Str}
use rag_enterprise.Knowledge.Enums.{DocumentSourceType, ClassificationLabel, VisibilityPolicy}

pub record RequestActor : Type 0 where
  pub user_id : ℕ
  pub organization_id : ℕ
  pub permissions : List String

contains : List String → String → Bool
contains [] p = false
contains (q ∷ qs) p = string_eq q p || contains qs p

unfoldable pub has_permission : RequestActor → String → Bool
unfolding contains
has_permission actor permission = contains actor.permissions permission

-- The fields of `_ScopedCommand`.
pub record Scoped : Type 0 where
  pub actor : RequestActor
  pub workspace_id : ℕ
  pub knowledge_base_id : ℕ

pub record CreateKnowledgeBaseCommand : Type 0 where
  pub actor : RequestActor
  pub workspace_id : ℕ
  pub name : Str
  pub default_language : Str
  pub visibility_policy : VisibilityPolicy
  pub description : Option String

pub record UpdateKnowledgeBaseCommand : Type 0 where
  pub scoped : Scoped
  pub open scoped use *
  pub name : Option Str
  pub default_language : Option Str
  pub visibility_policy : Option VisibilityPolicy
  pub description : Option String
  pub expected_version : Option ℕ

pub record CreateFolderCommand : Type 0 where
  pub scoped : Scoped
  pub open scoped use *
  pub name : Str
  pub parent_folder_id : Option ℕ

pub record MoveFolderCommand : Type 0 where
  pub scoped : Scoped
  pub open scoped use *
  pub folder_id : ℕ
  pub target_parent_folder_id : Option ℕ
  pub expected_version : Option ℕ

pub record DeleteFolderCommand : Type 0 where
  pub scoped : Scoped
  pub open scoped use *
  pub folder_id : ℕ

pub record CreateDocumentCommand : Type 0 where
  pub scoped : Scoped
  pub open scoped use *
  pub title : Str
  pub folder_id : Option ℕ
  pub declared_language : Option Str
  pub source_type : DocumentSourceType
  pub classification_label : ClassificationLabel
  pub tags : List Str
  pub metadata : Str

pub record MoveDocumentCommand : Type 0 where
  pub scoped : Scoped
  pub open scoped use *
  pub document_id : ℕ
  pub target_folder_id : Option ℕ

pub record InitiateUploadCommand : Type 0 where
  pub scoped : Scoped
  pub open scoped use *
  pub file_name : Str
  pub file_size_bytes : ℕ
  pub mime_type : Option Str
  pub document_id : Option ℕ
  pub checksum_sha256 : Option Str

pub record CompleteUploadCommand : Type 0 where
  pub scoped : Scoped
  pub open scoped use *
  pub upload_id : ℕ
  pub checksum_sha256 : Option Str
  pub content : Option (List ℕ)

pub record UploadDocumentVersionCommand : Type 0 where
  pub scoped : Scoped
  pub open scoped use *
  pub document_id : ℕ
  pub upload_id : ℕ
  pub change_summary : Option String

-- ArchiveDocumentCommand, RestoreDocumentCommand and DeleteDocumentCommand have these fields.
pub record DocumentCommand : Type 0 where
  pub scoped : Scoped
  pub open scoped use *
  pub document_id : ℕ

pub record UpdateDocumentMetadataCommand : Type 0 where
  pub scoped : Scoped
  pub open scoped use *
  pub document_id : ℕ
  pub title : Option Str
  pub declared_language : Option Str
  pub classification_label : Option ClassificationLabel
  pub tags : Option (List Str)
  pub metadata : Option Str
  pub expected_version : Option ℕ

pub data Command : Type 0 where
  create_knowledge_base : CreateKnowledgeBaseCommand → Command
  update_knowledge_base : UpdateKnowledgeBaseCommand → Command
  publish_knowledge_base archive_knowledge_base restore_knowledge_base delete_knowledge_base :
      Scoped → Command
  create_folder : CreateFolderCommand → Command
  move_folder : MoveFolderCommand → Command
  delete_folder : DeleteFolderCommand → Command
  create_document : CreateDocumentCommand → Command
  initiate_upload : InitiateUploadCommand → Command
  complete_upload : CompleteUploadCommand → Command
  upload_document_version : UploadDocumentVersionCommand → Command
  archive_document restore_document delete_document : DocumentCommand → Command
  move_document : MoveDocumentCommand → Command
  update_document_metadata : UpdateDocumentMetadataCommand → Command
