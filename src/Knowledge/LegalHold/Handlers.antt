-- ===== src/Knowledge/LegalHold/Handlers.antt =====
-- Legal hold and the handlers that write no document; the rules for the steps of the others.
use rag_enterprise.Prelude.{String, ℕ, List, [], ◌∷◌, Bool, Option, none, some}
use rag_enterprise.Prelude.Text.{Str}
use rag_enterprise.Knowledge.Models.{KnowledgeBase, Folder, Document, UploadSession}
use rag_enterprise.Knowledge.Errors.{ApplicationError}
use rag_enterprise.Knowledge.Session.{Tx}
use rag_enterprise.Knowledge.Repositories.Scope.{TenantScope}
use rag_enterprise.Knowledge.Commands.{
  RequestActor, Scoped, CreateKnowledgeBaseCommand, UpdateKnowledgeBaseCommand, CreateFolderCommand,
  MoveFolderCommand, InitiateUploadCommand, CompleteUploadCommand,
}
use rag_enterprise.Knowledge.Handlers.Env.{Env, require_permission, require_active}
use rag_enterprise.Knowledge.Handlers.Bases
use rag_enterprise.Knowledge.Handlers.Folders
use rag_enterprise.Knowledge.Handlers.Documents
use rag_enterprise.Knowledge.Handlers.Uploads
use rag_enterprise.Knowledge.LegalHold.{
  fine, anything, OnHold, Holds, Keeps, Keeps-if, Keeps-bind-query, Keeps-bind-required,
  Keeps-guarded, keeps_rules,
}
use rag_enterprise.Knowledge.LegalHold.Steps.{
  OnHold-add_base, OnHold-save_base, OnHold-remove_base, OnHold-add_folder, OnHold-save_folder,
  OnHold-archive_folders, OnHold-delete_folders, OnHold-delete_subtree, OnHold-versions_of_kb,
  OnHold-versions_of, OnHold-versions_of_all, OnHold-add_version, OnHold-uploads_of_kb,
  OnHold-uploads_of, OnHold-uploads_of_all, OnHold-add_upload, OnHold-save_upload, OnHold-messages,
  OnHold-conversations, OnHold-embeddings_of_kb, OnHold-chunks_of_kb, OnHold-embeddings_of,
  OnHold-chunks_of, OnHold-embeddings_of_all, OnHold-chunks_of_all, OnHold-add, OnHold-save,
  OnHold-archive, OnHold-remove, fine_found, OnHold-delete_in_kb, OnHold-delete_in_folders,
}

pub ruleset statements = (
  OnHold-add_base, OnHold-save_base, OnHold-remove_base, OnHold-add_folder, OnHold-save_folder,
  OnHold-archive_folders, OnHold-delete_folders, OnHold-delete_subtree, OnHold-versions_of_kb,
  OnHold-versions_of, OnHold-versions_of_all, OnHold-add_version, OnHold-uploads_of_kb,
  OnHold-uploads_of, OnHold-uploads_of_all, OnHold-add_upload, OnHold-save_upload, OnHold-messages,
  OnHold-conversations, OnHold-embeddings_of_kb, OnHold-chunks_of_kb, OnHold-embeddings_of,
  OnHold-chunks_of, OnHold-embeddings_of_all, OnHold-chunks_of_all, OnHold-archive,
)

module _ (id : ℕ) (r : Document → Bool) where
  pub Keeps-require_permission :
      (a : RequestActor) (p : String) → Keeps id r (require_permission a p)
  unfolding require_permission
  Keeps-require_permission a p = search keeps_rules

  pub Keeps-require_active :
      (e : ApplicationError) (o : Option Folder) → Keeps id r (require_active e o)
  unfolding require_active
  Keeps-require_active e none = search keeps_rules
  Keeps-require_active e (some f) = search keeps_rules

  pub Keeps-rename :
      (scope : TenantScope) (kb : KnowledgeBase) (name : Option Str)
      → Keeps id r (Bases.rename scope kb name)
  unfolding Bases.rename
  Keeps-rename scope kb none = search keeps_rules
  Keeps-rename scope kb (some n) = search keeps_rules

  pub Keeps-require_available :
      (o : Option KnowledgeBase) → Keeps id r (Folders.require_available o)
  unfolding Folders.require_available
  Keeps-require_available none = search keeps_rules
  Keeps-require_available (some kb) = search keeps_rules

  pub Keeps-relocate_row : (p q : Str) (o : Option Folder) → Keeps id r (Folders.relocate_row p q o)
  unfolding Folders.relocate_row
  Keeps-relocate_row p q none = search keeps_rules
  Keeps-relocate_row p q (some f) = search (keeps_rules, statements)

  pub Keeps-lower_count : (n : ℕ) (o : Option KnowledgeBase) → Keeps id r (Folders.lower_count n o)
  unfolding Folders.lower_count
  Keeps-lower_count n none = search keeps_rules
  Keeps-lower_count n (some kb) = search (keeps_rules, statements)

pub ruleset steps = (
  keeps_rules, statements, Keeps-require_permission, Keeps-require_active, Keeps-rename,
  Keeps-require_available, Keeps-relocate_row, Keeps-lower_count,
)

module _ (id : ℕ) (r : Document → Bool) where
  pub Keeps-parent_of :
      (scope : TenantScope) (kb : ℕ) (i : Option ℕ) → Keeps id r (Folders.parent_of scope kb i)
  unfolding Folders.parent_of
  Keeps-parent_of scope kb none = search steps
  Keeps-parent_of scope kb (some i) = search steps

  pub Keeps-target_of :
      (scope : TenantScope) (kb : ℕ) (f : Folder) (i : Option ℕ)
      → Keeps id r (Folders.target_of scope kb f i)
  unfolding Folders.target_of
  Keeps-target_of scope kb f none = search steps
  Keeps-target_of scope kb f (some i) = search steps depth 10

  pub Keeps-relocate_round :
      (scope : TenantScope) (kb : ℕ) (f : Folder) (p : Str) (i : ℕ) (rest : Tx Unit)
      → Keeps id r rest
      → Keeps id r (Folders.relocate_round scope kb f p i rest)
  unfolding Folders.relocate_round
  Keeps-relocate_round scope kb f p i rest q = search steps depth 8

  pub Keeps-relocate :
      (scope : TenantScope) (kb : ℕ) (f : Folder) (p : Str) (ids : List ℕ)
      → Keeps id r (Folders.relocate scope kb f p ids)
  unfolding Folders.relocate
  Keeps-relocate scope kb f p [] = search steps
  Keeps-relocate scope kb f p (i ∷ ids) =
      Keeps-relocate_round scope kb f p i _ (Keeps-relocate scope kb f p ids)

  pub Keeps-check_folder :
      (e : ApplicationError) (scope : TenantScope) (kb : ℕ) (i : Option ℕ)
      → Keeps id r (Documents.check_folder e scope kb i)
  unfolding Documents.check_folder
  Keeps-check_folder e scope kb none = search steps
  Keeps-check_folder e scope kb (some i) = search steps

  pub Keeps-require_completed :
      (o : Option UploadSession) → Keeps id r (Uploads.require_completed o)
  unfolding Uploads.require_completed
  Keeps-require_completed o = search steps

pub ruleset handler_rules = (
  steps, Keeps-parent_of, Keeps-target_of, Keeps-relocate, Keeps-check_folder,
  Keeps-require_completed,
)

-- The handlers that write no document.
module _ (env : Env) (id : ℕ) where
  pub Keeps-create_knowledge_base :
      (c : CreateKnowledgeBaseCommand) → Keeps id anything (Bases.create_knowledge_base env c)
  unfolding Bases.create_knowledge_base
  Keeps-create_knowledge_base c = search handler_rules depth 30

  pub Keeps-update_knowledge_base :
      (c : UpdateKnowledgeBaseCommand) → Keeps id anything (Bases.update_knowledge_base c)
  unfolding Bases.update_knowledge_base
  Keeps-update_knowledge_base c = search handler_rules depth 30

  pub Keeps-publish_knowledge_base :
      (c : Scoped) → Keeps id anything (Bases.publish_knowledge_base c)
  unfolding Bases.publish_knowledge_base
  Keeps-publish_knowledge_base c = search handler_rules depth 30

  pub Keeps-archive_knowledge_base :
      (c : Scoped) → Keeps id anything (Bases.archive_knowledge_base env c)
  unfolding Bases.archive_knowledge_base
  Keeps-archive_knowledge_base c = search handler_rules depth 30

  pub Keeps-restore_knowledge_base :
      (c : Scoped) → Keeps id anything (Bases.restore_knowledge_base c)
  unfolding Bases.restore_knowledge_base
  Keeps-restore_knowledge_base c = search handler_rules depth 30

  pub Keeps-create_folder :
      (c : CreateFolderCommand) → Keeps id anything (Folders.create_folder env c)
  unfolding Folders.create_folder
  Keeps-create_folder c = search handler_rules depth 30

  pub Keeps-move_folder : (c : MoveFolderCommand) → Keeps id anything (Folders.move_folder env c)
  unfolding Folders.move_folder
  Keeps-move_folder c = search handler_rules depth 40

  pub Keeps-initiate_upload :
      (c : InitiateUploadCommand) → Keeps id anything (Uploads.initiate_upload env c)
  unfolding Uploads.initiate_upload
  Keeps-initiate_upload c = search handler_rules depth 30

  pub Keeps-store_upload :
      (c : CompleteUploadCommand) (u : UploadSession)
      → Keeps id anything (Uploads.store_upload env c u)
  unfolding Uploads.store_upload
  Keeps-store_upload c u = search handler_rules depth 30

  pub Keeps-expire_upload : (u : UploadSession) → Keeps id anything (Uploads.expire_upload u)
  unfolding Uploads.expire_upload
  Keeps-expire_upload u = search handler_rules depth 30

  pub Keeps-complete_upload :
      (c : CompleteUploadCommand) → Keeps id anything (Uploads.complete_upload env c)
  unfolding Uploads.complete_upload
  Keeps-complete_upload c = search (handler_rules, Keeps-store_upload, Keeps-expire_upload) depth 30
