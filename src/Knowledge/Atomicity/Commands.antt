-- ===== src/Knowledge/Atomicity/Commands.antt =====
-- The handlers and the dispatcher: what a failure leaves of the database.
use rag_enterprise.Prelude.{◌≡◌, refl, ◌⊎◌, inl, inr, List, Option-cases}
use rag_enterprise.Knowledge.Models.{StorageKey, UploadSession}
use rag_enterprise.Knowledge.Errors.{Outcome, ok, fail, raised}
use rag_enterprise.Knowledge.Session.{World, Tx, unit_of_work}
use rag_enterprise.Knowledge.Commands.{
  Scoped, CreateKnowledgeBaseCommand, UpdateKnowledgeBaseCommand, CreateFolderCommand,
  MoveFolderCommand, DeleteFolderCommand, CreateDocumentCommand, DocumentCommand,
  MoveDocumentCommand, UpdateDocumentMetadataCommand, InitiateUploadCommand, CompleteUploadCommand,
  UploadDocumentVersionCommand, Command, create_knowledge_base, update_knowledge_base,
  publish_knowledge_base, archive_knowledge_base, restore_knowledge_base, delete_knowledge_base,
  create_folder, move_folder, delete_folder, create_document, initiate_upload, complete_upload,
  upload_document_version, archive_document, restore_document, delete_document, move_document,
  update_document_metadata,
}
use rag_enterprise.Knowledge.Handlers.Env.{Env, after_delete, deleting}
use rag_enterprise.Knowledge.Handlers.Dispatch.{
  Reply, nothing, handle, dispatch, validate_command, reply_with,
}
use rag_enterprise.Knowledge.Handlers.Bases
use rag_enterprise.Knowledge.Handlers.Folders
use rag_enterprise.Knowledge.Handlers.Documents
use rag_enterprise.Knowledge.Handlers.Uploads
use rag_enterprise.Knowledge.Atomicity.{Failed, expired_error, Atomic}
use rag_enterprise.Knowledge.Atomicity.Steps.{handler_rules}

-- The handlers, each by the rules for its steps.
module _ (env : Env) where
  Atomic-create_knowledge_base :
      (c : CreateKnowledgeBaseCommand) → Atomic (Bases.create_knowledge_base env c)
  unfolding Bases.create_knowledge_base
  Atomic-create_knowledge_base c = search handler_rules depth 30

  Atomic-update_knowledge_base :
      (c : UpdateKnowledgeBaseCommand) → Atomic (Bases.update_knowledge_base c)
  unfolding Bases.update_knowledge_base
  Atomic-update_knowledge_base c = search handler_rules depth 30

  Atomic-publish_knowledge_base : (c : Scoped) → Atomic (Bases.publish_knowledge_base c)
  unfolding Bases.publish_knowledge_base
  Atomic-publish_knowledge_base c = search handler_rules depth 30

  Atomic-archive_knowledge_base : (c : Scoped) → Atomic (Bases.archive_knowledge_base env c)
  unfolding Bases.archive_knowledge_base
  Atomic-archive_knowledge_base c = search handler_rules depth 30

  Atomic-restore_knowledge_base : (c : Scoped) → Atomic (Bases.restore_knowledge_base c)
  unfolding Bases.restore_knowledge_base
  Atomic-restore_knowledge_base c = search handler_rules depth 30

  Atomic-delete_knowledge_base : (c : Scoped) → Atomic (Bases.delete_knowledge_base c)
  unfolding Bases.delete_knowledge_base
  Atomic-delete_knowledge_base c = search handler_rules depth 40

  Atomic-create_folder : (c : CreateFolderCommand) → Atomic (Folders.create_folder env c)
  unfolding Folders.create_folder
  Atomic-create_folder c = search handler_rules depth 30

  Atomic-move_folder : (c : MoveFolderCommand) → Atomic (Folders.move_folder env c)
  unfolding Folders.move_folder
  Atomic-move_folder c = search handler_rules depth 40

  Atomic-delete_folder : (c : DeleteFolderCommand) → Atomic (Folders.delete_folder env c)
  unfolding Folders.delete_folder
  Atomic-delete_folder c = search handler_rules depth 30

  Atomic-create_document : (c : CreateDocumentCommand) → Atomic (Documents.create_document env c)
  unfolding Documents.create_document
  Atomic-create_document c = search handler_rules depth 30

  Atomic-archive_document : (c : DocumentCommand) → Atomic (Documents.archive_document env c)
  unfolding Documents.archive_document
  Atomic-archive_document c = search handler_rules depth 30

  Atomic-restore_document : (c : DocumentCommand) → Atomic (Documents.restore_document c)
  unfolding Documents.restore_document
  Atomic-restore_document c = search handler_rules depth 30

  Atomic-delete_document : (c : DocumentCommand) → Atomic (Documents.delete_document c)
  unfolding Documents.delete_document
  Atomic-delete_document c = search handler_rules depth 30

  Atomic-move_document : (c : MoveDocumentCommand) → Atomic (Documents.move_document c)
  unfolding Documents.move_document
  Atomic-move_document c = search handler_rules depth 30

  Atomic-update_document_metadata :
      (c : UpdateDocumentMetadataCommand) → Atomic (Documents.update_document_metadata c)
  unfolding Documents.update_document_metadata
  Atomic-update_document_metadata c = search handler_rules depth 30

  Atomic-initiate_upload : (c : InitiateUploadCommand) → Atomic (Uploads.initiate_upload env c)
  unfolding Uploads.initiate_upload
  Atomic-initiate_upload c = search handler_rules depth 30

  Atomic-store_upload :
      (c : CompleteUploadCommand) (u : UploadSession) → Atomic (Uploads.store_upload env c u)
  unfolding Uploads.store_upload
  Atomic-store_upload c u = search handler_rules depth 30

  Atomic-expire_upload : (u : UploadSession) → Atomic (Uploads.expire_upload u)
  unfolding Uploads.expire_upload
  Atomic-expire_upload u = search handler_rules depth 30

  Atomic-complete_upload : (c : CompleteUploadCommand) → Atomic (Uploads.complete_upload env c)
  unfolding Uploads.complete_upload
  Atomic-complete_upload c =
      search (handler_rules, Atomic-store_upload, Atomic-expire_upload) depth 30

  Atomic-upload_document_version :
      (c : UploadDocumentVersionCommand) → Atomic (Uploads.upload_document_version env c)
  unfolding Uploads.upload_document_version
  Atomic-upload_document_version c = search handler_rules depth 30

-- A run on the stores: a failure has left the database alone, or is the expiry of an upload.
abbrev AllOrNothing : {A : Type 0} → World → Outcome A × World → Type 0
AllOrNothing w (r, w') = Failed r → (w'.db ≡ w.db) ⊎ (r ≡ fail expired_error)

AllOrNothing-unit_of_work :
    {A : Type 0} (m : Tx A) (w : World) → Atomic m → AllOrNothing w (unit_of_work m w)
unfolding unit_of_work
AllOrNothing-unit_of_work m w a =
    a.at (record { working = w.db; committed = w.db; files = w.files })

AllOrNothing-reply :
    {A : Type 0} (f : A → Reply) (w : World) (r : Outcome A × World)
    → AllOrNothing w r
    → AllOrNothing w (reply_with f r)
AllOrNothing-reply f w (ok a, w') h failed = absurd failed
AllOrNothing-reply f w (fail e, w') h failed = elim (h tt) [
  | inl same ↦ inl same
  | inr expired ↦ inr (cc)
]
AllOrNothing-reply f w (raised x, w') h failed = elim (h tt) [
  | inl same ↦ inl same
  | inr expired ↦ cc
]

AllOrNothing-after_delete :
    (w : World) (r : Outcome (List StorageKey) × World)
    → AllOrNothing w r
    → AllOrNothing w (after_delete r)
AllOrNothing-after_delete w (ok keys, w') h failed = absurd failed
AllOrNothing-after_delete w (fail e, w') h failed = elim (h tt) [
  | inl same ↦ inl same
  | inr expired ↦ inr (cc)
]
AllOrNothing-after_delete w (raised x, w') h failed = elim (h tt) [
  | inl same ↦ inl same
  | inr expired ↦ cc
]

module _ (w : World) where
  run-Atomic :
      {A : Type 0} (f : A → Reply) (m : Tx A)
      → Atomic m
      → AllOrNothing w (reply_with f (unit_of_work m w))
  run-Atomic f m a = AllOrNothing-reply f w _ (AllOrNothing-unit_of_work m w a)

  delete-Atomic :
      (m : Tx (List StorageKey))
      → Atomic m
      → AllOrNothing w (reply_with (λ _. nothing) (deleting m w))
  unfolding deleting
  delete-Atomic m a =
      AllOrNothing-reply _ w _ (AllOrNothing-after_delete w _ (AllOrNothing-unit_of_work m w a))

handle-AllOrNothing : (env : Env) (c : Command) (w : World) → AllOrNothing w (handle env c w)
unfolding handle
handle-AllOrNothing env (create_knowledge_base c) w =
    run-Atomic w _ _ (Atomic-create_knowledge_base env c)
handle-AllOrNothing env (update_knowledge_base c) w =
    run-Atomic w _ _ (Atomic-update_knowledge_base env c)
handle-AllOrNothing env (publish_knowledge_base c) w =
    run-Atomic w _ _ (Atomic-publish_knowledge_base env c)
handle-AllOrNothing env (archive_knowledge_base c) w =
    run-Atomic w _ _ (Atomic-archive_knowledge_base env c)
handle-AllOrNothing env (restore_knowledge_base c) w =
    run-Atomic w _ _ (Atomic-restore_knowledge_base env c)
handle-AllOrNothing env (delete_knowledge_base c) w =
    delete-Atomic w _ (Atomic-delete_knowledge_base env c)
handle-AllOrNothing env (create_folder c) w = run-Atomic w _ _ (Atomic-create_folder env c)
handle-AllOrNothing env (move_folder c) w = run-Atomic w _ _ (Atomic-move_folder env c)
handle-AllOrNothing env (delete_folder c) w = delete-Atomic w _ (Atomic-delete_folder env c)
handle-AllOrNothing env (create_document c) w = run-Atomic w _ _ (Atomic-create_document env c)
handle-AllOrNothing env (initiate_upload c) w = run-Atomic w _ _ (Atomic-initiate_upload env c)
handle-AllOrNothing env (complete_upload c) w = run-Atomic w _ _ (Atomic-complete_upload env c)
handle-AllOrNothing env (upload_document_version c) w =
    run-Atomic w _ _ (Atomic-upload_document_version env c)
handle-AllOrNothing env (archive_document c) w = run-Atomic w _ _ (Atomic-archive_document env c)
handle-AllOrNothing env (restore_document c) w = run-Atomic w _ _ (Atomic-restore_document env c)
handle-AllOrNothing env (delete_document c) w = delete-Atomic w _ (Atomic-delete_document env c)
handle-AllOrNothing env (move_document c) w = run-Atomic w _ _ (Atomic-move_document env c)
handle-AllOrNothing env (update_document_metadata c) w =
    run-Atomic w _ _ (Atomic-update_document_metadata env c)

dispatch-AllOrNothing : (env : Env) (c : Command) (w : World) → AllOrNothing w (dispatch env c w)
unfolding dispatch
dispatch-AllOrNothing env c w = elim (Option-cases (validate_command c)) [
  | inl valid ↦ rw (valid, dispatch) (handle-AllOrNothing env c w)
  | inr (e, invalid) ↦ rw (invalid, dispatch) (λ failed. inl refl)
]

-- A dispatched command that fails, or ends with an exception, has left the database as it was, unless
-- its error is that the upload session has expired.
pub dispatch_all_or_nothing :
    (env : Env) (c : Command) (w : World)
    → Failed (dispatch env c w).0
    → ((dispatch env c w).1.db ≡ w.db) ⊎ ((dispatch env c w).0 ≡ fail expired_error)
dispatch_all_or_nothing env c w failed = dispatch-AllOrNothing env c w failed
