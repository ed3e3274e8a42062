-- ===== src/Knowledge/VersionNumbers/Commands.antt =====
-- The handlers and the dispatcher: the order of the version numbers.
use rag_enterprise.Prelude.{inl, inr, ℕ, List, Option-cases, arith}
use rag_enterprise.Prelude.Text.{Str}
use rag_enterprise.Knowledge.Models.{StorageKey, Document, UploadSession}
use rag_enterprise.Knowledge.Errors.{Outcome, ok, fail, raised}
use rag_enterprise.Knowledge.Session.{World, Tx, unit_of_work}
use rag_enterprise.Knowledge.Commands.{
  Scoped, CreateKnowledgeBaseCommand, UpdateKnowledgeBaseCommand, CreateFolderCommand,
  MoveFolderCommand, DeleteFolderCommand, CreateDocumentCommand, DocumentCommand,
  MoveDocumentCommand, UpdateDocumentMetadataCommand, InitiateUploadCommand, CompleteUploadCommand,
  UploadDocumentVersionCommand, Command, create_knowledge_base, update_knowledge_base,
  publish_knowledge_base, archive_knowledge_base, restore_knowledge_base, delete_knowledge_base,
  create_folder, move_folder, delete_folder, create_document, initiate_upload, complete_upload,
  upload_document_version, archive_document, restore_document, delete_document, move_document,
  update_document_metadata,
}
use rag_enterprise.Knowledge.Handlers.Env.{Env, after_delete, deleting}
use rag_enterprise.Knowledge.Handlers.Dispatch.{
  Reply, nothing, handle, dispatch, validate_command, reply_with,
}
use rag_enterprise.Knowledge.Handlers.Bases
use rag_enterprise.Knowledge.Handlers.Folders
use rag_enterprise.Knowledge.Handlers.Documents
use rag_enterprise.Knowledge.Handlers.Uploads
use rag_enterprise.Knowledge.Session.{query, execute, put_file, commit, pure, ◌>>=◌, ◌>>◌}
use rag_enterprise.Knowledge.Repositories.Versions as Versions
use rag_enterprise.Knowledge.Repositories.Documents as DocumentRepo
use rag_enterprise.Knowledge.VersionNumbers.{IsRising, KeepsNumbers, rising-append}
use rag_enterprise.Knowledge.VersionNumbers.Steps.{handler_rules}

-- The handlers, each by the rules for its steps.
module _ (env : Env) where
  KeepsNumbers-create_knowledge_base :
      (c : CreateKnowledgeBaseCommand) → KeepsNumbers (Bases.create_knowledge_base env c)
  unfolding Bases.create_knowledge_base
  KeepsNumbers-create_knowledge_base c = search handler_rules depth 30

  KeepsNumbers-update_knowledge_base :
      (c : UpdateKnowledgeBaseCommand) → KeepsNumbers (Bases.update_knowledge_base c)
  unfolding Bases.update_knowledge_base
  KeepsNumbers-update_knowledge_base c = search handler_rules depth 30

  KeepsNumbers-publish_knowledge_base : (c : Scoped) → KeepsNumbers (Bases.publish_knowledge_base c)
  unfolding Bases.publish_knowledge_base
  KeepsNumbers-publish_knowledge_base c = search handler_rules depth 30

  KeepsNumbers-archive_knowledge_base :
      (c : Scoped) → KeepsNumbers (Bases.archive_knowledge_base env c)
  unfolding Bases.archive_knowledge_base
  KeepsNumbers-archive_knowledge_base c = search handler_rules depth 30

  KeepsNumbers-restore_knowledge_base : (c : Scoped) → KeepsNumbers (Bases.restore_knowledge_base c)
  unfolding Bases.restore_knowledge_base
  KeepsNumbers-restore_knowledge_base c = search handler_rules depth 30

  KeepsNumbers-delete_knowledge_base : (c : Scoped) → KeepsNumbers (Bases.delete_knowledge_base c)
  unfolding Bases.delete_knowledge_base
  KeepsNumbers-delete_knowledge_base c = search handler_rules depth 40

  KeepsNumbers-create_folder :
      (c : CreateFolderCommand) → KeepsNumbers (Folders.create_folder env c)
  unfolding Folders.create_folder
  KeepsNumbers-create_folder c = search handler_rules depth 30

  KeepsNumbers-move_folder : (c : MoveFolderCommand) → KeepsNumbers (Folders.move_folder env c)
  unfolding Folders.move_folder
  KeepsNumbers-move_folder c = search handler_rules depth 40

  KeepsNumbers-delete_folder :
      (c : DeleteFolderCommand) → KeepsNumbers (Folders.delete_folder env c)
  unfolding Folders.delete_folder
  KeepsNumbers-delete_folder c = search handler_rules depth 30

  KeepsNumbers-create_document :
      (c : CreateDocumentCommand) → KeepsNumbers (Documents.create_document env c)
  unfolding Documents.create_document
  KeepsNumbers-create_document c = search handler_rules depth 30

  KeepsNumbers-archive_document :
      (c : DocumentCommand) → KeepsNumbers (Documents.archive_document env c)
  unfolding Documents.archive_document
  KeepsNumbers-archive_document c = search handler_rules depth 30

  KeepsNumbers-restore_document :
      (c : DocumentCommand) → KeepsNumbers (Documents.restore_document c)
  unfolding Documents.restore_document
  KeepsNumbers-restore_document c = search handler_rules depth 30

  KeepsNumbers-delete_document : (c : DocumentCommand) → KeepsNumbers (Documents.delete_document c)
  unfolding Documents.delete_document
  KeepsNumbers-delete_document c = search handler_rules depth 30

  KeepsNumbers-move_document : (c : MoveDocumentCommand) → KeepsNumbers (Documents.move_document c)
  unfolding Documents.move_document
  KeepsNumbers-move_document c = search handler_rules depth 30

  KeepsNumbers-update_document_metadata :
      (c : UpdateDocumentMetadataCommand) → KeepsNumbers (Documents.update_document_metadata c)
  unfolding Documents.update_document_metadata
  KeepsNumbers-update_document_metadata c = search handler_rules depth 30

  KeepsNumbers-initiate_upload :
      (c : InitiateUploadCommand) → KeepsNumbers (Uploads.initiate_upload env c)
  unfolding Uploads.initiate_upload
  KeepsNumbers-initiate_upload c = search handler_rules depth 30

  KeepsNumbers-store_upload :
      (c : CompleteUploadCommand) (u : UploadSession) → KeepsNumbers (Uploads.store_upload env c u)
  unfolding Uploads.store_upload
  KeepsNumbers-store_upload c u = search handler_rules depth 30

  KeepsNumbers-expire_upload : (u : UploadSession) → KeepsNumbers (Uploads.expire_upload u)
  unfolding Uploads.expire_upload
  KeepsNumbers-expire_upload u = search handler_rules depth 30

  KeepsNumbers-complete_upload :
      (c : CompleteUploadCommand) → KeepsNumbers (Uploads.complete_upload env c)
  unfolding Uploads.complete_upload
  KeepsNumbers-complete_upload c =
      search (handler_rules, KeepsNumbers-store_upload, KeepsNumbers-expire_upload) depth 30

  -- The part behind the reading of the file: the number is taken and used in one session.
  KeepsNumbers-number :
      (c : UploadDocumentVersionCommand) (d : Document) (u : UploadSession) (digest : Str)
      (content : List ℕ) (user : ℕ)
      → KeepsNumbers (
          query (Versions.next_version_number d.id) >>= λ number.
          put_file (Uploads.new_version env c d u digest number).storage_key_original content
          >> (execute (Versions.add (Uploads.new_version env c d u digest number))
              >> (execute (
                    DocumentRepo.save (
                      Uploads.with_version user (Uploads.new_version env c d u digest number).id d))
                  >> (commit >> pure (Uploads.new_version env c d u digest number)))))
  unfolding ◌>>=◌ query put_file execute commit pure Versions.next_version_number Versions.add
      DocumentRepo.save Uploads.new_version
  KeepsNumbers-number c d u digest content user = record {
    at = λ s h.
        let added =
          rising-append s.working.document_versions
            (Uploads.new_version env c d u digest (Versions.next_version_number d.id s.working))
            (omega arith) h.working in
        record { working = added; committed = added };
  }

  KeepsNumbers-upload_document_version :
      (c : UploadDocumentVersionCommand) → KeepsNumbers (Uploads.upload_document_version env c)
  unfolding Uploads.upload_document_version
  KeepsNumbers-upload_document_version c = search (KeepsNumbers-number, handler_rules) depth 30

-- A reply does not change the stores.
reply-IsRising :
    {A : Type 0} (f : A → Reply) (r : Outcome A × World)
    → IsRising r.1.db
    → IsRising (reply_with f r).1.db
reply-IsRising f (ok a, w) h = h
reply-IsRising f (fail e, w) h = h
reply-IsRising f (raised x, w) h = h

after_delete-IsRising :
    (r : Outcome (List StorageKey) × World) → IsRising r.1.db → IsRising (after_delete r).1.db
after_delete-IsRising (ok keys, w) h = h
after_delete-IsRising (fail e, w) h = h
after_delete-IsRising (raised x, w) h = h

module _ (w : World) (h : IsRising w.db) where
  run-IsRising :
      {A : Type 0} (f : A → Reply) (m : Tx A)
      → KeepsNumbers m
      → IsRising (reply_with f (unit_of_work m w)).1.db
  unfolding unit_of_work
  run-IsRising f m k =
      reply-IsRising f _
        (k.at (record { working = w.db; committed = w.db; files = w.files })
          (record { working = h; committed = h })).committed

  delete-IsRising :
      (m : Tx (List StorageKey))
      → KeepsNumbers m
      → IsRising (reply_with (λ _. nothing) (deleting m w)).1.db
  unfolding deleting unit_of_work
  delete-IsRising m k = reply-IsRising _ _ (
      after_delete-IsRising _
        (k.at (record { working = w.db; committed = w.db; files = w.files })
          (record { working = h; committed = h })).committed)

  handle-IsRising : (env : Env) (c : Command) → IsRising (handle env c w).1.db
  unfolding handle
  handle-IsRising env (create_knowledge_base c) =
      run-IsRising _ _ (KeepsNumbers-create_knowledge_base env c)
  handle-IsRising env (update_knowledge_base c) =
      run-IsRising _ _ (KeepsNumbers-update_knowledge_base env c)
  handle-IsRising env (publish_knowledge_base c) =
      run-IsRising _ _ (KeepsNumbers-publish_knowledge_base env c)
  handle-IsRising env (archive_knowledge_base c) =
      run-IsRising _ _ (KeepsNumbers-archive_knowledge_base env c)
  handle-IsRising env (restore_knowledge_base c) =
      run-IsRising _ _ (KeepsNumbers-restore_knowledge_base env c)
  handle-IsRising env (delete_knowledge_base c) =
      delete-IsRising _ (KeepsNumbers-delete_knowledge_base env c)
  handle-IsRising env (create_folder c) = run-IsRising _ _ (KeepsNumbers-create_folder env c)
  handle-IsRising env (move_folder c) = run-IsRising _ _ (KeepsNumbers-move_folder env c)
  handle-IsRising env (delete_folder c) = delete-IsRising _ (KeepsNumbers-delete_folder env c)
  handle-IsRising env (create_document c) = run-IsRising _ _ (KeepsNumbers-create_document env c)
  handle-IsRising env (initiate_upload c) = run-IsRising _ _ (KeepsNumbers-initiate_upload env c)
  handle-IsRising env (complete_upload c) = run-IsRising _ _ (KeepsNumbers-complete_upload env c)
  handle-IsRising env (upload_document_version c) =
      run-IsRising _ _ (KeepsNumbers-upload_document_version env c)
  handle-IsRising env (archive_document c) = run-IsRising _ _ (KeepsNumbers-archive_document env c)
  handle-IsRising env (restore_document c) = run-IsRising _ _ (KeepsNumbers-restore_document env c)
  handle-IsRising env (delete_document c) = delete-IsRising _ (KeepsNumbers-delete_document env c)
  handle-IsRising env (move_document c) = run-IsRising _ _ (KeepsNumbers-move_document env c)
  handle-IsRising env (update_document_metadata c) =
      run-IsRising _ _ (KeepsNumbers-update_document_metadata env c)

-- If the version numbers of each document rise in the order of the table, they do so after any command,
-- whether it succeeds or fails.
pub dispatch-IsRising :
    (env : Env) (w : World) (c : Command) → IsRising w.db → IsRising (dispatch env c w).1.db
unfolding dispatch
dispatch-IsRising env w c h = elim (Option-cases (validate_command c)) [
  | inl valid ↦ rw (valid, dispatch) (handle-IsRising w h env c)
  | inr (e, invalid) ↦ rw (invalid, dispatch) h
]
