-- ===== src/Knowledge/LegalHold/Commands.antt =====
-- Legal hold and the dispatcher.
use rag_enterprise.Prelude.{ℕ, List, ◌≢◌, Option-cases, inl, inr}
use rag_enterprise.Knowledge.Models.{StorageKey, Database}
use rag_enterprise.Knowledge.Errors.{Outcome, ok, fail, raised}
use rag_enterprise.Knowledge.Session.{World, Tx, unit_of_work}
use rag_enterprise.Knowledge.Commands.{
  Command, create_knowledge_base, update_knowledge_base, publish_knowledge_base,
  archive_knowledge_base, restore_knowledge_base, delete_knowledge_base, create_folder, move_folder,
  delete_folder, create_document, initiate_upload, complete_upload, upload_document_version,
  archive_document, restore_document, delete_document, move_document, update_document_metadata,
}
use rag_enterprise.Knowledge.Handlers.Env.{Env, after_delete, deleting}
use rag_enterprise.Knowledge.Handlers.Dispatch.{
  Reply, nothing, handle, dispatch, validate_command, reply_with,
}
use rag_enterprise.Knowledge.LegalHold.{anything, OnHold, Keeps}
use rag_enterprise.Knowledge.LegalHold.Handlers.{
  Keeps-create_knowledge_base, Keeps-update_knowledge_base, Keeps-publish_knowledge_base,
  Keeps-archive_knowledge_base, Keeps-restore_knowledge_base, Keeps-create_folder,
  Keeps-move_folder, Keeps-initiate_upload, Keeps-complete_upload,
}
use rag_enterprise.Knowledge.LegalHold.Documents.{
  Keeps-create_document, Keeps-archive_document, Keeps-restore_document, Keeps-delete_document,
  Keeps-move_document, Keeps-update_document_metadata, Keeps-upload_document_version,
}
use rag_enterprise.Knowledge.LegalHold.Deletions.{Keeps-delete_folder, Keeps-delete_knowledge_base}

-- The document exists, and each row with its identifier is under legal hold.
abbrev pub IsHeld : ℕ → Database → Type 0
IsHeld id db = OnHold id anything db

module _ (id : ℕ) where
  IsHeld-reply :
      {A : Type 0} (f : A → Reply) (r : Outcome A × World)
      → IsHeld id r.1.db
      → IsHeld id (reply_with f r).1.db
  IsHeld-reply f (ok a, w) h = h
  IsHeld-reply f (fail e, w) h = h
  IsHeld-reply f (raised x, w) h = h

  IsHeld-after_delete :
      (r : Outcome (List StorageKey) × World) → IsHeld id r.1.db → IsHeld id (after_delete r).1.db
  IsHeld-after_delete (ok a, w) h = h
  IsHeld-after_delete (fail e, w) h = h
  IsHeld-after_delete (raised x, w) h = h

  module _ (w : World) (h : IsHeld id w.db) where
    run-Keeps :
        {A : Type 0} (f : A → Reply) (m : Tx A)
        → Keeps id anything m
        → IsHeld id (reply_with f (unit_of_work m w)).1.db
    unfolding unit_of_work
    run-Keeps f m k =
        IsHeld-reply f _
          (k.at (record { working = w.db; committed = w.db; files = w.files })
            (record { working = h; committed = h })).committed

    delete-Keeps :
        (m : Tx (List StorageKey))
        → Keeps id anything m
        → IsHeld id (reply_with (λ _. nothing) (deleting m w)).1.db
    unfolding deleting unit_of_work
    delete-Keeps m k = IsHeld-reply _ _ (
        IsHeld-after_delete _
          (k.at (record { working = w.db; committed = w.db; files = w.files })
            (record { working = h; committed = h })).committed)

module _ (env : Env) (id : ℕ) (fresh : env.new_id ≢ id) (w : World) (h : IsHeld id w.db) where
  handle-IsHeld : (c : Command) → IsHeld id (handle env c w).1.db
  unfolding handle
  handle-IsHeld (create_knowledge_base c) =
      run-Keeps id w h _ _ (Keeps-create_knowledge_base env id c)
  handle-IsHeld (update_knowledge_base c) =
      run-Keeps id w h _ _ (Keeps-update_knowledge_base env id c)
  handle-IsHeld (publish_knowledge_base c) =
      run-Keeps id w h _ _ (Keeps-publish_knowledge_base env id c)
  handle-IsHeld (archive_knowledge_base c) =
      run-Keeps id w h _ _ (Keeps-archive_knowledge_base env id c)
  handle-IsHeld (restore_knowledge_base c) =
      run-Keeps id w h _ _ (Keeps-restore_knowledge_base env id c)
  handle-IsHeld (delete_knowledge_base c) = delete-Keeps id w h _ (Keeps-delete_knowledge_base id c)
  handle-IsHeld (create_folder c) = run-Keeps id w h _ _ (Keeps-create_folder env id c)
  handle-IsHeld (move_folder c) = run-Keeps id w h _ _ (Keeps-move_folder env id c)
  handle-IsHeld (delete_folder c) = delete-Keeps id w h _ (Keeps-delete_folder id env c)
  handle-IsHeld (create_document c) = run-Keeps id w h _ _ (Keeps-create_document id env fresh c)
  handle-IsHeld (initiate_upload c) = run-Keeps id w h _ _ (Keeps-initiate_upload env id c)
  handle-IsHeld (complete_upload c) = run-Keeps id w h _ _ (Keeps-complete_upload env id c)
  handle-IsHeld (upload_document_version c) =
      run-Keeps id w h _ _ (Keeps-upload_document_version id env c)
  handle-IsHeld (archive_document c) = run-Keeps id w h _ _ (Keeps-archive_document id env c)
  handle-IsHeld (restore_document c) = run-Keeps id w h _ _ (Keeps-restore_document id env c)
  handle-IsHeld (delete_document c) = delete-Keeps id w h _ (Keeps-delete_document id env c)
  handle-IsHeld (move_document c) = run-Keeps id w h _ _ (Keeps-move_document id env c)
  handle-IsHeld (update_document_metadata c) =
      run-Keeps id w h _ _ (Keeps-update_document_metadata id env c)

-- A document under legal hold is still there, and still under legal hold, after any command, whether
-- it succeeds or fails, if the identifier that the command may draw is not the document's.
pub dispatch-IsHeld :
    (env : Env) (id : ℕ) (w : World) (c : Command)
    → env.new_id ≢ id
    → IsHeld id w.db
    → IsHeld id (dispatch env c w).1.db
unfolding dispatch
dispatch-IsHeld env id w c fresh h = elim (Option-cases (validate_command c)) [
  | inl valid ↦ rw (valid, dispatch) (handle-IsHeld env id fresh w h c)
  | inr (e, invalid) ↦ rw (invalid, dispatch) h
]
