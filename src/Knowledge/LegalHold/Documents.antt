-- ===== src/Knowledge/LegalHold/Documents.antt =====
-- Legal hold and the handlers that write documents one by one.
use rag_enterprise.Prelude.{ℕ, ◌≡◌, refl, ◌≢◌, Bool, true, false, Option, none, some, arith}
use rag_enterprise.Knowledge.Models.{Document}
use rag_enterprise.Knowledge.Errors.{ApplicationError}
use rag_enterprise.Knowledge.Session.{Tx, pure, query, required, reject_if, ◌>>=◌, ◌>>◌}
use rag_enterprise.Knowledge.Repositories.Scope.{TenantScope}
use rag_enterprise.Knowledge.Repositories.Documents as Docs
use rag_enterprise.Knowledge.Commands.{
  CreateDocumentCommand, DocumentCommand, MoveDocumentCommand, UpdateDocumentMetadataCommand,
  UploadDocumentVersionCommand,
}
use rag_enterprise.Knowledge.Handlers.Env.{Env}
use rag_enterprise.Knowledge.Handlers.Documents
use rag_enterprise.Knowledge.Handlers.Uploads
use rag_enterprise.Knowledge.LegalHold.{
  fine, anything, Keeps, Keeps-bind, Keeps-bind-query, Keeps-bind-required, Keeps-guarded,
}
use rag_enterprise.Knowledge.LegalHold.Steps.{OnHold-add, OnHold-save, OnHold-remove, fine_found}
use rag_enterprise.Knowledge.LegalHold.Handlers.{handler_rules, Keeps-require_permission}

module _ (id : ℕ) where
  -- A handler that looks its document up goes on with one that is on hold, if it is the one.
  Keeps-found :
      {B : Type 0} (scope : TenantScope) (kb i : ℕ) (e : ApplicationError) (k : Document → Tx B)
      → ((d : Document) → fine id anything d ≡ true → Keeps id anything (k d))
      → Keeps id anything (query (Docs.get_scoped scope kb i) >>= λ found. required e found >>= k)
  Keeps-found scope kb i e k keep = Keeps-bind-query id anything _ _ λ db h.
      Keeps-bind-required id anything e _ k
        (λ d found. keep d (fine_found id db h scope kb i d found))

  Keeps-movable_guard :
      {B : Type 0} (b : Bool) (e : ApplicationError) (d : Document) (k : Document → Tx B)
      → Keeps id anything (k d)
      → Keeps id anything ((reject_if b e >> pure d) >>= k)
  unfolding ◌>>=◌
  Keeps-movable_guard true e d k keep = record { at = λ s h. h }
  Keeps-movable_guard false e d k keep = record { at = keep.at }

  Keeps-movable :
      {B : Type 0} (o : Option Document) (k : Document → Tx B)
      → ((d : Document) → o ≡ some d → Keeps id anything (k d))
      → Keeps id anything (Documents.require_movable o >>= k)
  unfolding ◌>>=◌ Documents.require_movable
  Keeps-movable none k keep = record { at = λ s h. h }
  Keeps-movable (some d) k keep = record { at = (Keeps-movable_guard _ _ d k (keep d refl)).at }

  Keeps-found_movable :
      {B : Type 0} (scope : TenantScope) (kb i : ℕ) (k : Document → Tx B)
      → ((d : Document) → fine id anything d ≡ true → Keeps id anything (k d))
      → Keeps id anything
          (query (Docs.get_scoped scope kb i) >>= λ found. Documents.require_movable found >>= k)
  Keeps-found_movable scope kb i k keep =
      Keeps-bind-query id anything _ _
        λ db h. Keeps-movable _ k (λ d found. keep d (fine_found id db h scope kb i d found))

  -- A document whose row is not on hold is another document.
  other_id : (d : Document) → fine id anything d ≡ true → d.legal_hold ≡ false → d.id ≢ id
  other_id d f free same = ground arith

  module _ (env : Env) (fresh : env.new_id ≢ id) where
    pub Keeps-create_document :
        (c : CreateDocumentCommand) → Keeps id anything (Documents.create_document env c)
    unfolding Documents.create_document Documents.new_document
    Keeps-create_document c = search (handler_rules, OnHold-add) depth 30

  module _ (env : Env) where
    pub Keeps-archive_document :
        (c : DocumentCommand) → Keeps id anything (Documents.archive_document env c)
    unfolding Documents.archive_document Documents.archived_document
    Keeps-archive_document c =
        Keeps-bind id anything _ _ (Keeps-require_permission id anything _ _)
          λ _. Keeps-found _ _ _ _ _ (λ d f. search (handler_rules, OnHold-save) depth 30)

    pub Keeps-restore_document :
        (c : DocumentCommand) → Keeps id anything (Documents.restore_document c)
    unfolding Documents.restore_document Documents.restored_document
    Keeps-restore_document c =
        Keeps-bind id anything _ _ (Keeps-require_permission id anything _ _)
          λ _. Keeps-found _ _ _ _ _ (λ d f. search (handler_rules, OnHold-save) depth 30)

    pub Keeps-update_document_metadata :
        (c : UpdateDocumentMetadataCommand)
        → Keeps id anything (Documents.update_document_metadata c)
    unfolding Documents.update_document_metadata Documents.with_metadata
    Keeps-update_document_metadata c =
        Keeps-bind id anything _ _ (Keeps-require_permission id anything _ _)
          λ _. Keeps-found _ _ _ _ _ (λ d f. search (handler_rules, OnHold-save) depth 30)

    pub Keeps-upload_document_version :
        (c : UploadDocumentVersionCommand)
        → Keeps id anything (Uploads.upload_document_version env c)
    unfolding Uploads.upload_document_version Uploads.with_version
    Keeps-upload_document_version c =
        Keeps-bind id anything _ _ (Keeps-require_permission id anything _ _)
          λ _. Keeps-found _ _ _ _ _ (λ d f. search (handler_rules, OnHold-save) depth 30)

    pub Keeps-move_document :
        (c : MoveDocumentCommand) → Keeps id anything (Documents.move_document c)
    unfolding Documents.move_document Documents.moved_document
    Keeps-move_document c =
        Keeps-bind id anything _ _ (Keeps-require_permission id anything _ _)
          λ _. Keeps-found_movable _ _ _ _ (λ d f. search (handler_rules, OnHold-save) depth 30)

    pub Keeps-delete_document :
        (c : DocumentCommand) → Keeps id anything (Documents.delete_document c)
    unfolding Documents.delete_document
    Keeps-delete_document c =
        Keeps-bind id anything _ _ (Keeps-require_permission id anything _ _) λ _.
          Keeps-found _ _ _ _ _ λ d f.
            Keeps-guarded id anything _ _ _
              λ free. search (handler_rules, OnHold-remove, other_id d f free) depth 30
