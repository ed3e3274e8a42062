-- ===== src/Knowledge/LegalHold/Steps.antt =====
-- Legal hold and the statements of the repositories.
use rag_enterprise.Prelude.{
  ℕ, List, [], ◌∷◌, ◌≡◌, refl, ◌≢◌, Bool, true, not, some, arith, ◌==◌, scalar-all_rows,
  all_rows-append, any_row-append, all_rows-update_rows, any_row-update_rows, all_rows-delete_rows,
  any_row-delete_rows,
}
use rag_enterprise.Knowledge.Models.{
  KnowledgeBase, Folder, Document, DocumentVersion, UploadSession, Database,
}
use rag_enterprise.Knowledge.Repositories.Scope.{TenantScope}
use rag_enterprise.Knowledge.Repositories.Bases as Kbs
use rag_enterprise.Knowledge.Repositories.Folders
use rag_enterprise.Knowledge.Repositories.Documents as Docs
use rag_enterprise.Knowledge.Repositories.Versions
use rag_enterprise.Knowledge.Repositories.Uploads
use rag_enterprise.Knowledge.Repositories.Indexed
use rag_enterprise.Knowledge.LegalHold.{fine, anything, OnHold}

-- Statements on the other tables.
module _ (id : ℕ) (r : Document → Bool) (db : Database) (h : OnHold id r db) where
  same_documents : (db' : Database) → db'.documents ≡ db.documents → OnHold id r db'
  same_documents db' e = record { held = rw e h.held; present = rw e h.present }

  pub OnHold-add_base : (kb : KnowledgeBase) → OnHold id r (Kbs.add kb db)
  unfolding Kbs.add
  OnHold-add_base kb = same_documents _ refl

  pub OnHold-save_base : (kb : KnowledgeBase) → OnHold id r (Kbs.save kb db)
  unfolding Kbs.save
  OnHold-save_base kb = same_documents _ refl

  pub OnHold-remove_base : (kb : KnowledgeBase) → OnHold id r (Kbs.remove kb db)
  unfolding Kbs.remove
  OnHold-remove_base kb = same_documents _ refl

  pub OnHold-add_folder : (f : Folder) → OnHold id r (Folders.add f db)
  unfolding Folders.add
  OnHold-add_folder f = same_documents _ refl

  pub OnHold-save_folder : (f : Folder) → OnHold id r (Folders.save f db)
  unfolding Folders.save
  OnHold-save_folder f = same_documents _ refl

  pub OnHold-archive_folders : (now kb : ℕ) → OnHold id r (Folders.archive_all_in_kb now kb db)
  unfolding Folders.archive_all_in_kb
  OnHold-archive_folders now kb = same_documents _ refl

  pub OnHold-delete_folders : (kb : ℕ) → OnHold id r (Folders.hard_delete_all_in_kb kb db)
  unfolding Folders.hard_delete_all_in_kb
  OnHold-delete_folders kb = same_documents _ refl

  pub OnHold-delete_subtree : (ids : List ℕ) → OnHold id r (Folders.hard_delete_subtree ids db)
  unfolding Folders.hard_delete_subtree
  OnHold-delete_subtree [] = h
  OnHold-delete_subtree (i ∷ ids) = same_documents _ refl

  pub OnHold-versions_of_kb : (kb : ℕ) → OnHold id r (Versions.delete_all_for_knowledge_base kb db)
  unfolding Versions.delete_all_for_knowledge_base
  OnHold-versions_of_kb kb = same_documents _ refl

  pub OnHold-versions_of : (d : ℕ) → OnHold id r (Versions.delete_all_for_document d db)
  unfolding Versions.delete_all_for_document
  OnHold-versions_of d = same_documents _ refl

  pub OnHold-versions_of_all : (ds : List ℕ) → OnHold id r (Versions.delete_all_for_documents ds db)
  unfolding Versions.delete_all_for_documents
  OnHold-versions_of_all [] = h
  OnHold-versions_of_all (d ∷ ds) = same_documents _ refl

  pub OnHold-add_version : (v : DocumentVersion) → OnHold id r (Versions.add v db)
  unfolding Versions.add
  OnHold-add_version v = same_documents _ refl

  pub OnHold-uploads_of_kb : (kb : ℕ) → OnHold id r (Uploads.delete_all_for_knowledge_base kb db)
  unfolding Uploads.delete_all_for_knowledge_base
  OnHold-uploads_of_kb kb = same_documents _ refl

  pub OnHold-uploads_of : (d : ℕ) → OnHold id r (Uploads.delete_all_for_document d db)
  unfolding Uploads.delete_all_for_document
  OnHold-uploads_of d = same_documents _ refl

  pub OnHold-uploads_of_all : (ds : List ℕ) → OnHold id r (Uploads.delete_all_for_documents ds db)
  unfolding Uploads.delete_all_for_documents
  OnHold-uploads_of_all [] = h
  OnHold-uploads_of_all (d ∷ ds) = same_documents _ refl

  pub OnHold-add_upload : (u : UploadSession) → OnHold id r (Uploads.add u db)
  unfolding Uploads.add
  OnHold-add_upload u = same_documents _ refl

  pub OnHold-save_upload : (u : UploadSession) → OnHold id r (Uploads.save u db)
  unfolding Uploads.save
  OnHold-save_upload u = same_documents _ refl

  pub OnHold-messages : (kb : ℕ) → OnHold id r (Indexed.delete_messages_of_kb kb db)
  unfolding Indexed.delete_messages_of_kb
  OnHold-messages kb = same_documents _ refl

  pub OnHold-conversations : (kb : ℕ) → OnHold id r (Indexed.delete_conversations_of_kb kb db)
  unfolding Indexed.delete_conversations_of_kb
  OnHold-conversations kb = same_documents _ refl

  pub OnHold-embeddings_of_kb : (kb : ℕ) → OnHold id r (Indexed.delete_embeddings_of_kb kb db)
  unfolding Indexed.delete_embeddings_of_kb
  OnHold-embeddings_of_kb kb = same_documents _ refl

  pub OnHold-chunks_of_kb : (kb : ℕ) → OnHold id r (Indexed.delete_chunks_of_kb kb db)
  unfolding Indexed.delete_chunks_of_kb
  OnHold-chunks_of_kb kb = same_documents _ refl

  pub OnHold-embeddings_of : (d : ℕ) → OnHold id r (Indexed.delete_embeddings_of_document d db)
  unfolding Indexed.delete_embeddings_of_document
  OnHold-embeddings_of d = same_documents _ refl

  pub OnHold-chunks_of : (d : ℕ) → OnHold id r (Indexed.delete_chunks_of_document d db)
  unfolding Indexed.delete_chunks_of_document
  OnHold-chunks_of d = same_documents _ refl

  pub OnHold-embeddings_of_all :
      (ds : List ℕ) → OnHold id r (Indexed.delete_embeddings_of_documents ds db)
  unfolding Indexed.delete_embeddings_of_documents
  OnHold-embeddings_of_all [] = h
  OnHold-embeddings_of_all (d ∷ ds) = same_documents _ refl

  pub OnHold-chunks_of_all : (ds : List ℕ) → OnHold id r (Indexed.delete_chunks_of_documents ds db)
  unfolding Indexed.delete_chunks_of_documents
  OnHold-chunks_of_all [] = h
  OnHold-chunks_of_all (d ∷ ds) = same_documents _ refl

-- Statements on the documents.
module _ (id : ℕ) (db : Database) (h : OnHold id anything db) where
  pub OnHold-add : (d : Document) → d.id ≢ id → OnHold id anything (Docs.add d db)
  unfolding Docs.add
  OnHold-add d other = record {
    held = all_rows-append (fine id anything) db.documents d h.held (ground arith);
    present = any_row-append (λ d. d.id == id) db.documents d h.present;
  }

  pub OnHold-save : (d : Document) → fine id anything d ≡ true → OnHold id anything (Docs.save d db)
  unfolding Docs.save
  OnHold-save d f = record {
    held = all_rows-update_rows (fine id anything) _ _ db.documents (λ x p q. f) h.held;
    present =
        any_row-update_rows (λ d. d.id == id) _ _ db.documents (λ x p q. ground arith) h.present;
  }

  pub OnHold-archive : (now kb : ℕ) → OnHold id anything (Docs.archive_all_in_kb now kb db)
  unfolding Docs.archive_all_in_kb
  OnHold-archive now kb = record {
    held = all_rows-update_rows (fine id anything) _ _ db.documents (λ x p q. p) h.held;
    present = any_row-update_rows (λ d. d.id == id) _ _ db.documents (λ x p q. p) h.present;
  }

  pub OnHold-remove : (d : Document) → d.id ≢ id → OnHold id anything (Docs.remove d db)
  unfolding Docs.remove
  OnHold-remove d other = record {
    held = all_rows-delete_rows (fine id anything) _ db.documents h.held;
    present =
        any_row-delete_rows (λ x. x.id == id) (λ x. x.id == d.id) (fine id anything) db.documents
          (λ x p q. ground arith) h.held h.present;
  }

  -- What a query finds is on hold, if it is the document.
  pub fine_found :
      (scope : TenantScope) (kb i : ℕ) (d : Document)
      → Docs.get_scoped scope kb i db ≡ some d
      → fine id anything d ≡ true
  unfolding Docs.get_scoped
  fine_found scope kb i d e = scalar-all_rows (fine id anything) _ db.documents d h.held e

-- The bulk deletions, where the documents on hold are among those that stay.
module _ (id : ℕ) (db : Database) where
  pub OnHold-delete_in_kb :
      (kb : ℕ)
      → OnHold id (λ d. not (d.knowledge_base_id == kb)) db
      → OnHold id (λ d. not (d.knowledge_base_id == kb)) (Docs.hard_delete_all_in_kb kb db)
  unfolding Docs.hard_delete_all_in_kb
  OnHold-delete_in_kb kb h = record {
    held = all_rows-delete_rows _ _ db.documents h.held;
    present =
        any_row-delete_rows (λ x. x.id == id) (λ x. x.knowledge_base_id == kb)
          (fine id (λ d. not (d.knowledge_base_id == kb))) db.documents (λ x p q. ground arith)
          h.held h.present;
  }

  pub OnHold-delete_in_folders :
      (ids : List ℕ)
      → OnHold id (λ d. not (Docs.in_folders ids d)) db
      → OnHold id (λ d. not (Docs.in_folders ids d)) (Docs.hard_delete_in_folders ids db)
  unfolding Docs.hard_delete_in_folders
  OnHold-delete_in_folders [] h = h
  OnHold-delete_in_folders (i ∷ ids) h = record {
    held = all_rows-delete_rows _ _ db.documents h.held;
    present =
        any_row-delete_rows (λ x. x.id == id) (Docs.in_folders (i ∷ ids))
          (fine id (λ d. not (Docs.in_folders (i ∷ ids) d))) db.documents (λ x p q. ground arith)
          h.held h.present;
  }
