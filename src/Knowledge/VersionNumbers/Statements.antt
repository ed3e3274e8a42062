-- ===== src/Knowledge/VersionNumbers/Statements.antt =====
-- The statements of the repositories: the order of the version numbers.
use rag_enterprise.Prelude.{ℕ, List, [], ◌∷◌}
use rag_enterprise.Knowledge.Models.{KnowledgeBase, Folder, Document, UploadSession}
use rag_enterprise.Knowledge.Models.{Database}
use rag_enterprise.Knowledge.VersionNumbers.{
  IsRising, KeepsNumbers, rising-delete_rows, numbers_rules,
}
use rag_enterprise.Knowledge.Repositories.Bases as Kbs
use rag_enterprise.Knowledge.Repositories.Folders as FolderRepo
use rag_enterprise.Knowledge.Repositories.Documents as DocumentRepo
use rag_enterprise.Knowledge.Repositories.Uploads as UploadRepo
use rag_enterprise.Knowledge.Repositories.Versions as Versions
use rag_enterprise.Knowledge.Repositories.Indexed as Indexed

pub Rising-kb_add : (kb : KnowledgeBase) (db : Database) → IsRising db → IsRising (Kbs.add kb db)
unfolding Kbs.add
Rising-kb_add kb db h = h

pub Rising-kb_save : (kb : KnowledgeBase) (db : Database) → IsRising db → IsRising (Kbs.save kb db)
unfolding Kbs.save
Rising-kb_save kb db h = h

pub Rising-kb_remove :
    (kb : KnowledgeBase) (db : Database) → IsRising db → IsRising (Kbs.remove kb db)
unfolding Kbs.remove
Rising-kb_remove kb db h = h

pub Rising-folder_add : (f : Folder) (db : Database) → IsRising db → IsRising (FolderRepo.add f db)
unfolding FolderRepo.add
Rising-folder_add f db h = h

pub Rising-folder_save :
    (f : Folder) (db : Database) → IsRising db → IsRising (FolderRepo.save f db)
unfolding FolderRepo.save
Rising-folder_save f db h = h

pub Rising-folder_archive_all_in_kb :
    (now kb : ℕ) (db : Database) → IsRising db → IsRising (FolderRepo.archive_all_in_kb now kb db)
unfolding FolderRepo.archive_all_in_kb
Rising-folder_archive_all_in_kb now kb db h = h

pub Rising-folder_hard_delete_all_in_kb :
    (kb : ℕ) (db : Database) → IsRising db → IsRising (FolderRepo.hard_delete_all_in_kb kb db)
unfolding FolderRepo.hard_delete_all_in_kb
Rising-folder_hard_delete_all_in_kb kb db h = h

pub Rising-document_add :
    (d : Document) (db : Database) → IsRising db → IsRising (DocumentRepo.add d db)
unfolding DocumentRepo.add
Rising-document_add d db h = h

pub Rising-document_save :
    (d : Document) (db : Database) → IsRising db → IsRising (DocumentRepo.save d db)
unfolding DocumentRepo.save
Rising-document_save d db h = h

pub Rising-document_remove :
    (d : Document) (db : Database) → IsRising db → IsRising (DocumentRepo.remove d db)
unfolding DocumentRepo.remove
Rising-document_remove d db h = h

pub Rising-document_archive_all_in_kb :
    (now kb : ℕ) (db : Database) → IsRising db → IsRising (DocumentRepo.archive_all_in_kb now kb db)
unfolding DocumentRepo.archive_all_in_kb
Rising-document_archive_all_in_kb now kb db h = h

pub Rising-document_hard_delete_all_in_kb :
    (kb : ℕ) (db : Database) → IsRising db → IsRising (DocumentRepo.hard_delete_all_in_kb kb db)
unfolding DocumentRepo.hard_delete_all_in_kb
Rising-document_hard_delete_all_in_kb kb db h = h

pub Rising-upload_add :
    (u : UploadSession) (db : Database) → IsRising db → IsRising (UploadRepo.add u db)
unfolding UploadRepo.add
Rising-upload_add u db h = h

pub Rising-upload_save :
    (u : UploadSession) (db : Database) → IsRising db → IsRising (UploadRepo.save u db)
unfolding UploadRepo.save
Rising-upload_save u db h = h

pub Rising-upload_delete_all_for_knowledge_base :
    (kb : ℕ) (db : Database)
    → IsRising db
    → IsRising (UploadRepo.delete_all_for_knowledge_base kb db)
unfolding UploadRepo.delete_all_for_knowledge_base
Rising-upload_delete_all_for_knowledge_base kb db h = h

pub Rising-upload_delete_all_for_document :
    (d : ℕ) (db : Database) → IsRising db → IsRising (UploadRepo.delete_all_for_document d db)
unfolding UploadRepo.delete_all_for_document
Rising-upload_delete_all_for_document d db h = h

pub Rising-delete_messages_of_kb :
    (i : ℕ) (db : Database) → IsRising db → IsRising (Indexed.delete_messages_of_kb i db)
unfolding Indexed.delete_messages_of_kb
Rising-delete_messages_of_kb i db h = h

pub Rising-delete_conversations_of_kb :
    (i : ℕ) (db : Database) → IsRising db → IsRising (Indexed.delete_conversations_of_kb i db)
unfolding Indexed.delete_conversations_of_kb
Rising-delete_conversations_of_kb i db h = h

pub Rising-delete_embeddings_of_kb :
    (i : ℕ) (db : Database) → IsRising db → IsRising (Indexed.delete_embeddings_of_kb i db)
unfolding Indexed.delete_embeddings_of_kb
Rising-delete_embeddings_of_kb i db h = h

pub Rising-delete_chunks_of_kb :
    (i : ℕ) (db : Database) → IsRising db → IsRising (Indexed.delete_chunks_of_kb i db)
unfolding Indexed.delete_chunks_of_kb
Rising-delete_chunks_of_kb i db h = h

pub Rising-delete_embeddings_of_document :
    (i : ℕ) (db : Database) → IsRising db → IsRising (Indexed.delete_embeddings_of_document i db)
unfolding Indexed.delete_embeddings_of_document
Rising-delete_embeddings_of_document i db h = h

pub Rising-delete_chunks_of_document :
    (i : ℕ) (db : Database) → IsRising db → IsRising (Indexed.delete_chunks_of_document i db)
unfolding Indexed.delete_chunks_of_document
Rising-delete_chunks_of_document i db h = h

pub Rising-version_delete_all_for_knowledge_base :
    (kb : ℕ) (db : Database) → IsRising db → IsRising (Versions.delete_all_for_knowledge_base kb db)
unfolding Versions.delete_all_for_knowledge_base
Rising-version_delete_all_for_knowledge_base kb db h = rising-delete_rows _ db.document_versions h

pub Rising-version_delete_all_for_document :
    (d : ℕ) (db : Database) → IsRising db → IsRising (Versions.delete_all_for_document d db)
unfolding Versions.delete_all_for_document
Rising-version_delete_all_for_document d db h = rising-delete_rows _ db.document_versions h

pub Rising-folder_hard_delete_subtree :
    (ids : List ℕ) (db : Database) → IsRising db → IsRising (FolderRepo.hard_delete_subtree ids db)
unfolding FolderRepo.hard_delete_subtree
Rising-folder_hard_delete_subtree [] db h = h
Rising-folder_hard_delete_subtree (i ∷ ids) db h = h

pub Rising-document_hard_delete_in_folders :
    (ids : List ℕ) (db : Database)
    → IsRising db
    → IsRising (DocumentRepo.hard_delete_in_folders ids db)
unfolding DocumentRepo.hard_delete_in_folders
Rising-document_hard_delete_in_folders [] db h = h
Rising-document_hard_delete_in_folders (i ∷ ids) db h = h

pub Rising-upload_delete_all_for_documents :
    (ids : List ℕ) (db : Database)
    → IsRising db
    → IsRising (UploadRepo.delete_all_for_documents ids db)
unfolding UploadRepo.delete_all_for_documents
Rising-upload_delete_all_for_documents [] db h = h
Rising-upload_delete_all_for_documents (i ∷ ids) db h = h

pub Rising-delete_embeddings_of_documents :
    (ids : List ℕ) (db : Database)
    → IsRising db
    → IsRising (Indexed.delete_embeddings_of_documents ids db)
unfolding Indexed.delete_embeddings_of_documents
Rising-delete_embeddings_of_documents [] db h = h
Rising-delete_embeddings_of_documents (i ∷ ids) db h = h

pub Rising-delete_chunks_of_documents :
    (ids : List ℕ) (db : Database)
    → IsRising db
    → IsRising (Indexed.delete_chunks_of_documents ids db)
unfolding Indexed.delete_chunks_of_documents
Rising-delete_chunks_of_documents [] db h = h
Rising-delete_chunks_of_documents (i ∷ ids) db h = h

pub Rising-version_delete_all_for_documents :
    (ids : List ℕ) (db : Database)
    → IsRising db
    → IsRising (Versions.delete_all_for_documents ids db)
unfolding Versions.delete_all_for_documents
Rising-version_delete_all_for_documents [] db h = h
Rising-version_delete_all_for_documents (i ∷ ids) db h = rising-delete_rows _ db.document_versions h

pub ruleset step_rules = (
  numbers_rules, Rising-kb_add, Rising-kb_save, Rising-kb_remove, Rising-folder_add,
  Rising-folder_save, Rising-folder_archive_all_in_kb, Rising-folder_hard_delete_all_in_kb,
  Rising-document_add, Rising-document_save, Rising-document_remove,
  Rising-document_archive_all_in_kb, Rising-document_hard_delete_all_in_kb, Rising-upload_add,
  Rising-upload_save, Rising-upload_delete_all_for_knowledge_base,
  Rising-upload_delete_all_for_document, Rising-delete_messages_of_kb,
  Rising-delete_conversations_of_kb, Rising-delete_embeddings_of_kb, Rising-delete_chunks_of_kb,
  Rising-delete_embeddings_of_document, Rising-delete_chunks_of_document,
  Rising-version_delete_all_for_knowledge_base, Rising-version_delete_all_for_document,
  Rising-folder_hard_delete_subtree, Rising-document_hard_delete_in_folders,
  Rising-upload_delete_all_for_documents, Rising-delete_embeddings_of_documents,
  Rising-delete_chunks_of_documents, Rising-version_delete_all_for_documents,
)
