-- ===== src/Knowledge/Repositories/Indexed.antt =====
-- What the knowledge handlers call of indexing/repositories (chunk.py, embedding.py) and of
-- generation/repositories.py: the cascading deletes.
use rag_enterprise.Prelude.{ℕ, List, [], ◌∷◌, map, ◌==◌, is_in, rows_where, delete_rows}
use rag_enterprise.Knowledge.Models.{Database}

unfoldable pub delete_messages_of_kb : ℕ → Database → Database
delete_messages_of_kb kb db = record db {
  messages = delete_rows (λ m. m.knowledge_base_id == kb) db.messages;
}

unfoldable pub delete_conversations_of_kb : ℕ → Database → Database
delete_conversations_of_kb kb db = record db {
  conversations = delete_rows (λ c. c.knowledge_base_id == kb) db.conversations;
}

unfoldable pub delete_embeddings_of_kb : ℕ → Database → Database
delete_embeddings_of_kb kb db = record db {
  embeddings = delete_rows (λ e. e.knowledge_base_id == kb) db.embeddings;
}

unfoldable pub delete_chunks_of_kb : ℕ → Database → Database
delete_chunks_of_kb kb db = record db {
  chunks = delete_rows (λ c. c.knowledge_base_id == kb) db.chunks;
}

-- The embeddings whose chunk is one of the document's.
unfoldable pub delete_embeddings_of_document : ℕ → Database → Database
delete_embeddings_of_document document db =
    let chunk_ids = map (λ c. c.id) (rows_where (λ c. c.document_id == document) db.chunks) in
    record db { embeddings = delete_rows (λ e. is_in e.chunk_id chunk_ids) db.embeddings }

unfoldable pub delete_chunks_of_document : ℕ → Database → Database
delete_chunks_of_document document db = record db {
  chunks = delete_rows (λ c. c.document_id == document) db.chunks;
}

unfoldable pub delete_embeddings_of_documents : List ℕ → Database → Database
delete_embeddings_of_documents [] db = db
delete_embeddings_of_documents (i ∷ ids) db =
    let chunk_ids = map (λ c. c.id) (rows_where (λ c. is_in c.document_id (i ∷ ids)) db.chunks) in
    record db { embeddings = delete_rows (λ e. is_in e.chunk_id chunk_ids) db.embeddings }

unfoldable pub delete_chunks_of_documents : List ℕ → Database → Database
delete_chunks_of_documents [] db = db
delete_chunks_of_documents (i ∷ ids) db = record db {
  chunks = delete_rows (λ c. is_in c.document_id (i ∷ ids)) db.chunks;
}
