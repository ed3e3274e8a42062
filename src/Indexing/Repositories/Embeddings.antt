-- ===== src/Indexing/Repositories/Embeddings.antt =====
-- indexing/repositories/embedding.py: the statements of the indexing service. The rows of a chunk and
-- a model have a unique generation (`uq_embedding_chunk_model_generation`).
use rag_enterprise.Prelude.{
  ℕ, ◌+◌, max, Bool, ◌&&◌, Option, List, [], ◌∷◌, ◌++◌, ◌==◌, is_in, scalar, any_row, rows_where,
  update_rows,
}
use rag_enterprise.Prelude.Text.{Str, str_eq}
use rag_enterprise.Indexing.Enums.{IndexStatus, is_indexed_vector}
use rag_enterprise.Indexing.Models.{Embedding}
use rag_enterprise.Knowledge.Models.{Database}

-- The rows of a chunk and a model.
abbrev pub of_chunk : (chunk model : ℕ) → Embedding → Bool
of_chunk chunk model e = e.chunk_id == chunk && e.embedding_model_id == model

unfoldable pub is_active_match : (chunk model : ℕ) → Str → Embedding → Bool
is_active_match chunk model hash e =
    of_chunk chunk model e && str_eq e.content_hash hash && is_indexed_vector e.index_status

unfoldable pub find_active_match : (chunk model : ℕ) → Str → Database → Option Embedding
unfolding is_active_match
find_active_match chunk model hash db = scalar (is_active_match chunk model hash) db.embeddings

-- The first row by `generation DESC`; 0 where there is none, since generations start at 1.
unfoldable pub max_generation : List Embedding → ℕ
max_generation [] = 0
max_generation (e ∷ es) = max e.generation (max_generation es)

unfoldable pub next_generation : (chunk model : ℕ) → Database → ℕ
unfolding max_generation
next_generation chunk model db =
    max_generation (rows_where (of_chunk chunk model) db.embeddings) + 1

abbrev pub stale_vector : Embedding → Embedding
stale_vector e = record e { index_status = IndexStatus.stale }

unfoldable pub mark_stale_for_chunk_model : (chunk model : ℕ) → Database → Database
mark_stale_for_chunk_model chunk model db = record db {
  embeddings =
      update_rows (λ e. of_chunk chunk model e && is_indexed_vector e.index_status) stale_vector
        db.embeddings;
}

unfoldable pub mark_stale_for_versions : List ℕ → Database → Database
mark_stale_for_versions [] db = db
mark_stale_for_versions (i ∷ ids) db = record db {
  embeddings =
      update_rows (λ e. is_in e.document_version_id (i ∷ ids) && is_indexed_vector e.index_status)
        stale_vector db.embeddings;
}

abbrev pub same_generation : Embedding → Embedding → Bool
same_generation new e =
    of_chunk new.chunk_id new.embedding_model_id e && e.generation == new.generation

-- The unique constraint refuses the row.
unfoldable pub is_refused : Embedding → Database → Bool
is_refused new db = any_row (same_generation new) db.embeddings

unfoldable pub add : Embedding → Database → Database
add new db = record db { embeddings = db.embeddings ++ new ∷ [] }
