-- ===== src/Indexing/Models.antt =====
-- indexing/models.py: one record to a table. Identifiers are numbers, a component of a vector is the
-- number with its bits. The columns that no modelled operation writes or reads (`created_at`,
-- `updated_at`, `chunking_profile`) are left out.
use rag_enterprise.Prelude.{ℕ, Option, List}
use rag_enterprise.Prelude.Text.{Str}
use rag_enterprise.Indexing.Enums.{ChunkStatus, IndexStatus}

abbrev pub Vector : Type 0
Vector = List ℕ

pub record Chunk : Type 0 where
  pub id : ℕ
  pub organization_id : ℕ
  pub workspace_id : ℕ
  pub knowledge_base_id : ℕ
  pub document_id : ℕ
  pub document_version_id : ℕ
  pub sequence_number : ℕ
  pub text : Str
  pub content_hash : Str
  pub start_offset : ℕ
  pub end_offset : ℕ
  pub heading : Option Str
  pub language : Option Str
  pub strategy : Str
  pub status : ChunkStatus

pub record Embedding : Type 0 where
  pub id : ℕ
  pub organization_id : ℕ
  pub workspace_id : ℕ
  pub chunk_id : ℕ
  pub document_version_id : ℕ
  pub knowledge_base_id : ℕ
  pub embedding_model_id : ℕ
  pub model_key : Str
  pub vector : Vector
  pub dimensions : ℕ
  pub content_hash : Str
  pub generation : ℕ
  pub index_status : IndexStatus

pub record IndexingResult : Type 0 where
  pub document_version_id : ℕ
  pub embedding_model_id : ℕ
  pub embeddings_created : ℕ
  pub embeddings_skipped : ℕ
  pub embeddings_failed : ℕ
