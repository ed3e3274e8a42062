-- ===== src/Indexing/Samples.antt =====
-- A version with two chunks and a provider for the examples.
use rag_enterprise.Prelude.{ℕ, none, List, [], ◌∷◌, length}
use rag_enterprise.Prelude.Text.{Str, codes}
use rag_enterprise.Knowledge.Enums.{ExtractionMethod, ProcessingStatus}
use rag_enterprise.Knowledge.Models.{DocumentVersion, Database, version_key}
use rag_enterprise.Knowledge.Samples.{sample_db}
use rag_enterprise.Indexing.Enums.{ChunkStatus}
use rag_enterprise.Indexing.Models.{Chunk, Vector}
use rag_enterprise.Indexing.Session.{World, Session}
use rag_enterprise.Indexing.Embedding.{Provider, Reply, vectors, broken}
use rag_enterprise.Indexing.Service.{Env}

abbrev pub chunked_version : DocumentVersion
chunked_version = record {
  id = 50;
  organization_id = 1;
  workspace_id = 2;
  knowledge_base_id = 10;
  document_id = 31;
  version_number = 1;
  extraction_method = ExtractionMethod.native_text;
  processing_status = ProcessingStatus.chunked;
  content_hash = codes "h";
  file_name = codes "a.txt";
  file_size_bytes = 2;
  mime_type = codes "text/plain";
  storage_key_original = version_key 1 2 31 50 (codes "a.txt");
  storage_key_extracted = none;
  change_summary = none;
  upload_session_id = none;
  created_by_user_id = none;
  indexed_at = none;
  superseded_at = none;
  failure_reason = none;
}

abbrev pub chunk_at : (id sequence : ℕ) → Str → Chunk
chunk_at id sequence text = record {
  id = id;
  organization_id = 1;
  workspace_id = 2;
  knowledge_base_id = 10;
  document_id = 31;
  document_version_id = 50;
  sequence_number = sequence;
  text = text;
  content_hash = text;
  start_offset = 0;
  end_offset = length text;
  heading = none;
  language = none;
  strategy = codes "paragraph";
  status = ChunkStatus.created;
}

abbrev pub first_chunk : Chunk
first_chunk = chunk_at 60 0 (codes "a")

abbrev pub second_chunk : Chunk
second_chunk = chunk_at 61 1 (codes "b")

abbrev pub chunked_db : Database
chunked_db = record sample_db {
  document_versions = chunked_version ∷ [];
  chunks = second_chunk ∷ first_chunk ∷ [];
}

abbrev pub chunked_world : World
chunked_world = record { db = chunked_db; calls = 0 }

-- One component: the length.
abbrev pub length_vector : Str → Vector
length_vector text = length text ∷ []

-- It refuses calls with more than one text.
abbrev pub one_by_one : ℕ → List Str → Reply
one_by_one n [] = vectors []
one_by_one n (t ∷ []) = vectors (length_vector t ∷ [])
one_by_one n (t ∷ u ∷ ts) = broken (codes "too many")

abbrev pub small_provider : Provider
small_provider = record { model_key = codes "m"; dimensions = 1; reply = one_by_one }

abbrev pub indexing_env : Env
indexing_env = record {
  provider = small_provider;
  embedding_model_id = 7;
  limits = record { batch_size = 2; max_batch_chars = 100 };
  retry_delays = 1;
  now = 100;
  later = 101;
  new_id = λ db. length db.embeddings;
  text_of = λ n. n ∷ [];
  refusal = [];
}

-- The same service with a provider that is down.
abbrev pub failing_env : Env
failing_env = record indexing_env {
  provider = record small_provider { reply = λ n texts. broken (codes "down") };
}

abbrev pub chunked_session : Session
chunked_session = record { working = chunked_db; committed = chunked_db; calls = 0 }
