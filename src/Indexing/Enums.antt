-- ===== src/Indexing/Enums.antt =====
-- indexing/enums.py, with the tests on a status that the code writes out.
use rag_enterprise.Prelude.{Bool, true, false}

pub data ChunkStatus : Type 0 where
  created embedded indexed superseded deleted : ChunkStatus

pub data IndexStatus : Type 0 where
  pending indexed stale deleted : IndexStatus

abbrev pub is_indexed_chunk : ChunkStatus → Bool
is_indexed_chunk ChunkStatus.indexed = true
is_indexed_chunk _ = false

abbrev pub is_deleted_chunk : ChunkStatus → Bool
is_deleted_chunk ChunkStatus.deleted = true
is_deleted_chunk _ = false

abbrev pub is_indexed_vector : IndexStatus → Bool
is_indexed_vector IndexStatus.indexed = true
is_indexed_vector _ = false
