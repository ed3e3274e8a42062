-- ===== src/Indexing/Repositories/Chunks.antt =====
-- indexing/repositories/chunk.py, and the assignment of a chunk's status.
use rag_enterprise.Prelude.{
  ℕ, not, ◌&&◌, List, [], ◌∷◌, ◌==◌, leb, is_in, rows_where, update_rows, if◌then◌else◌,
}
use rag_enterprise.Indexing.Enums.{ChunkStatus, is_deleted_chunk}
use rag_enterprise.Indexing.Models.{Chunk}
use rag_enterprise.Knowledge.Models.{Database}

-- `ORDER BY sequence_number ASC`
unfoldable pub insert_by_sequence : Chunk → List Chunk → List Chunk
insert_by_sequence c [] = c ∷ []
insert_by_sequence c (d ∷ ds) =
    let rest = insert_by_sequence c ds in
    if leb c.sequence_number d.sequence_number then c ∷ d ∷ ds else d ∷ rest

unfoldable pub order_by_sequence : List Chunk → List Chunk
unfolding insert_by_sequence
order_by_sequence [] = []
order_by_sequence (c ∷ cs) = insert_by_sequence c (order_by_sequence cs)

unfoldable pub list_for_version : ℕ → Database → List Chunk
unfolding order_by_sequence
list_for_version version db = order_by_sequence (
    rows_where (λ c. c.document_version_id == version && not (is_deleted_chunk c.status)) db.chunks)

abbrev pub superseded_chunk : Chunk → Chunk
superseded_chunk c = record c { status = ChunkStatus.superseded }

unfoldable pub mark_superseded_for_versions : List ℕ → Database → Database
mark_superseded_for_versions [] db = db
mark_superseded_for_versions (i ∷ ids) db = record db {
  chunks =
      update_rows (λ c. is_in c.document_version_id (i ∷ ids) && not (is_deleted_chunk c.status))
        superseded_chunk db.chunks;
}

abbrev pub indexed_chunk : Chunk → Chunk
indexed_chunk c = record c { status = ChunkStatus.indexed }

-- `chunk.status = ChunkStatus.INDEXED`, for the row of the chunk.
unfoldable pub set_indexed : ℕ → Database → Database
set_indexed chunk db = record db {
  chunks = update_rows (λ c. c.id == chunk) indexed_chunk db.chunks;
}
